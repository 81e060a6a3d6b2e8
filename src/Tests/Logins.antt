-- ===== src/Tests/Logins.antt =====
-- Witnesses for logins, reloads and ids.
use mathlib.Core.Option
use Prim.Native.String.{◌++◌, count}
use text.Mathlib.TextLemmas.{length-append}
use corrall.Prelude.{
  ℕ, zero, suc, ◌+◌, String, ◌≡◌, ◌≢◌, refl, ap, true, false, List, [], ◌∷◌, none, some, arith,
  if◌then◌else◌, ◌==◌, eq_iff, Bool-cases, inl, inr,
}
use corrall.Prelude.Int.{pos}
use corrall.Config.{AccountConfig, AccountType}
use corrall.Config.Pools.{Config, new_pool, pool_or_default}
use corrall.Config.Pools.Ids.{ensure_account_ids}
use corrall.Config.Pools.Ids.Unique.{
  AreUuids, is_new, all_ids, all_usable, ensure_account_ids-usable, ensure_account_ids_again,
}
use corrall.Prelude.Maps.{lookup}
use corrall.Fleet.{Account, Fleet, Status, account, account_mut, modify_first}
use corrall.Fleet.Logins.{Files}
use corrall.Fleet.Tokens.{
  OnRefreshFail, Turn, Tokens, refreshed, failed, rejected, kills, begin_refresh, settle,
  refresh_own, locked_refresh, send_refresh, is_still_needed, unsent,
}
use corrall.Fleet.Tokens.Linked.{ensure_token_fresh, entry_for}
use corrall.Fleet.Tokens.Turns.{MaySend, ensure_token_fresh-MaySend, refresh_own-shared}
use corrall.Fleet.Tokens.Refusals.{settle-rejected}
use corrall.Fleet.Sync.{sync_config}
use corrall.Fleet.Sync.References.{RefersToOwn, sync_config-RefersToOwn}
use corrall.Fleet.Sync.Learned.{SameLearned, sync_config-Learned}
use corrall.Tests.Fixtures.{fixed, account_named, fleet_of, used_quota}

-- A subscription whose access token has expired.
abbrev subscriber : Account ℕ
subscriber = record (account_named "work" used_quota) {
  kind = AccountType.oauth;
  refresh_token = some "r1";
  expires_at = some (pos 1000);
}

abbrev subscribed : Fleet ℕ
subscribed = fleet_of (subscriber ∷ [])

abbrev no_files : Files
no_files = record { claude = λ p. none; codex = λ p. none }

abbrev next_tokens : Tokens
next_tokens = record {
  access_token = "a2";
  refresh_token = some "r2";
  expires_at = pos 9000000;
  refresh_expires_at = none;
}

abbrev undisturbed : Turn ℕ
undisturbed = record {
  started = pos 2000;
  locked = pos 2100;
  answered = pos 2200;
  others_before = λ f. f;
  others_meanwhile = λ f. f;
  endpoint = λ p rt. refreshed next_tokens;
}

sent_first :
    (ensure_token_fresh no_files "work" false OnRefreshFail.keep undisturbed subscribed).sent
    ≡ some "r1"
unfolding ensure_token_fresh refresh_own begin_refresh locked_refresh send_refresh is_still_needed
    account Option.bind
sent_first = refl

ensure_token_fresh-MaySend_example : MaySend "work" false undisturbed subscribed "r1"
ensure_token_fresh-MaySend_example =
    ensure_token_fresh-MaySend no_files "work" "r1" false OnRefreshFail.keep undisturbed subscribed
      sent_first

-- Another call refreshed the account meanwhile.
abbrev overtaken : Turn ℕ
overtaken = record undisturbed {
  others_before = settle "work" OnRefreshFail.keep "r1" (pos 2050) (refreshed next_tokens);
}

refresh_own-shared_example :
    refresh_own "work" false OnRefreshFail.keep overtaken subscribed
    ≡ unsent
        (settle "work" OnRefreshFail.keep "r1" (pos 2050) (refreshed next_tokens) subscribed)
        (some "a2")
unfolding begin_refresh account
refresh_own-shared_example =
    refresh_own-shared "work" "r1" false OnRefreshFail.keep OnRefreshFail.keep overtaken subscribed
      subscribed subscriber "r1" next_tokens (pos 2050) refl refl refl refl refl

settle-rejected_example :
    if kills OnRefreshFail.mark_dead subscriber.expires_at (pos 2000)
    then ((b : Account ℕ) × ((account
              (settle "work" OnRefreshFail.mark_dead "r1"
                (pos 2000)
                (failed (rejected 400 "gone"))
                subscribed)
              "work"
            ≡ some b)
          × (b.status ≡ Status.error)
          × ((ensure_token_fresh no_files "work" true OnRefreshFail.keep overtaken (
                settle "work" OnRefreshFail.mark_dead "r1"
                  (pos 2000)
                  (failed (rejected 400 "gone"))
                  subscribed)).sent
              ≡ none)))
    else (settle "work" OnRefreshFail.mark_dead "r1"
          (pos 2000)
          (failed (rejected 400 "gone"))
          subscribed
        ≡ subscribed)
unfolding account
settle-rejected_example =
    settle-rejected no_files "work" "r1" "gone" 400 OnRefreshFail.mark_dead OnRefreshFail.keep true
      (pos 2000) overtaken subscribed subscriber refl refl

-- The account is linked to a file while the call waits for its turn.
abbrev linked_meanwhile : Turn ℕ
linked_meanwhile = record undisturbed {
  others_before =
      λ f. record f { accounts = record subscriber { import_from = some "/login" } ∷ [] };
}

sent_though_linked :
    (ensure_token_fresh no_files "work" false OnRefreshFail.keep linked_meanwhile subscribed).sent
    ≡ some "r1"
unfolding ensure_token_fresh refresh_own begin_refresh locked_refresh send_refresh is_still_needed
    account Option.bind
sent_though_linked = refl

-- The token is rejected while the call waits for its turn.
abbrev rejected_meanwhile : Turn ℕ
rejected_meanwhile = record undisturbed {
  others_before =
      settle "work" OnRefreshFail.mark_dead "r1" (pos 2050) (failed (rejected 400 "gone"));
}

sent_though_rejected :
    (ensure_token_fresh no_files "work" false OnRefreshFail.keep rejected_meanwhile subscribed).sent
    ≡ some "r1"
unfolding ensure_token_fresh refresh_own begin_refresh locked_refresh send_refresh is_still_needed
    account settle account_mut modify_first Option.bind
sent_though_rejected = refl

abbrev pub listed : AccountConfig ℕ
listed = record (entry_for "unused") {
  id = some "work";
  name = "renamed";
  import_from = none;
  access_token = some "a3";
}

abbrev pub unlisted : AccountConfig ℕ
unlisted = record listed { id = none; name = "new" }

abbrev pub one_pool : List (AccountConfig ℕ) → Config ℕ
one_pool accounts = record {
  upstream = "https://api.anthropic.com";
  default_pool = "default";
  pools = ("default", record new_pool { accounts = accounts }) ∷ [];
  warmup_seconds = 0;
}

-- A sequence of texts of growing length.
abbrev numbered : ℕ → String
numbered zero = "uuuuu"
numbered (suc n) = "u" ++ numbered n

sync_config-RefersToOwn_example :
    RefersToOwn (sync_config no_files numbered (one_pool (unlisted ∷ [])) "default" subscribed).0
sync_config-RefersToOwn_example =
    sync_config-RefersToOwn no_files numbered (one_pool (unlisted ∷ [])) "default" subscribed

sync_config-Learned_example :
    (b : Account ℕ) × ((account
          (sync_config no_files numbered (one_pool (listed ∷ [])) "default" subscribed).0
          "work"
        ≡ some b)
      × SameLearned subscriber b)
unfolding account pool_or_default lookup Option.bind
sync_config-Learned_example =
    sync_config-Learned no_files numbered (one_pool (listed ∷ [])) "default" "work" subscribed
      subscriber refl refl refl

count-numbered : (i : ℕ) → count (numbered i) ≡ i + 5
count-numbered zero = refl
count-numbered (suc i) = omega (arith, length-append "u" (numbered i), count-numbered i)

-- Texts of different lengths are different.
eq_of_count : (s t : String) → count s ≢ count t → (s == t) ≡ false
eq_of_count s t h = elim (Bool-cases (s == t)) [
  | inl same ↦ absurd (h (ap count ((eq_iff s t).0 same)))
  | inr other ↦ other
]

numbered-AreUuids : AreUuids numbered
numbered-AreUuids = record {
  named = λ i. eq_of_count (numbered i) "" (λ h. omega (arith, count-numbered i, h));
  apart = λ i j h. omega (arith, count-numbered i, count-numbered j, ap count h);
}

numbered-new :
    (i : ℕ) → is_new (numbered i) (all_ids (one_pool (listed ∷ unlisted ∷ [])).pools) ≡ true
numbered-new i = rw (eq_of_count "work" (numbered i) (λ h. omega (arith, count-numbered i, h))) refl

ensure_account_ids-usable_example :
    all_usable []
      (all_ids (ensure_account_ids numbered (one_pool (listed ∷ unlisted ∷ []))).0.pools)
    ≡ true
ensure_account_ids-usable_example =
    ensure_account_ids-usable numbered (one_pool (listed ∷ unlisted ∷ [])) numbered-AreUuids
      numbered-new

ensure_account_ids_again_example :
    ensure_account_ids
      (λ i. "other")
      (ensure_account_ids numbered (one_pool (listed ∷ unlisted ∷ []))).0
    ≡ ((ensure_account_ids numbered (one_pool (listed ∷ unlisted ∷ []))).0, false)
ensure_account_ids_again_example =
    ensure_account_ids_again numbered (λ i. "other") (one_pool (listed ∷ unlisted ∷ []))
      numbered-AreUuids numbered-new
