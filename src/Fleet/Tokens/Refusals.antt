-- ===== src/Fleet/Tokens/Refusals.antt =====
-- src/manager.rs: what follows when the token endpoint rejects a refresh token.
use corrall.Prelude.{
  ℕ, String, ◌≡◌, refl, Bool, true, false, List, [], ◌∷◌, Option, none, some, arith, if◌then◌else◌,
  find, eq_refl, ap, subst, ◌∙◌,
}
use corrall.Prelude.Int.{ℤ}
use corrall.Fleet.{
  Account, Fleet, Status, account, account_mut, modify_first, has_id, account-account_mut,
}
use corrall.Fleet.Tokens.{
  OnRefreshFail, failed, rejected, kills, settle, take_rejection, mark_rejected,
}
use corrall.Config.{is_text}
use corrall.Fleet.Logins.{Files}
use corrall.Fleet.Tokens.{Turn}
use corrall.Fleet.Tokens.Linked.{ensure_token_fresh}
use corrall.Fleet.Tokens.Turns.{MaySend, ensure_token_fresh-MaySend}

module _ {F : Type 0} where
  modify_first_same :
      (p : Account F → Bool) (change : Account F → Account F) (v : List (Account F))
      → ((a : Account F) → find p v ≡ some a → change a ≡ a)
      → modify_first p change v ≡ v
  unfolding modify_first
  modify_first_same p change [] h = refl
  modify_first_same p change (a ∷ v) h = ground (arith, modify_first_same p change v, h a)

  -- An account that a rejection does not take out of rotation is left as it is, and so is the fleet.
  settle_kept :
      (id rt detail : String) (status : ℕ) (on_fail : OnRefreshFail) (now : ℤ) (f : Fleet F)
      (a : Account F)
      → account f id ≡ some a
      → kills on_fail a.expires_at now ≡ false
      → settle id on_fail rt now (failed (rejected status detail)) f ≡ f
  unfolding settle account_mut account
  settle_kept id rt detail status on_fail now f a found alive =
      ap (λ v. record f { accounts = v })
        (modify_first_same (has_id id) (take_rejection on_fail rt now) f.accounts
          (λ b e. ground arith))

  settle_killed :
      (id rt detail : String) (status : ℕ) (on_fail : OnRefreshFail) (now : ℤ) (f : Fleet F)
      (a : Account F)
      → account f id ≡ some a
      → kills on_fail a.expires_at now ≡ true
      → account (settle id on_fail rt now (failed (rejected status detail)) f) id
        ≡ some (record (mark_rejected a) { dead_refresh_token = some rt })
  unfolding settle
  settle_killed id rt detail status on_fail now f a found dead =
      rw (account-account_mut id (take_rejection on_fail rt now) f (λ b. ground arith), found)
        (ground arith)

  -- A call that begins where the account's token is known to be dead sends nothing.
  ensure_token_fresh-dead :
      (files : Files) (id rt : String) (force : Bool) (on_fail : OnRefreshFail) (turn : Turn F)
      (f : Fleet F) (a : Account F)
      → account f id ≡ some a
      → a.refresh_token ≡ some rt
      → a.dead_refresh_token ≡ some rt
      → (ensure_token_fresh files id force on_fail turn f).sent ≡ none
  ensure_token_fresh-dead files id rt force on_fail turn f a found held dead =
      go (ensure_token_fresh files id force on_fail turn f).sent refl
    where
      clash : (sent : String) → MaySend id force turn f sent → ⊥
      clash sent m =
          let same : m.before ≡ a = cc (m.there, found) in
          let first : m.first ≡ rt =
            cc (m.first_held, ap (λ (x : Account F). x.refresh_token) same, held) in
          let known : m.before.dead_refresh_token ≡ some rt =
            ap (λ (x : Account F). x.dead_refresh_token) same ∙ dead in
          let not_dead : is_text rt (some rt) ≡ false =
            subst (λ o. is_text rt o ≡ false) known
              (subst (λ x. is_text x m.before.dead_refresh_token ≡ false) first m.not_dead) in
          absurd (ground (arith, not_dead, eq_refl rt))

      go :
          (o : Option String)
          → (ensure_token_fresh files id force on_fail turn f).sent ≡ o
          → o ≡ none
      go none e = refl
      go (some sent) e =
          absurd (clash sent (ensure_token_fresh-MaySend files id sent force on_fail turn f e))

  -- A refresh token that the endpoint rejects, where the account holds it: an account whose access
  -- token is still good under `keep` is left as it is with the whole fleet, and otherwise the account
  -- is in error, and a call that begins in the fleet as the rejection leaves it sends nothing, forced
  -- or not, whatever other calls do while it waits. A call that was waiting already is not spoken of.
  pub settle-rejected :
      (files : Files) (id rt detail : String) (status : ℕ) (on_fail later_fail : OnRefreshFail)
      (force : Bool) (now : ℤ) (turn : Turn F) (f : Fleet F) (a : Account F)
      → account f id ≡ some a
      → a.refresh_token ≡ some rt
      → if kills on_fail a.expires_at now
        then ((b : Account F) × ((account
                  (settle id on_fail rt now (failed (rejected status detail)) f)
                  id
                ≡ some b)
              × (b.status ≡ Status.error)
              × ((ensure_token_fresh files id force later_fail turn
                    (settle id on_fail rt now (failed (rejected status detail)) f)).sent
                  ≡ none)))
        else (settle id on_fail rt now (failed (rejected status detail)) f ≡ f)
  settle-rejected files id rt detail status on_fail later_fail force now turn f a found held =
      go (kills on_fail a.expires_at now) refl
    where
      go :
          (t : Bool)
          → kills on_fail a.expires_at now ≡ t
          → if t
            then ((b : Account F) × ((account
                      (settle id on_fail rt now (failed (rejected status detail)) f)
                      id
                    ≡ some b)
                  × (b.status ≡ Status.error)
                  × ((ensure_token_fresh files id force later_fail turn
                        (settle id on_fail rt now (failed (rejected status detail)) f)).sent
                      ≡ none)))
            else (settle id on_fail rt now (failed (rejected status detail)) f ≡ f)
      go true dead =
          let b = record (mark_rejected a) { dead_refresh_token = some rt } in
          let now_dead = settle_killed id rt detail status on_fail now f a found dead in
          (
            b,
            (
              now_dead,
              refl,
              ensure_token_fresh-dead files id rt force later_fail turn _ b now_dead held refl,
            ),
          )
      go false alive = settle_kept id rt detail status on_fail now f a found alive
