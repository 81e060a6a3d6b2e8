-- ===== src/Fleet/Probes.antt =====
-- src/manager.rs: the runs of the quota prober, the accounts to keep warm, and update notices.
use mathlib.Core.Option
use corrall.Prelude.{
  String, Bool, true, false, not, ◌&&◌, List, [], keep, map, Option, none, some, if◌then◌else◌,
  ◌==◌,
}
use corrall.Prelude.Int.{ℤ, leb_ℤ, sub_i64}
use corrall.Prelude.Float.{Float}
use corrall.Prelude.Maps.{insert}
use corrall.Fleet.{Account, Fleet, Provider, is_oauth, is_provider}
use corrall.Fleet.Upstream.{Platform}
use corrall.Fleet.Eligibility.{is_none, unavailable_reason}

abbrev pub same_text : Option String → Option String → Bool
same_text none none = true
same_text (some s) (some t) = s == t
same_text _ _ = false

module _ {F : Type 0} where
  -- The fleet, and whether the update is announced.
  unfoldable pub set_update_available : Option String → ℤ → Fleet F → Fleet F × Bool
  set_update_available tag now f = (
    record f { update_available = tag; update_checked_at = some now },
    not (same_text f.update_available tag) && not (is_none tag),
  )

  unfoldable pub take_probe_recheck : Fleet F → Fleet F × List String
  take_probe_recheck f = (record f { probe = record f.probe { recheck = [] } }, f.probe.recheck)

  unfoldable pub probe_run_started : ℤ → Option ℤ → Fleet F → Fleet F
  probe_run_started now next f = record f {
    probe = record f.probe { running = true; last_run_started_at = some now; next_run_at = next };
  }

  unfoldable pub probe_run_finished : ℤ → Option ℤ → Fleet F → Fleet F
  probe_run_finished now next f = record f {
    probe = record f.probe {
      running = false;
      last_run_finished_at = some now;
      next_run_at = if is_none next then f.probe.next_run_at else next;
    };
  }

  unfoldable pub probe_account_status :
      String → String → ℤ → Option ℤ → Option String → Fleet F → Fleet F
  probe_account_status id status started finished err f = record f {
    probe = record f.probe {
      accounts =
          insert id
            (record {
              status = status;
              started_at = some started;
              finished_at = finished;
              duration_ms = Option.map (λ t. sub_i64 t started) finished;
              error = err;
            })
            f.probe.accounts;
    };
  }

module _ {F : Type 0} ⦃fl : Float F⦄ ⦃pf : Platform⦄ where
  -- A subscription account of Anthropic's own upstream with a credential.
  abbrev pub is_warmable : Account F → Bool
  is_warmable a =
      is_oauth a.kind
      && (is_provider a.provider Provider.anthropic
          && (is_none a.upstream && not (is_none a.credential)))

  abbrev pub window_idle : ℤ → Account F → Bool
  window_idle now a = elim a.quota.unified5h.reset_at [ none ↦ true | some r ↦ leb_ℤ r now ]

  -- The idle accounts that keep-warm may touch, with their names.
  unfoldable pub warm_candidates : ℤ → Fleet F → List (String × String)
  warm_candidates now f =
      map (λ (a : Account F). (a.id, a.name))
        (keep (window_idle now) (
          keep (λ (a : Account F). is_none (unavailable_reason f a none none now))
            (keep is_warmable f.accounts)))
