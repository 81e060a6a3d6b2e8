-- ===== src/Tests/Responses.antt =====
-- The headers of responses: a run, and witnesses.
use corrall.Prelude.{ℕ, String, ◌≡◌, refl, [], ◌∷◌, none, some}
use corrall.Prelude.Int.{pos, scale_i64, wrap_i64}
use corrall.Prelude.Maps.{Map, lookup, insert_sorted}
use corrall.Quota.{Bucket, Quota, no_quota}
use corrall.Quota.Expiry.{IsFresh}
use corrall.Codex.{
  Window, apply_codex_headers, classify, families, read_header, read_field, slug_and_position,
  classify_window, put_account, put_scoped, near,
}
use corrall.Prelude.Texts.{
  strip_prefix, strip_suffix, rsplit_once, trim_text, trim_text_start, trim_text_end, lower_text,
  lower_char,
}
use corrall.Prelude.Bytes.{is_whitespace, parse_i64, parse_usize, parse_digits}
use mathlib.Core.Option
use corrall.Codex.Places.{classify-swapped}
use corrall.Fleet.{Account, account}
use corrall.Fleet.Eligibility.{threshold_for}
use corrall.Fleet.Responses.{update_quota}
use corrall.Fleet.Responses.Readings.{update_quota-IsFresh}
use corrall.Tests.Fixtures.{fixed, site, account_named, fleet_of, used_quota}

-- The headers of a response of Codex with a limit of one model.
abbrev codex_headers : Map String
codex_headers =
    ("x-codex-gpt5-limit-name", "GPT-5")
    ∷ ("x-codex-gpt5-primary-used-percent", "90")
    ∷ ("x-codex-gpt5-primary-window-minutes", "10080")
    ∷ ("x-codex-primary-reset-at", "1800000000")
    ∷ ("x-codex-primary-used-percent", "40")
    ∷ ("x-codex-primary-window-minutes", "10080")
    ∷ ("x-codex-secondary-used-percent", "10")
    ∷ ("x-codex-secondary-window-minutes", "300")
    ∷ []

abbrev codex_quota : Quota ℕ
codex_quota = apply_codex_headers codex_headers (pos 1) no_quota

codex_windows :
    (codex_quota.unified5h.utilization ≡ some 1000)
    × (codex_quota.unified7d.utilization ≡ some 4000)
    × (codex_quota.unified7d.reset_at ≡ some (pos 1800000000000))
    × (Option.map (λ (b : Bucket ℕ). b.utilization) (lookup "gpt-5" codex_quota.scoped_weekly)
        ≡ some (some 9000))
unfolding apply_codex_headers families read_header read_field slug_and_position classify
    classify_window put_account put_scoped near strip_prefix strip_suffix rsplit_once trim_text
    trim_text_start trim_text_end is_whitespace lower_text lower_char lookup insert_sorted scale_i64
    wrap_i64 parse_i64 parse_usize parse_digits Option.bind
codex_windows = (refl, refl, refl, refl)

abbrev weekly : Window ℕ
weekly = record { used_percent = some 400000; window_minutes = some 100800000; reset_at = none }

abbrev short : Window ℕ
short = record { used_percent = some 100000; window_minutes = some 3000000; reset_at = none }

classify-swapped_example :
    classify
      (pos 1)
      (record { name = none; windows = ("primary", weekly) ∷ ("secondary", short) ∷ [] })
    ≡ classify
        (pos 1)
        (record { name = none; windows = ("primary", short) ∷ ("secondary", weekly) ∷ [] })
unfolding near
classify-swapped_example =
    classify-swapped (pos 1) none "primary" "secondary" weekly short refl refl

update_quota-IsFresh_example :
    (b : Account ℕ) × (account
        (update_quota "work" codex_headers "now"
          (pos 2000000)
          (fleet_of (account_named "work" used_quota ∷ []))).fleet
        "work"
      ≡ some b)
    × IsFresh
        (pos 2000000)
        (pos 600000)
        (threshold_for (fleet_of (account_named "work" used_quota ∷ [])))
        b.quota
unfolding account
update_quota-IsFresh_example =
    update_quota-IsFresh "work" "now" codex_headers (pos 2000000)
      (fleet_of (account_named "work" used_quota ∷ [])) (account_named "work" used_quota) refl
