-- ===== src/Fleet/Sync/References.antt =====
-- After a reload (src/manager.rs) the fleet names only accounts that it has.
use corrall.Prelude.{
  ℕ, String, ◌≡◌, refl, Bool, true, List, [], ◌∷◌, map, Option, none, some, keep, all, arith,
}
use corrall.Prelude.Float.{Float}
use corrall.Prelude.Maps.{Map}
use corrall.Config.Pools.{Config}
use corrall.Session.{Session, member, remap_accounts, live_pins}
use corrall.Fleet.{Fleet}
use corrall.Fleet.Logins.{Files}
use corrall.Fleet.Sync.{sync_config, account_ids, live}

abbrev pub is_among : List String → Option String → Bool
is_among ids none = true
is_among ids (some id) = member id ids

abbrev pub pins_known : List String → Map String → Bool
pins_known ids pins = all (λ (e : String × String). member e.1 ids) pins

abbrev pub sessions_known : List String → Map Session → Bool
sessions_known ids sessions = all (λ (e : String × Session). pins_known ids e.1.pins) sessions

all-keep {ℓ} : {A : Type ℓ} (p : A → Bool) (xs : List A) → all p (keep p xs) ≡ true
all-keep p [] = refl
all-keep p (x ∷ xs) = ground (arith, all-keep p xs)

remapped-known :
    (ids : List String) (sessions : Map Session)
    → sessions_known ids (map (λ (e : String × Session). (e.0, live_pins ids e.1)) sessions) ≡ true
remapped-known ids [] = refl
remapped-known ids ((id, s) ∷ sessions) =
    ground (
      arith,
      remapped-known ids sessions,
      all-keep (λ (e : String × String). member e.1 ids) s.pins,
    )

live-known : (ids : List String) (o : Option String) → is_among ids (live ids o) ≡ true
live-known ids none = refl
live-known ids (some id) = ground arith

module _ {F : Type 0} where
  -- The cursor, the route pins and the pins of every session name accounts of the fleet.
  abbrev pub RefersToOwn : Fleet F → Type 0
  RefersToOwn f =
      (is_among (account_ids f.accounts) f.current ≡ true)
      × (pins_known (account_ids f.accounts) f.route_pins ≡ true)
      × (sessions_known (account_ids f.accounts) f.sessions.sessions ≡ true)

module _ {F : Type 0} ⦃fl : Float F⦄ where
  -- Whatever the config and the fleet before, after a reload the cursor, the route pins and the pins
  -- of every session name accounts that the fleet has.
  pub sync_config-RefersToOwn :
      (files : Files) (uuid : ℕ → String) (cfg : Config F) (pool : String) (f : Fleet F)
      → RefersToOwn (sync_config files uuid cfg pool f).0
  unfolding sync_config remap_accounts
  sync_config-RefersToOwn files uuid cfg pool f =
      (live-known _ f.current, all-keep _ f.route_pins, remapped-known _ f.sessions.sessions)
