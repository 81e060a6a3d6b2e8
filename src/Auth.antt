-- ===== src/Auth.antt =====
-- src/proxy/auth.rs: who may use the proxy. A header value is `none` where it is not visible ASCII.
-- The address parser of the standard library is the argument `parse_ip`.
pub mod Access
use mathlib.Core.List.{reverse}
use mathlib.Core.Option
use corrall.Prelude.{
  ℕ, suc, zero, String, Bool, true, false, not, ◌&&◌, ◌||◌, List, [], ◌∷◌, Option, none, some, leb,
  length, if◌then◌else◌,
}
use corrall.Prelude.Bytes.{Bytes, codes, trim, starts_with, contains, split_once, bytes_eq}
use corrall.Prelude.Maps.{Map, lookup, has_key}
use corrall.Quota.{or_else}
use corrall.Security.{IpAddr, ct_eq, is_empty, is_loopback_ip, is_loopback_host}

pub record ClientKey : Type 0 where
  pub name : String
  pub key : Bytes

-- The settings that are read here.
pub record ProxyConfig : Type 0 where
  pub api_key : Bytes
  pub client_keys : List ClientKey
  pub require_key_on_loopback : Bool

pub data Denial : Type 0 where
  browser_originated foreign_host invalid_key : Denial

pub data Auth : Type 0 where
  shared : Auth
  client : String → Auth
  loopback : Auth
  denied : Denial → Auth

abbrev pub Headers : Type 0
Headers = Map (Option Bytes)

-- `headers.get(k).and_then(|v| v.to_str().ok())`
abbrev pub header : Headers → String → Option Bytes
header h k = Option.get_or (lookup k h) none

-- A key that is long enough and the one presented.
abbrev pub opens : Bytes → Bytes → Bool
opens p key = leb 16 (length key) && ct_eq p key

abbrev pub check_clients : Bytes → List ClientKey → Option Auth
check_clients p [] = none
check_clients p (k ∷ keys) =
    let rest = check_clients p keys in if opens p k.key then some (client k.name) else rest

unfoldable pub check_key : ProxyConfig → Option Bytes → Option Auth
check_key cfg none = none
check_key cfg (some presented) =
    let p = trim presented in
    if is_empty p
    then none
    else if opens p cfg.api_key
    then some shared
    else check_clients p cfg.client_keys

-- `Origin`, or a `Sec-Fetch-Site` other than `none`.
unfoldable pub is_browser_initiated : Headers → Bool
is_browser_initiated h =
    has_key "origin" h
    || elim (header h "sec-fetch-site") [ none ↦ false | some v ↦ not (bytes_eq v (codes "none")) ]

abbrev pub drop : ℕ → Bytes → Bytes
drop zero s = s
drop (suc n) [] = []
drop (suc n) (c ∷ s) = drop n s

-- `Bearer tc-…`, from the key on.
abbrev pub bearer : Bytes → Option Bytes
bearer v = if starts_with v (codes "Bearer tc-") then some (drop 7 v) else none

unfoldable pub presented_key : Headers → Option Bytes
presented_key h =
    or_else (header h "x-corrall-key")
      (or_else (header h "x-api-key") (Option.bind (header h "authorization") bearer))

-- The host without its port; the colons of a bare IPv6 address are none.
unfoldable pub bare_host : Bytes → Bytes
bare_host h = elim (split_once b':' (reverse h)) [
  | none ↦ h
  | some (port, before) ↦
      if starts_with h (codes "[") || not (contains (reverse before) (codes ":"))
      then reverse before
      else h
]

unfoldable pub host_ok : (Bytes → Option IpAddr) → Option Bytes → Bool
unfolding bare_host
host_ok parse_ip none = true
host_ok parse_ip (some h) = is_loopback_host parse_ip (bare_host (trim h))

-- A request without a key.
unfoldable pub without_key :
    (Bytes → Option IpAddr) → ProxyConfig → IpAddr → Headers → Option Bytes → Auth
unfolding host_ok
without_key parse_ip cfg peer headers host =
    if is_browser_initiated headers
    then denied browser_originated
    else if is_loopback_ip peer && not cfg.require_key_on_loopback
    then (if host_ok parse_ip host then loopback else denied foreign_host)
    else denied invalid_key

unfoldable pub authenticate :
    (Bytes → Option IpAddr) → ProxyConfig → IpAddr → Headers → Option Bytes → Auth
unfolding without_key
authenticate parse_ip cfg peer headers host = elim (check_key cfg (presented_key headers)) [
  | some a ↦ a
  | none ↦ without_key parse_ip cfg peer headers host
]
