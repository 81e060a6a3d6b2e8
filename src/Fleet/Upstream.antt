-- ===== src/Fleet/Upstream.antt =====
-- src/manager.rs, src/oauth.rs, src/codex.rs: where an account's requests may be sent.
use mathlib.Core.List.{reverse}
use mathlib.Core.Option
use corrall.Prelude.{String, Bool, ◌||◌, Option, none, some, if◌then◌else◌}
use corrall.Prelude.Int.{ℤ}
use corrall.Prelude.Bytes.{Bytes, codes, lowercase, bytes_eq, starts_with}
use corrall.Security.{IpAddr, is_loopback_host}
use corrall.Fleet.{Account, Provider, is_oauth}

-- What the selection takes from outside: the host of a URL (the url crate), the address parser of
-- the standard library, the ISO times of chrono, and the stale limit from the environment.
pub record Platform : Type 0 where
  pub host_of : String → Option String
  pub parse_ip : Bytes → Option IpAddr
  pub parse_iso_ms : String → Option ℤ
  pub family_stale_ms : ℤ

unfoldable pub ends_with : Bytes → Bytes → Bool
ends_with s suffix = starts_with (reverse s) (reverse suffix)

-- `oauth::is_anthropic_host`
unfoldable pub is_anthropic_host : String → Bool
unfolding ends_with
is_anthropic_host host =
    let h = lowercase (codes host) in
    bytes_eq h (codes "api.anthropic.com")
    || (ends_with h (codes ".anthropic.com")
        || (bytes_eq h (codes "platform.claude.com") || ends_with h (codes ".claude.com")))

-- `codex::is_codex_host`
unfoldable pub is_codex_host : String → Bool
is_codex_host host =
    let h = lowercase (codes host) in
    bytes_eq h (codes "chatgpt.com") || bytes_eq h (codes "auth.openai.com")

abbrev pub default_host : Provider → String → String
default_host Provider.codex default = "https://chatgpt.com"
default_host Provider.anthropic default = default

abbrev pub is_allowed_host : Provider → String → Bool
is_allowed_host Provider.anthropic host = is_anthropic_host host
is_allowed_host Provider.codex host = is_codex_host host

-- `Account::upstream_for`: `none` is the refusal.
module _ {F : Type 0} ⦃pf : Platform⦄ where
  -- Subscription tokens are only ever sent to their provider's hosts, or to loopback.
  unfoldable pub upstream_for : Account F → String → Option String
  upstream_for a default =
      let u = Option.get_or a.upstream (default_host a.provider default) in
      let host = Option.get_or (pf.host_of u) "" in
      if is_oauth a.kind
      then (if is_allowed_host a.provider host || is_loopback_host pf.parse_ip (codes host)
          then some u
          else none)
      else some u
