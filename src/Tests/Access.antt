-- ===== src/Tests/Access.antt =====
-- Witnesses for the access to the proxy.
use corrall.Prelude.{false, [], ◌∷◌, Option, none, some}
use corrall.Prelude.Bytes.{Bytes, codes}
use corrall.Security.{IpAddr, v4}
use corrall.Auth.{ProxyConfig, Headers, authenticate}
use corrall.Auth.Access.{Granted, authenticate-Granted}

abbrev settings : ProxyConfig
settings = record {
  api_key = codes "tc-0123456789abcdef";
  client_keys = record { name = "ci"; key = codes "tc-fedcba9876543210" } ∷ [];
  require_key_on_loopback = false;
}

abbrev keyed : Headers
keyed = ("x-api-key", some (codes " tc-fedcba9876543210")) ∷ []

abbrev no_address : Bytes → Option IpAddr
no_address b = none

authenticate-Granted_example :
    Granted no_address settings
      (v4 10 0 0 9)
      keyed
      none
      (authenticate no_address settings (v4 10 0 0 9) keyed none)
authenticate-Granted_example = authenticate-Granted no_address settings (v4 10 0 0 9) keyed none
