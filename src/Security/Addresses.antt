-- ===== src/Security/Addresses.antt =====
-- Address classes of src/security.rs.
use corrall.Prelude.{◌≡◌, true, arith}
use corrall.Security.{
  IpAddr, v4, v6, is_loopback_ip, is_loopback_v4, is_private_ip, is_private_v4, is_private_v6,
  to_ipv4_mapped,
}

-- Every loopback address is private, in all three spellings: v4, ::1 and v4-mapped.
private-loopback : (ip : IpAddr) → is_loopback_ip ip ≡ true → is_private_ip ip ≡ true
unfolding is_loopback_ip is_private_ip is_loopback_v4 is_private_v4 is_private_v6 to_ipv4_mapped
private-loopback (v4 a b c d) h = ground arith
private-loopback (v6 a b c d e f g h') h = ground arith
