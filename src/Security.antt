-- ===== src/Security.antt =====
-- src/security.rs: key comparison, address classes, and text made safe for a terminal.
-- Texts are byte lists, or code points where the source walks characters. The standard library's
-- address parser is the argument `parse_ip`.
pub mod Keys
pub mod Addresses
use Prim.Native.Nat.{bit_and}
use mathlib.Core.List.{reverse}
use corrall.Prelude.{
  ℕ, zero, suc, ◌+◌, ◌*◌, ◌/◌, ◌%◌, ◌≡◌, Bool, true, false, not, ◌&&◌, ◌||◌, List, [], ◌∷◌, ◌++◌,
  Option, none, some, ltb, leb, eqb, length, get_elem?, if◌then◌else◌,
}
use corrall.Prelude.Bytes.{Bytes, bytes_eq, lower, lowercase, trim, codes}

pub data IpAddr : Type 0 where
  v4 : ℕ → ℕ → ℕ → ℕ → IpAddr
  v6 : ℕ → ℕ → ℕ → ℕ → ℕ → ℕ → ℕ → ℕ → IpAddr

-- The buffer of the length of `a` that holds what `b` has at each place, and 0 past its end.
unfoldable pub padded : Bytes → Bytes → Bytes
padded [] b = []
padded (x ∷ a) [] = 0 ∷ padded a []
padded (x ∷ a) (y ∷ b) = y ∷ padded a b

-- `subtle`'s equality of byte slices of one length: every pair is compared.
unfoldable pub slice_eq : Bytes → Bytes → Bool
slice_eq [] [] = true
slice_eq (x ∷ a) (y ∷ b) = let rest = slice_eq a b in eqb x y && rest
slice_eq _ _ = false

abbrev pub is_empty {ℓ} : {A : Type ℓ} → List A → Bool
is_empty [] = true
is_empty (x ∷ xs) = false

-- Constant-time equality that does not leak the length of the secret.
unfoldable pub ct_eq : Bytes → Bytes → Bool
unfolding padded slice_eq
ct_eq a b =
    if is_empty a || is_empty b then false else slice_eq a (padded a b) && eqb (length a) (length b)

-- `Ipv6Addr::to_ipv4_mapped`
unfoldable pub to_ipv4_mapped : IpAddr → Option IpAddr
to_ipv4_mapped (v4 a b c d) = none
to_ipv4_mapped (v6 a b c d e f g h) =
    if eqb a 0 && (eqb b 0 && (eqb c 0 && (eqb d 0 && (eqb e 0 && eqb f 0xffff))))
    then some (v4 (g / 256) (g % 256) (h / 256) (h % 256))
    else none

unfoldable pub is_loopback_v4 : IpAddr → Bool
is_loopback_v4 (v4 a b c d) = eqb a 127
is_loopback_v4 (v6 a b c d e f g h) = false

abbrev pub mapped_or_false : (IpAddr → Bool) → Option IpAddr → Bool
mapped_or_false p none = false
mapped_or_false p (some ip) = p ip

-- `Ipv6Addr::is_loopback`: ::1
abbrev pub is_one : ℕ → ℕ → ℕ → ℕ → ℕ → ℕ → ℕ → ℕ → Bool
is_one a b c d e f g h =
    eqb a 0 && (eqb b 0 && (eqb c 0 && (eqb d 0 && (eqb e 0 && (eqb f 0 && (eqb g 0 && eqb h 1))))))

unfoldable pub is_loopback_ip : IpAddr → Bool
unfolding is_loopback_v4 to_ipv4_mapped
is_loopback_ip (v4 a b c d) = is_loopback_v4 (v4 a b c d)
is_loopback_ip (v6 a b c d e f g h) =
    is_one a b c d e f g h || mapped_or_false is_loopback_v4 (to_ipv4_mapped (v6 a b c d e f g h))

-- Strip every leading byte of the given value.
unfoldable pub trim_start_of : ℕ → Bytes → Bytes
trim_start_of x [] = []
trim_start_of x (c ∷ s) = let rest = trim_start_of x s in if eqb c x then rest else c ∷ s

unfoldable pub trim_end_of : ℕ → Bytes → Bytes
unfolding trim_start_of
trim_end_of x s = reverse (trim_start_of x (reverse s))

unfoldable pub is_loopback_host : (Bytes → Option IpAddr) → Bytes → Bool
unfolding is_loopback_ip trim_end_of
is_loopback_host parse_ip host =
    let h = trim_end_of b']' (trim_start_of b'[' (trim host)) in
    if bytes_eq (lowercase h) (codes "localhost")
    then true
    else mapped_or_false is_loopback_ip (parse_ip h)

-- The private ranges of IPv4, test by test.
unfoldable pub is_private_v4 : ℕ → ℕ → ℕ → ℕ → Bool
is_private_v4 a b c d =
    (eqb a 10 || ((eqb a 172 && (leb 16 b && leb b 31)) || (eqb a 192 && eqb b 168)))
    || (eqb a 127
        || ((eqb a 169 && eqb b 254)
            || ((eqb a 255 && (eqb b 255 && (eqb c 255 && eqb d 255)))
                || (((eqb a 192 && (eqb b 0 && eqb c 2))
                      || ((eqb a 198 && (eqb b 51 && eqb c 100))
                          || (eqb a 203 && (eqb b 0 && eqb c 113))))
                    || ((eqb a 0 && (eqb b 0 && (eqb c 0 && eqb d 0)))
                        || ((leb 224 a && leb a 239)
                            || (eqb a 0
                                || ((eqb a 100 && (leb 64 b && leb b 127))
                                    || (eqb a 169
                                        && (eqb b 254 && (eqb c 169 && eqb d 254)))))))))))

-- `Ipv6Addr::is_unspecified`: ::
abbrev pub is_zero_v6 : ℕ → ℕ → ℕ → ℕ → ℕ → ℕ → ℕ → ℕ → Bool
is_zero_v6 a b c d e f g h =
    eqb a 0 && (eqb b 0 && (eqb c 0 && (eqb d 0 && (eqb e 0 && (eqb f 0 && (eqb g 0 && eqb h 0))))))

unfoldable pub is_private_v6 : ℕ → ℕ → ℕ → ℕ → ℕ → ℕ → ℕ → ℕ → Bool
is_private_v6 a b c d e f g h =
    is_one a b c d e f g h
    || (is_zero_v6 a b c d e f g h
        || (leb 0xff00 a || (eqb (bit_and a 0xfe00) 0xfc00 || eqb (bit_and a 0xffc0) 0xfe80)))

abbrev pub private_mapped : IpAddr → Bool
private_mapped (v4 a b c d) = is_private_v4 a b c d
private_mapped (v6 a b c d e f g h) = is_private_v6 a b c d e f g h

-- Addresses that must never be reached through a blind tunnel.
unfoldable pub is_private_ip : IpAddr → Bool
unfolding to_ipv4_mapped
is_private_ip (v4 a b c d) = is_private_v4 a b c d
is_private_ip (v6 a b c d e f g h) = elim (to_ipv4_mapped (v6 a b c d e f g h)) [
  | some ip ↦ private_mapped ip
  | none ↦ is_private_v6 a b c d e f g h
]

-- `char::is_control` and the two ranges that the source adds.
unfoldable pub is_control : ℕ → Bool
is_control c = ltb c 32 || (leb 127 c && leb c 0x9f)

-- The loop of `safe_text` with `count` characters already written.
unfoldable pub safe_from : ℕ → ℕ → Bytes → Bytes
unfolding is_control
safe_from max count [] = []
safe_from max count (ch ∷ s) =
    let rest = safe_from max (count + 1) s in
    if leb max count then 0x2026 ∷ [] else if is_control ch then 32 ∷ rest else ch ∷ rest

-- Control characters become spaces, and a long text ends in `…`.
unfoldable pub safe_text : Bytes → ℕ → Bytes
unfolding safe_from
safe_text s max = safe_from max 0 s
