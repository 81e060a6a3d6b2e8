-- ===== src/Security/Keys.antt =====
-- Keys and log texts of src/security.rs.
use corrall.Prelude.{ℕ, ◌+◌, ◌-◌, ◌≤◌, ◌≡◌, refl, ◌≢◌, ◌↔◌, true, [], ◌∷◌, length, all, arith, not}
use corrall.Prelude.Bytes.{Bytes}
use corrall.Security.{padded, slice_eq, ct_eq, is_control, safe_from, safe_text}

padded_eq : (a b : Bytes) → length a ≡ length b → padded a b ≡ b
unfolding padded
padded_eq [] [] h = refl
padded_eq [] (y ∷ b) h = absurd (omega arith)
padded_eq (x ∷ a) [] h = absurd (omega arith)
padded_eq (x ∷ a) (y ∷ b) h = ground (arith, padded_eq a b)

slice_eq_iff : (a b : Bytes) → (slice_eq a b ≡ true) ↔ (a ≡ b)
unfolding slice_eq
slice_eq_iff [] [] = ground arith
slice_eq_iff [] (y ∷ b) = ground arith
slice_eq_iff (x ∷ a) [] = ground arith
slice_eq_iff (x ∷ a) (y ∷ b) = ground (arith, slice_eq_iff a b)

ct_eq_sound : (a b : Bytes) → ct_eq a b ≡ true → (a ≡ b) × (a ≢ [])
unfolding ct_eq
ct_eq_sound [] b h = absurd (ground arith)
ct_eq_sound (x ∷ a) b h =
    ground (arith, slice_eq_iff (x ∷ a) (padded (x ∷ a) b), padded_eq (x ∷ a) b)

ct_eq_complete : (a b : Bytes) → (a ≡ b) × (a ≢ []) → ct_eq a b ≡ true
unfolding ct_eq
ct_eq_complete [] b h = absurd (h.1 refl)
ct_eq_complete (x ∷ a) [] h = absurd (ground arith)
ct_eq_complete (x ∷ a) (y ∷ b) h =
    ground (arith, slice_eq_iff (x ∷ a) (padded (x ∷ a) (y ∷ b)), padded_eq (x ∷ a) (y ∷ b))

-- The comparison through the padded buffer accepts exactly equal keys that are not empty: a key
-- that is a prefix of the secret, or longer than it, is refused.
pub ct_eq_iff : (a b : Bytes) → (ct_eq a b ≡ true) ↔ ((a ≡ b) × (a ≢ []))
ct_eq_iff a b = (ct_eq_sound a b, ct_eq_complete a b)

-- No control character, at most the allowed characters left, and the mark of a cut.
abbrev pub IsSafe : ℕ → Bytes → Type 0
IsSafe room s = (all (λ c. not (is_control c)) s ≡ true) × (length s ≤ room + 1)

safe_from-IsSafe :
    (max count room : ℕ) (s : Bytes) → max ≤ count + room → IsSafe room (safe_from max count s)
unfolding safe_from is_control
safe_from-IsSafe max count room [] h = (refl, omega arith)
safe_from-IsSafe max count room (ch ∷ s) h =
    ground (arith, safe_from-IsSafe max (count + 1) (room - 1) s)

-- What reaches a terminal holds no control character, and at most one character (the mark of a
-- cut) more than the limit.
pub safe_text-IsSafe : (s : Bytes) (max : ℕ) → IsSafe max (safe_text s max)
unfolding safe_text
safe_text-IsSafe s max = safe_from-IsSafe max 0 max s (omega arith)

safe_from_clean :
    (max count : ℕ) (s : Bytes)
    → all (λ c. not (is_control c)) s ≡ true
    → count + length s ≤ max
    → safe_from max count s ≡ s
unfolding safe_from
safe_from_clean max count [] clean h = refl
safe_from_clean max count (ch ∷ s) clean h = ground (arith, safe_from_clean max (count + 1) s)

-- A text within the limit and with no control character is left as it is.
safe_text_clean :
    (s : Bytes) (max : ℕ)
    → all (λ c. not (is_control c)) s ≡ true
    → length s ≤ max
    → safe_text s max ≡ s
unfolding safe_text
safe_text_clean s max clean h = safe_from_clean max 0 s clean (omega arith)
