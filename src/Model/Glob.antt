-- ===== src/Model/Glob.antt =====
-- The glob matcher of src/model.rs, and globs as an inductive relation.
use corrall.Prelude.{
  ℕ, ◌≡◌, refl, ◌≢◌, ◌↔◌, inl, inr, Bool, true, [], ◌∷◌, eqb, eqb_iff, Bool-cases, arith,
}
use corrall.Prelude.Bytes.{Bytes, lower}
use corrall.Model.{eq_ignore_case, any_suffix, glob_star, match_first, glob_matches}

-- What a glob means: `*` stands for any bytes, any other byte for itself in either case.
pub data Matches : Bytes → Bytes → Type 0 where
  done : Matches [] []
  stop : {c : ℕ} {g m : Bytes} → c ≡ glob_star → Matches g m → Matches (c ∷ g) m
  skip : {c x : ℕ} {g m : Bytes} → c ≡ glob_star → Matches (c ∷ g) m → Matches (c ∷ g) (x ∷ m)
  same :
      {c x : ℕ} {g m : Bytes}
      → c ≢ glob_star
      → lower c ≡ lower x
      → Matches g m
      → Matches (c ∷ g) (x ∷ m)

any_suffix-Matches :
    (p : Bytes → Bool) (c : ℕ) (g m : Bytes)
    → c ≡ glob_star
    → ((n : Bytes) → p n ≡ true → Matches g n)
    → any_suffix p m ≡ true
    → Matches (c ∷ g) m
any_suffix-Matches p c g [] e sound h = stop e (sound [] h)
any_suffix-Matches p c g (x ∷ m) e sound h = elim (Bool-cases (p (x ∷ m))) [
  | inl now ↦ stop e (sound (x ∷ m) now)
  | inr later ↦ skip e (any_suffix-Matches p c g m e sound (ground arith))
]

match_first-Matches :
    (p : Bytes → Bool) (c : ℕ) (g m : Bytes)
    → c ≢ glob_star
    → ((n : Bytes) → p n ≡ true → Matches g n)
    → match_first p c m ≡ true
    → Matches (c ∷ g) m
unfolding eq_ignore_case
match_first-Matches p c g [] ne sound h = absurd (ground arith)
match_first-Matches p c g (x ∷ m) ne sound h = same ne (ground arith) (sound m (ground arith))

sound : (g m : Bytes) → glob_matches g m ≡ true → Matches g m
unfolding glob_matches
sound [] [] h = done
sound [] (x ∷ m) h = absurd (ground arith)
sound (c ∷ g) m h = elim (Bool-cases (eqb c glob_star)) [
  | inl star ↦
      any_suffix-Matches (glob_matches g) c g m ((eqb_iff _ _).0 star) (sound g) (rw star at h)
  | inr plain ↦ match_first-Matches (glob_matches g) c g m (ground arith) (sound g) (rw plain at h)
]

any_suffix_self : (p : Bytes → Bool) (m : Bytes) → p m ≡ true → any_suffix p m ≡ true
any_suffix_self p [] h = h
any_suffix_self p (x ∷ m) h = ground arith

complete : {g m : Bytes} → Matches g m → glob_matches g m ≡ true
unfolding glob_matches
complete done = refl
complete (stop {c} {g} {m} e r) = rw e (any_suffix_self (glob_matches g) m (complete r))
complete (skip {c} {x} {g} {m} e r) = ground (arith, complete r)
complete (same {c} {x} {g} {m} ne e r) = ground (arith, complete r)

-- The matcher accepts a name exactly when the glob, read as above, matches it.
pub glob_matches_iff : (g m : Bytes) → (glob_matches g m ≡ true) ↔ Matches g m
glob_matches_iff g m = (sound g m, complete)
