-- ===== src/Drawing/Lines/Members.antt =====
-- Membership in the lists of targets.
use de_pipeline_tool.Prelude.{
  ℕ, true, false, List, [], ◌∷◌, ◌++◌, ◌≡◌, refl, inl, inr, ◌⊎◌, Bool-cases, eqb, arith,
  if◌then◌else◌,
}
use de_pipeline_tool.Drawing.Lines.{is_in, without}

pub is_in-snoc :
    (u t : ℕ) (xs : List ℕ) → is_in u (xs ++ t ∷ []) ≡ (if eqb u t then true else is_in u xs)
is_in-snoc u t [] = refl
is_in-snoc u t (x ∷ xs) = ground (arith, is_in-snoc u t xs)

pub is_in-without :
    (u t : ℕ) (xs : List ℕ) → is_in u (without t xs) ≡ (if eqb u t then false else is_in u xs)
is_in-without u t [] = ground arith
is_in-without u t (x ∷ xs) = ground (arith, is_in-without u t xs)

pub eqb-cases : (u t : ℕ) → (u ≡ t) ⊎ (eqb u t ≡ false)
eqb-cases u t = elim (Bool-cases (eqb u t)) [ inl e ↦ inl (ground arith) | inr n ↦ inr n ]

pub eqb_refl : (u : ℕ) → eqb u u ≡ true
eqb_refl u = ground arith

pub mounted_more : (u t : ℕ) (ts : List ℕ) → is_in u ts ≡ true → is_in u (t ∷ ts) ≡ true
mounted_more u t ts h = ground arith
