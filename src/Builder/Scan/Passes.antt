-- ===== src/Builder/Scan/Passes.antt =====
-- The loop over the operators in `validateAll` complains of nothing where the forms are in order and the names
-- are distinct.
use de_pipeline_tool.Prelude.{
  String, true, false, List, [], ◌∷◌, ◌++◌, ◌≡◌, refl, ◌∙◌, eq_iff, arith, All, contains,
  contains-append, IsDistinct, inl, inr, Option-cases, done,
}
use de_pipeline_tool.Builder.Model.{OperatorType, Operator}
use de_pipeline_tool.Builder.Scan.{
  Scan, scan_form, scan_name, scan_type, scan_flags, scan_operator, scan_operators,
}
use de_pipeline_tool.Builder.Scan.Clean.{is_formed, names_of}

scan_form-passes :
    (o : Operator) (w : Scan)
    → is_formed o.form ≡ true
    → scan_form o w ≡ done (record w { objects = w.objects ++ o ∷ [] })
unfolding scan_form
scan_form-passes o w h = elim (Option-cases o.form) [
  | inl e ↦ absurd (ground (arith, h, e))
  | inr (f, e) ↦ ground (arith, h, e)
]

scan_name-passes :
    (o : Operator) (w : Scan)
    → contains w.names o.name ≡ false
    → ((scan_name o w).invalid ≡ w.invalid) × ((scan_name o w).names ≡ w.names ++ o.name ∷ [])
unfolding scan_name
scan_name-passes o w h = ground arith

scan_tail-same :
    (name : String) (type : OperatorType) (w : Scan)
    → ((scan_flags type (scan_type name type w)).invalid ≡ w.invalid)
      × ((scan_flags type (scan_type name type w)).names ≡ w.names)
unfolding scan_flags scan_type
scan_tail-same name type w = ground arith

scan_operator-passes :
    (o : Operator) (w : Scan)
    → is_formed o.form ≡ true
    → contains w.names o.name ≡ false
    → (w' : Scan) × (scan_operator o w ≡ done w')
      × (w'.invalid ≡ w.invalid)
      × (w'.names ≡ w.names ++ o.name ∷ [])
unfolding scan_operator
scan_operator-passes o w formed fresh =
    let w₁ : Scan = record w { objects = w.objects ++ o ∷ [] } in
    let tail = scan_tail-same o.name o.type (scan_name o w₁) in
    let named = scan_name-passes o w₁ fresh in
    (
      scan_flags o.type (scan_type o.name o.type (scan_name o w₁)),
      rw (scan_form-passes o w formed, scan_operator) refl,
      tail.0 ∙ named.0,
      tail.1 ∙ named.1,
    )

-- The names that the loop has still to see are new.
AreNew : List String → List Operator → Type 0
AreNew names os = All (λ o. contains names o.name ≡ false) os

AreNew-snoc :
    (names : List String) (a : String) (os : List Operator)
    → contains (names_of os) a ≡ false
    → AreNew names os
    → AreNew (names ++ a ∷ []) os
unfolding AreNew
AreNew-snoc names a [] h k = tt
AreNew-snoc names a (o ∷ os) h (p, k) = (
  ground (arith, contains-append o.name names (a ∷ []), eq_iff a o.name, eq_iff o.name a),
  AreNew-snoc names a os (ground arith) k,
)

scan_operators-runs :
    (os : List Operator) (w : Scan)
    → All (λ o. is_formed o.form ≡ true) os
    → IsDistinct (names_of os)
    → AreNew w.names os
    → (w' : Scan) × (scan_operators os w ≡ done w') × (w'.invalid ≡ w.invalid)
unfolding scan_operators AreNew
scan_operators-runs [] w f d n = (w, refl, refl)
scan_operators-runs (o ∷ os) w (p, f) (q, d) (r, n) =
    let (w₁, first, same, names) = scan_operator-passes o w p r in
    let new = AreNew-snoc w.names o.name os q n in
    let (w₂, rest, kept) = scan_operators-runs os w₁ f d (rw names new) in
    (w₂, rw (first, scan_operators) rest, kept ∙ same)

nothing_seen : (os : List Operator) → AreNew [] os
unfolding AreNew
nothing_seen [] = tt
nothing_seen (o ∷ os) = (refl, nothing_seen os)

pub scan_operators-passes :
    (os : List Operator) (w : Scan)
    → All (λ o. is_formed o.form ≡ true) os
    → IsDistinct (names_of os)
    → w.names ≡ []
    → (w' : Scan) × (scan_operators os w ≡ done w') × (w'.invalid ≡ w.invalid)
scan_operators-passes os w f d e = scan_operators-runs os w f d (rw e (nothing_seen os))
