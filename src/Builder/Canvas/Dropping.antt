-- ===== src/Builder/Canvas/Dropping.antt =====
-- `drop` gives every property its validation and an entry in the form: the new operator is ready.
use de_pipeline_tool.Prelude.{
  ℕ, ◌+◌, length, String, Bool, true, List, [], ◌∷◌, Option, some, ◌≡◌, refl, ◌∙◌, subst, arith,
  ◌==◌, ◌⁺◌, to_string, eq_refl, All, is_some, inl, inr, Bool-cases, Option-cases, length-replicate,
}
use de_pipeline_tool.Builder.Model.{
  Property, Value, absent, text, items, Validation, Field, Storage, insert, lookup-insert,
}
use de_pipeline_tool.Builder.Json.{is_set}
use de_pipeline_tool.Builder.Forms.{find_validation, value_length}
use de_pipeline_tool.Builder.Forms.Ready.{
  HasEntry, HasEntries, CoversAs, Covers, insert-HasEntry, CoversAs-mono,
}
use de_pipeline_tool.Builder.Canvas.{
  element_fields, elements, is_present, property_fields, drop_properties,
}

pub insert-HasEntry_self :
    (key : String) (f : Field) (fs : List (String × Field)) → HasEntry (insert key f fs) key
insert-HasEntry_self key f fs = ground (arith, lookup-insert key key f fs, eq_refl key)

element_fields_grow :
    (name : String) (required : Bool) (j : ℕ) (xs : List (Option String))
    (fs : List (String × Field)) (a : String)
    → HasEntry fs a
    → HasEntry (element_fields name required j xs fs) a
unfolding element_fields
element_fields_grow name required j [] fs a h = h
element_fields_grow name required j (x ∷ xs) fs a h =
    element_fields_grow name required (j + 1) xs _ a (insert-HasEntry _ a _ fs h)

element_fields-HasEntries :
    (name : String) (required : Bool) (j : ℕ) (xs : List (Option String))
    (fs : List (String × Field))
    → HasEntries (element_fields name required j xs fs) name j (length xs)
unfolding element_fields
element_fields-HasEntries name required j [] fs = tt
element_fields-HasEntries name required j (x ∷ xs) fs = (
  element_fields_grow name required (j + 1) xs _ (name ⁺ to_string j)
      (insert-HasEntry_self (name ⁺ to_string j) _ fs),
  element_fields-HasEntries name required (j + 1) xs _,
)

elements-length : (v : Value) → length (elements v) ≡ value_length v
elements-length absent = refl
elements-length (text s) = length-replicate _ _
elements-length (items xs) = refl

is_present-is_set : (v : Value) → is_present v ≡ is_set v
unfolding is_set
is_present-is_set absent = refl
is_present-is_set (text s) = ground arith
is_present-is_set (items xs) = refl

-- Entries stay when a property adds its own.
property_fields_grow :
    (p : Property) (v : Validation) (fs : List (String × Field)) (a : String)
    → HasEntry fs a
    → HasEntry (property_fields p v fs) a
unfolding property_fields
property_fields_grow p v fs a h = elim (Bool-cases v.list) [
  | inl l ↦ elim (Bool-cases (is_present p.value)) [
    | inl e ↦ rw (l, e) (element_fields_grow p.name p.required 0 (elements p.value) fs a h)
    | inr e ↦ rw (l, e) (insert-HasEntry _ a _ fs h)
  ]
  | inr l ↦ elim (Bool-cases (v.input_kind == "fileInput")) [
    | inl k ↦ rw (l, k) (insert-HasEntry p.name a _ fs h)
    | inr k ↦ rw (l, k) (insert-HasEntry p.name a _ fs h)
  ]
]

property_fields-Covers :
    (p : Property) (v : Validation) (fs : List (String × Field))
    → CoversAs (property_fields p v fs) p.name (value_length p.value) v.list (is_set p.value)
unfolding property_fields
property_fields-Covers p v fs = elim (Bool-cases v.list) [
  | inl l ↦ elim (Bool-cases (is_set p.value)) [
    | inl e ↦
        let e' : is_present p.value ≡ true = is_present-is_set p.value ∙ e in
        let n = elements-length p.value in
        rw (l, e, e')
          (subst (HasEntries (element_fields p.name p.required 0 (elements p.value) fs) p.name 0) n
            (element_fields-HasEntries p.name p.required 0 (elements p.value) fs))
    | inr e ↦ rw (l, e) tt
  ]
  | inr l ↦ elim (Bool-cases (v.input_kind == "fileInput")) [
    | inl k ↦ rw (l, k) (insert-HasEntry_self p.name _ fs)
    | inr k ↦ rw (l, k) (insert-HasEntry_self p.name _ fs)
  ]
]

-- What the loop over the properties achieves.
pub record Dressed (fs fs' : List (String × Field)) (ps : List Property) : Type 0 where
  pub grows : (a : String) → HasEntry fs a → HasEntry fs' a
  pub validated : All (λ p. is_some p.validation ≡ true) ps
  pub covers : All (Covers fs') ps

pub drop_properties-Dressed :
    (st : Storage) (ps : List Property) (fs : List (String × Field)) (ps' : List Property)
    (fs' : List (String × Field))
    → drop_properties st ps fs ≡ some (ps', fs')
    → Dressed fs fs' ps'
unfolding drop_properties
drop_properties-Dressed st [] fs ps' fs' h =
    let e : [] ≡ ps' = cc in
    let f : fs ≡ fs' = cc in
    rw (← e, ← f) (record { grows = λ a k. k; validated = tt; covers = tt })
drop_properties-Dressed st (p ∷ ps) fs ps' fs' h = elim (Option-cases (find_validation st p.kind)) [
  | inl e ↦ cc
  | inr (v, e) ↦ elim (Option-cases (drop_properties st ps (property_fields p v fs))) [
    | inl f ↦ cc
    | inr ((qs, gs), f) ↦
        let d = drop_properties-Dressed st ps (property_fields p v fs) qs gs f in
        let a : record p { validation = some v } ∷ qs ≡ ps' = ground (arith, h, e, f) in
        let b : gs ≡ fs' = ground (arith, h, e, f) in
        rw (← a, ← b)
          (record {
            grows = λ x k. d.grows x (property_fields_grow p v fs x k);
            validated = (refl, d.validated);
            covers = (
              CoversAs-mono (property_fields p v fs) gs d.grows p.name (value_length p.value) v.list
                  (is_set p.value) (property_fields-Covers p v fs),
              d.covers,
            );
          })
  ]
]
