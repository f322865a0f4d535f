-- ===== src/Builder/Forms/Editing/Settled.antt =====
-- The end of `validateForm`, where an entry is written, and the flag of the form.
use de_pipeline_tool.Prelude.{
  ℕ, zero, suc, get_elem?, set, String, Bool, false, List, [], ◌∷◌, Option, some, ◌≡◌, refl, sym,
  ap, ◌∙◌, subst, inl, inr, ◌==◌, eq_iff, if◌then◌else◌, Bool-cases, Option-cases, Outcome, done,
  thrown, state_of,
}
use de_pipeline_tool.Builder.Model.{
  Property, Value, Validation, Field, Form, lookup, insert, lookup-insert,
}
use de_pipeline_tool.Builder.Forms.{check_property, check_properties, validate_state}
use de_pipeline_tool.Builder.Forms.Editing.{has_changed, settle_entry, with_properties}
use de_pipeline_tool.Builder.Forms.Editing.Agrees.{
  Agrees, Agrees-of, Agrees-keys, validate_state-Agrees, SameFlags, check_properties-same,
  after_same,
}

insert-SameFlags :
    (key : String) (f old : Field) (fs : List (String × Field))
    → lookup key fs ≡ some old
    → f.invalid ≡ old.invalid
    → SameFlags fs (insert key f fs)
insert-SameFlags key f old fs found same k = elim (Bool-cases (key == k)) [
  | inl e ↦ rw (lookup-insert key k f fs, e, ← (eq_iff key k).0 e, found, same) refl
  | inr e ↦ rw (lookup-insert key k f fs, e) refl
]

-- A property that is no list is validated without a look at its value.
abbrev pub NoList : Property → Type 0
NoList p = (v : Validation) → p.validation ≡ some v → v.list ≡ false

check_property-value :
    (fs : List (String × Field)) (p : Property) (value : Value) (bad : List String)
    → NoList p
    → check_property fs (record p { value = value }) bad ≡ check_property fs p bad
unfolding check_property
check_property-value fs p value bad plain = elim (Option-cases p.validation) [
  | inl e ↦ rw e refl
  | inr (v, e) ↦ rw (e, plain v e) refl
]

pub check_properties-set :
    (fs : List (String × Field)) (ps : List Property) (i : ℕ) (p : Property) (value : Value)
    (bad : List String)
    → get_elem? ps i ≡ some p
    → NoList p
    → check_properties fs (set ps i (record p { value = value })) bad ≡ check_properties fs ps bad
unfolding check_properties
check_properties-set fs [] i p value bad e plain = refl
check_properties-set fs (q ∷ ps) zero p value bad e plain =
    let same : q ≡ p = cc in
    rw (check_property-value fs p value bad plain, check_properties)
      (ap
        (λ r. elim (check_property fs r bad) [
          | thrown b ↦ thrown b
          | done b ↦ check_properties fs ps b
        ])
        (sym same))
check_properties-set fs (q ∷ ps) (suc i) p value bad e plain =
    after_same (check_property fs q bad)
      (λ b. check_properties fs (set ps i (record p { value = value })) b)
      (λ b. check_properties fs ps b) (λ b. check_properties-set fs ps i p value b e plain)

with_properties-done :
    (ps ps' : List Property) (form' : Form) (r : Outcome (Form × List String))
    → with_properties ps r ≡ done (form', ps')
    → (bad : List String) × (r ≡ done (form', bad)) × (ps ≡ ps')
with_properties-done ps ps' form' (done (f, bad)) h =
    let pair : (f, ps) ≡ (form', ps') = ap state_of h in
    (bad, ap (λ r. done (r.0, bad)) pair, ap (λ r. r.1) pair)
with_properties-done ps ps' form' (thrown r) h = cc

-- An entry that a validation reads as before.
unchanged-Agrees :
    (key : String) (old f : Field) (form : Form) (ps ps₀ : List Property)
    → lookup key form.fields ≡ some old
    → f.invalid ≡ old.invalid
    → ((bad : List String)
        → check_properties form.fields ps bad ≡ check_properties form.fields ps₀ bad)
    → Agrees form ps₀
    → Agrees (record form { fields = insert key f form.fields }) ps
unchanged-Agrees key old f form ps ps₀ found same alike (bad, h) =
    let (keys, flag) = Agrees-keys form form ps₀ bad h in
    let start = if form.operator_name_invalid then "operatorName" ∷ [] else [] in
    let alike' =
      sym (
        check_properties-same form.fields (insert key f form.fields)
          (insert-SameFlags key f old form.fields found same) ps start)
      ∙ alike start
      ∙ keys in
    Agrees-of (record form { fields = insert key f form.fields }) ps bad alike'
      (ap (λ g. g.invalid) flag)

pub settle_entry-Agrees :
    (key : String) (old f : Field) (pre : Option Bool) (form form' : Form)
    (ps ps₀ ps' : List Property)
    → lookup key form.fields ≡ some old
    → (has_changed pre f ≡ false → f.invalid ≡ old.invalid)
    → ((bad : List String)
        → check_properties form.fields ps bad ≡ check_properties form.fields ps₀ bad)
    → Agrees form ps₀
    → settle_entry key pre f form ps ≡ done (form', ps')
    → Agrees form' ps'
unfolding settle_entry
settle_entry-Agrees key old f pre form form' ps ps₀ ps' found unchanged alike agrees h =
    let form₁ : Form = record form { fields = insert key f form.fields } in
    elim (Bool-cases (has_changed pre f)) [
      | inl e ↦
          (let (bad, returns, same) = with_properties-done ps ps' form' (validate_state form₁ ps) (
              subst
                (λ b.
                  (if b then with_properties ps (validate_state form₁ ps) else done (form₁, ps))
                  ≡ done (form', ps'))
                e h) in
            subst (Agrees form') same (validate_state-Agrees form₁ form' ps bad returns))
      | inr e ↦
          (let pair : (form₁, ps) ≡ (form', ps') = ap state_of (
              subst
                (λ b.
                  (if b then with_properties ps (validate_state form₁ ps) else done (form₁, ps))
                  ≡ done (form', ps'))
                e h) in
            subst (λ r. Agrees r.0 r.1) pair
              (unchanged-Agrees key old f form ps ps₀ found (unchanged e) alike agrees))
    ]
