-- ===== src/Builder/Forms/Editing/Agrees.antt =====
-- The flag of a form agrees with its entries, and `validateForm` keeps it so.
use de_pipeline_tool.Prelude.{
  ℕ, zero, suc, ◌+◌, String, Bool, List, [], ◌∷◌, ◌++◌, Option, none, some, ◌≡◌, refl, sym, ap, ◌∙◌,
  inl, inr, if◌then◌else◌, ◌⁺◌, to_string, arith, Option-cases, Outcome, done, thrown, state_of,
}
use de_pipeline_tool.Builder.Model.{Property, Field, Form, lookup}
use de_pipeline_tool.Builder.Forms.{
  check_entry, check_entries, check_property, check_properties, validate_state, value_length,
  is_nonempty, flagged_outcome,
}

-- `validateState` finds the form as it is.
abbrev pub Agrees : Form → List Property → Type 0
Agrees form ps = (bad : List String) × (validate_state form ps ≡ done (form, bad))

-- The keys that a validation pushes.
abbrev pub wrong_keys : Form → List Property → Outcome (List String)
wrong_keys f ps =
    check_properties f.fields ps (if f.operator_name_invalid then "operatorName" ∷ [] else [])

pub Agrees-of :
    (f : Form) (ps : List Property) (bad : List String)
    → wrong_keys f ps ≡ done bad
    → f.invalid ≡ is_nonempty bad
    → Agrees f ps
unfolding validate_state
Agrees-of f ps bad e h = (bad, rw (e, ← h) refl)

flagged-done :
    (f f' : Form) (bad : List String) (r : Outcome (List String))
    → flagged_outcome f r ≡ done (f', bad)
    → (r ≡ done bad) × (f' ≡ record f { invalid = is_nonempty bad })
flagged-done f f' bad (done b) h =
    let pair : (record f { invalid = is_nonempty b }, b) ≡ (f', bad) = ap state_of h in
    let same : b ≡ bad = ap (λ r. r.1) pair in
    (ap done same, sym (ap (λ r. r.0) pair) ∙ ap (λ c. record f { invalid = is_nonempty c }) same)
flagged-done f f' bad (thrown b) h = cc

pub Agrees-keys :
    (f f' : Form) (ps : List Property) (bad : List String)
    → validate_state f ps ≡ done (f', bad)
    → (wrong_keys f ps ≡ done bad) × (f' ≡ record f { invalid = is_nonempty bad })
unfolding validate_state
Agrees-keys f f' ps bad h = flagged-done f f' bad (wrong_keys f ps) h

-- Behind `validateState` the flag agrees.
pub validate_state-Agrees :
    (f f' : Form) (ps : List Property) (bad : List String)
    → validate_state f ps ≡ done (f', bad)
    → Agrees f' ps
validate_state-Agrees f f' ps bad h =
    let (keys, same) = Agrees-keys f f' ps bad h in
    rw same (Agrees-of (record f { invalid = is_nonempty bad }) ps bad keys refl)

-- What a validation reads of an entry.
abbrev pub flag_of : Option Field → Option Bool
flag_of none = none
flag_of (some f) = some f.invalid

abbrev pub SameFlags : List (String × Field) → List (String × Field) → Type 0
SameFlags fs fs' = (key : String) → flag_of (lookup key fs) ≡ flag_of (lookup key fs')

by_flag : Option Bool → String → List String → Outcome (List String)
by_flag none key bad = thrown bad
by_flag (some b) key bad = done (if b then bad ++ key ∷ [] else bad)

check_entry-by_flag :
    (fs : List (String × Field)) (key : String) (bad : List String)
    → check_entry fs key bad ≡ by_flag (flag_of (lookup key fs)) key bad
unfolding check_entry by_flag
check_entry-by_flag fs key bad = ground arith

-- The rest of a loop, in two ways that do the same.
pub after_same :
    (r : Outcome (List String)) (f g : List String → Outcome (List String))
    → ((bad : List String) → f bad ≡ g bad)
    → (elim r [ thrown bad ↦ thrown bad | done bad ↦ f bad ])
      ≡ (elim r [ thrown bad ↦ thrown bad | done bad ↦ g bad ])
after_same (done bad) f g h = h bad
after_same (thrown bad) f g h = refl

module _ (fs fs' : List (String × Field)) (same : SameFlags fs fs') where
  check_entry-same :
      (key : String) (bad : List String) → check_entry fs key bad ≡ check_entry fs' key bad
  check_entry-same key bad =
      check_entry-by_flag fs key bad
      ∙ ap (λ o. by_flag o key bad) (same key)
      ∙ sym (check_entry-by_flag fs' key bad)

  check_entries-same :
      (name : String) (j left : ℕ) (bad : List String)
      → check_entries fs name j left bad ≡ check_entries fs' name j left bad
  unfolding check_entries
  check_entries-same name j zero bad = refl
  check_entries-same name j (suc left) bad =
      rw (check_entry-same (name ⁺ to_string j) bad, check_entries)
        (after_same (check_entry fs' (name ⁺ to_string j) bad)
          (λ b. check_entries fs name (j + 1) left b) (λ b. check_entries fs' name (j + 1) left b)
          (λ b. check_entries-same name (j + 1) left b))

  check_property-same :
      (p : Property) (bad : List String) → check_property fs p bad ≡ check_property fs' p bad
  unfolding check_property
  check_property-same p bad = elim (Option-cases p.validation) [
    | inl e ↦ rw e refl
    | inr (v, e) ↦
        rw (e, check_entry-same p.name bad, check_entries-same p.name 0 (value_length p.value) bad)
          refl
  ]

  pub check_properties-same :
      (ps : List Property) (bad : List String)
      → check_properties fs ps bad ≡ check_properties fs' ps bad
  unfolding check_properties
  check_properties-same [] bad = refl
  check_properties-same (p ∷ ps) bad =
      rw (check_property-same p bad, check_properties)
        (after_same (check_property fs' p bad) (λ b. check_properties fs ps b)
          (λ b. check_properties fs' ps b) (λ b. check_properties-same ps b))
