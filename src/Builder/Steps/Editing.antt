-- ===== src/Builder/Steps/Editing.antt =====
-- What the page of an operator's details does (system-builder/operator-details.html): it writes the name or
-- a value of the operator, and calls the handler of that input.
use de_pipeline_tool.Prelude.{
  ℕ, zero, suc, ◌<◌, length, get_elem?, set, String, Bool, true, false, List, [], ◌∷◌, Option, none,
  some, ◌==◌, ◌≡◌, refl, sym, ap, ◌∙◌, subst, arith, or_nil, eqb, if◌then◌else◌, All, All_mono,
  is_some, inl, inr, Option-cases, Outcome, done, thrown,
}
use de_pipeline_tool.Builder.Model.{
  Property, Value, text, items, Validation, Field, Form, Operator, lookup,
}
use de_pipeline_tool.Builder.Forms.{validate_state}
use de_pipeline_tool.Builder.Forms.Ready.{HasEntry, Covers, Covers-mono, insert-HasEntry}
use de_pipeline_tool.Builder.Forms.Editing.{
  Engine, EditKind, list_item, other_kind, with_properties, judge, edit_value, edit_property,
  validate_form, add_to_list,
}
use de_pipeline_tool.Builder.Forms.Editing.Judged.{
  settle_entry-returns, judge-Accepts, edit_value-settled,
}

-- What is typed or added: the name, the text of a property, an element of a list.
pub data Edit : Type 0 where
  name_typed : String → Edit
  text_typed : Engine → (i : ℕ) → String → Edit
  element_typed : Engine → (i j : ℕ) → String → Edit
  element_added : (i : ℕ) → Edit

abbrev pub replaced : ℕ → List Property → Outcome (Form × Property) → Outcome (Form × List Property)
replaced i ps (done (form, p)) = done (form, set ps i p)
replaced i ps (thrown (form, p)) = thrown (form, set ps i p)

abbrev pub elements_of : Value → List (Option String)
elements_of (items xs) = xs
elements_of _ = []

abbrev pub at_property :
    ℕ
    → Form
    → List Property
    → (Property → Outcome (Form × List Property))
    → Outcome (Form × List Property)
at_property i form ps f = elim (get_elem? ps i) [ none ↦ thrown (form, ps) | some p ↦ f p ]

unfoldable pub edit_form : Edit → Form → List Property → Outcome (Form × List Property)
edit_form (name_typed s) form ps =
    with_properties ps (validate_state (record form { operator_name_invalid = s == "" }) ps)
edit_form (text_typed engine i s) form ps =
    at_property i form ps
      λ p. validate_form engine other_kind i 0 form (set ps i (record p { value = text s }))
edit_form (element_typed engine i j s) form ps = at_property i form ps λ p.
    validate_form engine list_item i j form
      (set ps i (record p { value = items (set (elements_of p.value) j (some s)) }))
edit_form (element_added i) form ps = at_property i form ps λ p. replaced i ps (add_to_list p form)

abbrev pub edited_name : Edit → String → String
edited_name (name_typed s) name = s
edited_name _ name = name

abbrev pub edited : Operator → Outcome (Form × List Property) → Outcome Operator
edited o (done (form, ps)) = done (record o { form = some form; properties = ps })
edited o (thrown (form, ps)) = thrown (record o { form = some form; properties = ps })

-- Without a form every one of these handlers throws.
unfoldable pub edit_operator : Edit → Operator → Outcome Operator
edit_operator e o = elim o.form [
  | none ↦ thrown o
  | some form ↦ edited (record o { name = edited_name e o.name }) (edit_form e form o.properties)
]

abbrev pub in_place : List Operator → Outcome Operator → Outcome (List Operator)
in_place os (done o) = done (o ∷ os)
in_place os (thrown o) = thrown (o ∷ os)

abbrev pub behind_one : Operator → Outcome (List Operator) → Outcome (List Operator)
behind_one o (done os) = done (o ∷ os)
behind_one o (thrown os) = thrown (o ∷ os)

-- The operator of that identity is edited where it stands.
unfoldable pub edit_at : ℕ → Edit → List Operator → Outcome (List Operator)
edit_at ref e [] = done []
edit_at ref e (o ∷ os) =
    let rest = behind_one o (edit_at ref e os) in
    if eqb o.ref ref then in_place os (edit_operator e o) else rest

-- Property number `i` has a validation, whose pattern is a regular expression.
pub record HasRule (engine : Engine) (ps : List Property) (i : ℕ) (list : Bool) : Type 0 where
  pub property : Property
  pub rule : Validation
  pub exec : String → Option String
  pub there : get_elem? ps i ≡ some property
  pub valid : property.validation ≡ some rule
  pub kind : rule.list ≡ list
  pub compiled : engine (or_nil rule.regex "(?:)") ≡ some exec

-- What the page offers to edit: a text where there is no list, an element of a list that is there, another
-- element at the end of a list.
abbrev pub IsEditable : Edit → List Property → Type 0
IsEditable (name_typed s) ps = Unit
IsEditable (text_typed engine i s) ps = HasRule engine ps i false
IsEditable (element_typed engine i j s) ps =
    (r : HasRule engine ps i true) × (xs : List (Option String)) × (r.property.value ≡ items xs)
    × (j < length xs)
IsEditable (element_added i) ps =
    (p : Property) × (v : Validation) × (xs : List (Option String)) × (get_elem? ps i ≡ some p)
    × (p.validation ≡ some v)
    × (v.list ≡ true)
    × (p.value ≡ items xs)

-- The edit returns, and the form fits the properties again.
abbrev pub StaysCovered : Outcome (Form × List Property) → Type 0
StaysCovered m =
    (form : Form) × (ps : List Property) × (m ≡ done (form, ps))
    × All (Covers form.fields) ps
    × All (λ p. is_some p.validation ≡ true) ps

pub All-set :
    {A : Type 0} (Q : A → Type 0) (xs : List A) (i : ℕ) (a : A)
    → All Q xs
    → Q a
    → All Q (set xs i a)
All-set Q [] i a h q = tt
All-set Q (x ∷ xs) zero a (p, h) q = (q, h)
All-set Q (x ∷ xs) (suc i) a (p, h) q = (p, All-set Q xs i a h q)

pub at_property-found :
    (i : ℕ) (form : Form) (ps : List Property) (f : Property → Outcome (Form × List Property))
    (p : Property)
    → get_elem? ps i ≡ some p
    → at_property i form ps f ≡ f p
at_property-found i form ps f p e = rw (e, at_property) refl

pub validate_form-found :
    (engine : Engine) (kind : EditKind) (i j : ℕ) (form : Form) (ps : List Property) (p : Property)
    → get_elem? ps i ≡ some p
    → validate_form engine kind i j form ps ≡ edit_property engine kind i j p form ps
unfolding validate_form
validate_form-found engine kind i j form ps p e = rw (e, validate_form) refl

-- A value whose entry is there is judged.
pub edit_value-StaysCovered :
    (engine : Engine) (exec : String → Option String) (key s : String) (p : Property)
    (v : Validation) (form : Form) (ps : List Property)
    → p.validation ≡ some v
    → engine (or_nil v.regex "(?:)") ≡ some exec
    → HasEntry form.fields key
    → All (Covers form.fields) ps
    → All (λ q. is_some q.validation ≡ true) ps
    → StaysCovered (edit_value engine key (text s) p form ps)
edit_value-StaysCovered engine exec key s p v form ps valid compiled entry covers rules =
    elim (Option-cases (lookup key form.fields)) [
      | inl e ↦ absurd (ground (arith, entry, e))
      | inr (f, e) ↦
          let (wrong, judged, _) = judge-Accepts engine exec v p.required s compiled in
          let judged' = ap (λ o. judge engine o p.required (text s)) valid ∙ judged in
          let f' : Field = record f { invalid = wrong } in
          let (form', returns, written) =
            settle_entry-returns key (some f.invalid) f' form ps covers in
          (
            form',
            ps,
            edit_value-settled engine key (text s) p f wrong form ps e judged' ∙ returns,
            All_mono
                (Covers-mono form.fields form'.fields (λ a h.
                  subst (λ fs. HasEntry fs a) (sym written)
                    (insert-HasEntry key a f' form.fields h)))
                ps covers,
            rules,
          )
    ]
