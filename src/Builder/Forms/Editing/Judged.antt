-- ===== src/Builder/Forms/Editing/Judged.antt =====
-- What `validateForm` decides on an edited text.
use de_pipeline_tool.Prelude.{
  ℕ, get_elem?, String, Bool, true, false, not, List, Option, none, some, All, All_mono, ◌≡◌, refl,
  ap, ◌∙◌, ◌⊎◌, ◌↔◌, inl, inr, ◌==◌, eq_iff, eq_refl, arith, or_nil, Bool-cases, done,
  is_done-eq-done,
}
use de_pipeline_tool.Builder.Model.{
  Property, Value, text, Validation, Field, Form, lookup, insert, lookup-insert,
}
use de_pipeline_tool.Builder.Forms.Ready.{
  Covers, Covers-mono, insert-HasEntry, validate_state-is_done,
}
use de_pipeline_tool.Builder.Forms.Editing.{
  Engine, other_kind, has_changed, settle_entry, mismatch, unless_empty, read_value, judge,
  edit_value, edit_property, validate_form,
}
use de_pipeline_tool.Builder.Forms.Editing.Agrees.{Agrees-keys}

-- The pattern matches the text as a whole, or the text is empty and not required.
abbrev pub Accepts : (String → Option String) → Bool → String → Type 0
Accepts exec required s = (exec s ≡ some s) ⊎ ((required ≡ false) × (s ≡ ""))

unless_empty-false :
    (wrong required : Bool) (s : String)
    → (unless_empty wrong required s ≡ false) ↔ ((wrong ≡ false) ⊎ ((required ≡ false) × (s ≡ "")))
unfolding unless_empty
unless_empty-false wrong required s =
    (λ h. ground (arith, eq_iff s ""), λ h. ground (arith, eq_iff s ""))

mismatched : Option String → String → Bool
mismatched none s = true
mismatched (some m) s = not (m == s)

mismatch-text : (o : Option String) (s : String) → mismatch o (text s) ≡ some (mismatched o s)
unfolding mismatch mismatched read_value
mismatch-text none s = refl
mismatch-text (some m) s = refl

mismatched-false : (o : Option String) (s : String) → (mismatched o s ≡ false) ↔ (o ≡ some s)
unfolding mismatched
mismatched-false none s = (λ h. cc, λ h. cc)
mismatched-false (some m) s = (
  λ h. ap some ((eq_iff m s).0 (ground arith)),
  λ h. (let same : m ≡ s = cc in rw (same, eq_refl s) refl),
)

pub judge-Accepts :
    (engine : Engine) (exec : String → Option String) (v : Validation) (required : Bool)
    (s : String)
    → engine (or_nil v.regex "(?:)") ≡ some exec
    → (wrong : Bool) × (judge engine (some v) required (text s) ≡ some wrong)
      × ((wrong ≡ false) ↔ Accepts exec required s)
unfolding judge read_value
judge-Accepts engine exec v required s e =
    let wrong = mismatched (exec s) s in
    let (off, on) = unless_empty-false wrong required s in
    let (matches, matched) = mismatched-false (exec s) s in
    (
      unless_empty wrong required s,
      rw (e, mismatch-text (exec s) s, judge) refl,
      (
        λ h. elim (off h) [ inl w ↦ inl (matches w) | inr r ↦ inr r ],
        λ h. elim h [ inl m ↦ on (inl (matched m)) | inr r ↦ on (inr r) ],
      ),
    )

-- An entry is written, whether the form is validated behind it or not.
pub settle_entry-returns :
    (key : String) (pre : Option Bool) (f : Field) (form : Form) (ps : List Property)
    → All (Covers form.fields) ps
    → (form' : Form) × (settle_entry key pre f form ps ≡ done (form', ps))
      × (form'.fields ≡ insert key f form.fields)
unfolding settle_entry
settle_entry-returns key pre f form ps covers =
    let form₁ : Form = record form { fields = insert key f form.fields } in
    let covers' =
      All_mono (Covers-mono form.fields form₁.fields (λ a. insert-HasEntry key a f form.fields)) ps
        covers in
    elim (Bool-cases (has_changed pre f)) [
      | inl e ↦
          (let (r, returns) = is_done-eq-done _ (validate_state-is_done form₁ ps covers') in
            let (keys, same) = Agrees-keys form₁ r.0 ps r.1 returns in
            (r.0, rw (e, returns) refl, ap (λ g. g.fields) same))
      | inr e ↦ (form₁, rw e refl, refl)
    ]

pub edit_value-settled :
    (engine : Engine) (key : String) (value : Value) (p : Property) (f : Field) (wrong : Bool)
    (form : Form) (ps : List Property)
    → lookup key form.fields ≡ some f
    → judge engine p.validation p.required value ≡ some wrong
    → edit_value engine key value p form ps
      ≡ settle_entry key (some f.invalid) (record f { invalid = wrong }) form ps
unfolding edit_value
edit_value-settled engine key value p f wrong form ps found judged =
    rw (found, judged, edit_value) refl

-- An edit of a text whose pattern is a regular expression returns. It leaves the properties and all entries
-- but that of the property as they were, and marks this one as in order exactly if the pattern matches
-- the text as a whole or the text is empty and not required.
pub validate_form-Accepts :
    (engine : Engine) (exec : String → Option String) (i j : ℕ) (form : Form) (ps : List Property)
    (p : Property) (v : Validation) (s : String) (f : Field)
    → get_elem? ps i ≡ some p
    → p.validation ≡ some v
    → p.value ≡ text s
    → engine (or_nil v.regex "(?:)") ≡ some exec
    → lookup p.name form.fields ≡ some f
    → All (Covers form.fields) ps
    → (form' : Form) × (validate_form engine other_kind i j form ps ≡ done (form', ps))
      × ((f' : Field) × (lookup p.name form'.fields ≡ some f')
          × ((f'.invalid ≡ false) ↔ Accepts exec p.required s))
      × ((key : String)
          → (p.name == key) ≡ false
          → lookup key form'.fields ≡ lookup key form.fields)
unfolding validate_form edit_property
validate_form-Accepts engine exec i j form ps p v s f at_i valid value compiled found covers =
    let (wrong, judged, accepted) = judge-Accepts engine exec v p.required s compiled in
    let judged' : judge engine p.validation p.required p.value ≡ some wrong =
      ap (λ o. judge engine o p.required p.value) valid
      ∙ ap (judge engine (some v) p.required) value
      ∙ judged in
    let f' : Field = record f { invalid = wrong } in
    let (form', returns, written) =
      settle_entry-returns p.name (some f.invalid) f' form ps covers in
    (
      form',
      rw (at_i, validate_form)
          (edit_value-settled engine p.name p.value p f wrong form ps found judged' ∙ returns),
      (f', rw (written, lookup-insert p.name p.name f' form.fields, eq_refl p.name) refl, accepted),
      λ key other. rw (written, lookup-insert p.name key f' form.fields, other) refl,
    )
