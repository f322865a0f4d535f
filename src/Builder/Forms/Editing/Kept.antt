-- ===== src/Builder/Forms/Editing/Kept.antt =====
-- `validateForm` keeps the flag of the form in agreement with its entries.
use de_pipeline_tool.Prelude.{
  ℕ, get_elem?, set, String, Bool, false, List, Option, none, some, ◌≡◌, ◌⊎◌, refl, sym, ap, ◌∙◌,
  inl, inr, ◌⁺◌, to_string, arith, Option-cases, Outcome, done, thrown,
}
use de_pipeline_tool.Builder.Model.{
  Property, Value, absent, text, items, Validation, Field, Form, lookup,
}
use de_pipeline_tool.Builder.Forms.Editing.{
  Engine, EditKind, filename_field, list_item, file, other_kind, differs, has_changed, settle_entry,
  content_of, file_invalid, file_name_found, edit_filename, edit_file, edit_content, edit_value,
  edit_property, validate_form, judge, element_of,
}
use de_pipeline_tool.Builder.Forms.Editing.Agrees.{Agrees}
use de_pipeline_tool.Builder.Forms.Editing.Settled.{
  NoList, check_properties-set, settle_entry-Agrees,
}

Value-cases :
    (v : Value)
    → ((v ≡ absent) ⊎ ((xs : List (Option String)) × (v ≡ items xs)))
      ⊎ ((s : String) × (v ≡ text s))
Value-cases absent = inl (inl refl)
Value-cases (items xs) = inl (inr (xs, refl))
Value-cases (text s) = inr (s, refl)

thrown-ne-done {ℓ κ} : {S : Type ℓ} {A : Type κ} {a b : S} → thrown a ≡ done b → A
thrown-ne-done h = cc

not_differs : (a b : Bool) → differs (some a) b ≡ false → b ≡ a
unfolding differs
not_differs a b h = ground arith

not_changed : (a : Bool) (f : Field) → has_changed (some a) f ≡ false → f.invalid ≡ a
unfolding has_changed differs
not_changed a f h = ground arith

module _ (form form' : Form) (ps ps' : List Property) (agrees : Agrees form ps) where
  edit_filename-Agrees :
      (p : Property) → edit_filename p form ps ≡ done (form', ps') → Agrees form' ps'
  unfolding edit_filename
  edit_filename-Agrees p h = elim (Option-cases (lookup p.name form.fields)) [
    | inl e ↦ thrown-ne-done (rw (e, edit_filename) at h)
    | inr (f, e) ↦
        settle_entry-Agrees p.name f (record f { filename_invalid = _ }) f.filename_invalid form
          form' ps ps ps' e (λ k. refl) (λ b. refl) agrees (rw (e, edit_filename) at h)
  ]

  edit_value-Agrees :
      (engine : Engine) (key : String) (value : Value) (p : Property)
      → edit_value engine key value p form ps ≡ done (form', ps')
      → Agrees form' ps'
  unfolding edit_value
  edit_value-Agrees engine key value p h = elim (Option-cases (lookup key form.fields)) [
    | inl e ↦ thrown-ne-done (rw (e, edit_value) at h)
    | inr (f, e) ↦ elim (Option-cases (judge engine p.validation p.required value)) [
      | inl j ↦ thrown-ne-done (rw (e, j, edit_value) at h)
      | inr (wrong, j) ↦
          settle_entry-Agrees key f (record f { invalid = wrong }) (some f.invalid) form form' ps ps
            ps' e (not_changed f.invalid (record f { invalid = wrong })) (λ b. refl) agrees
            (rw (e, j, edit_value) at h)
    ]
  ]

  -- The branches of the edit of a file, by what they look at.
  abbrev written :
      ℕ → Property → String → Field → Option Validation → Outcome (Form × List Property)
  written i p s f none = thrown (form, set ps i (record p { value = text (content_of s) }))
  written i p s f (some v) =
      settle_entry p.name (some f.invalid)
        (record f { invalid = file_invalid (text (content_of s)) (file_name_found v p) }) form
        (set ps i (record p { value = text (content_of s) }))

  abbrev by_value : ℕ → Property → Field → Value → Outcome (Form × List Property)
  by_value i p f absent = thrown (form, ps)
  by_value i p f (items xs) = thrown (form, ps)
  by_value i p f (text s) = edit_content i p s f form ps

  abbrev looked_up : ℕ → Property → Option Field → Outcome (Form × List Property)
  looked_up i p none = thrown (form, ps)
  looked_up i p (some f) = by_value i p f p.value

  edit_content-Agrees :
      (i : ℕ) (p : Property) (s : String) (f : Field)
      → get_elem? ps i ≡ some p
      → NoList p
      → lookup p.name form.fields ≡ some f
      → edit_content i p s f form ps ≡ done (form', ps')
      → Agrees form' ps'
  unfolding edit_content
  edit_content-Agrees i p s f at_i plain found h = elim (Option-cases p.validation) [
    | inl e ↦ thrown-ne-done (rw (e, edit_content) at h)
    | inr (v, e) ↦
        let wrong = file_invalid (text (content_of s)) (file_name_found v p) in
        settle_entry-Agrees p.name f (record f { invalid = wrong }) (some f.invalid) form form'
          (set ps i (record p { value = text (content_of s) })) ps ps' found
          (not_changed f.invalid (record f { invalid = wrong }))
          (λ b. check_properties-set form.fields ps i p (text (content_of s)) b at_i plain) agrees
          (sym (ap (written i p s f) e) ∙ h)
  ]

  edit_file-Agrees :
      (i : ℕ) (p : Property)
      → get_elem? ps i ≡ some p
      → NoList p
      → edit_file i p form ps ≡ done (form', ps')
      → Agrees form' ps'
  unfolding edit_file
  edit_file-Agrees i p at_i plain h = elim (Option-cases (lookup p.name form.fields)) [
    | inl e ↦ thrown-ne-done (rw (e, edit_file) at h)
    | inr (f, e) ↦ elim (Value-cases p.value) [
      | inl (inl v) ↦ thrown-ne-done (rw (e, v, edit_file) at h)
      | inl (inr (xs, v)) ↦ thrown-ne-done (rw (e, v, edit_file) at h)
      | inr (s, v) ↦
          edit_content-Agrees i p s f at_i plain e
            (sym (ap (looked_up i p) e ∙ ap (by_value i p f) v) ∙ h)
    ]
  ]

  edit_property-Agrees :
      (engine : Engine) (kind : EditKind) (i j : ℕ) (p : Property)
      → get_elem? ps i ≡ some p
      → (kind ≡ file → NoList p)
      → edit_property engine kind i j p form ps ≡ done (form', ps')
      → Agrees form' ps'
  unfolding edit_property
  edit_property-Agrees engine filename_field i j p e plain h = edit_filename-Agrees p h
  edit_property-Agrees engine file i j p e plain h = edit_file-Agrees i p e (plain refl) h
  edit_property-Agrees engine other_kind i j p e plain h =
      edit_value-Agrees engine p.name p.value p h
  edit_property-Agrees engine list_item i j p e plain h =
      elim (Option-cases (element_of p.value j)) [
        | inl v ↦ thrown-ne-done (rw (v, edit_property) at h)
        | inr (value, v) ↦
            edit_value-Agrees engine (p.name ⁺ to_string j) value p (rw (v, edit_property) at h)
      ]

  -- If `validateState` would leave the form as it is, and `validateForm` returns, then this is so again: the
  -- flag that tells whether the operator is in order is up to date behind an edit that `validateForm` takes. A
  -- file must stand in a property that is no list. (`addToList` and `removeFromList` do not judge the form.)
  pub validate_form-Agrees :
      (engine : Engine) (kind : EditKind) (i j : ℕ)
      → (kind ≡ file → (p : Property) → get_elem? ps i ≡ some p → NoList p)
      → validate_form engine kind i j form ps ≡ done (form', ps')
      → Agrees form' ps'
  unfolding validate_form
  validate_form-Agrees engine kind i j plain h = elim (Option-cases (get_elem? ps i)) [
    | inl e ↦ thrown-ne-done (rw (e, validate_form) at h)
    | inr (p, e) ↦
        edit_property-Agrees engine kind i j p e (λ k. plain k p e) (rw (e, validate_form) at h)
  ]
