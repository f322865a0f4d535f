-- ===== src/Builder/Steps/Edited.antt =====
-- An edit of an operator that is in order returns, and leaves the operator in order.
use de_pipeline_tool.Prelude.{
  ℕ, suc, ◌+◌, ◌<◌, length, get_elem?, set, String, true, false, List, [], ◌∷◌, ◌++◌, Option, none,
  some, ◌==◌, ◌≡◌, refl, sym, ap, ◌∙◌, subst, arith, All, All_mono, is_some, ◌⁺◌, to_string,
  length-set, length-append, done, is_done-eq-done,
}
use de_pipeline_tool.Builder.Model.{Property, Value, text, items, Validation, Field, Form, insert}
use de_pipeline_tool.Builder.Forms.Ready.{
  HasEntry, HasEntries, HasEntries-mono, Covers, Covers-mono, insert-HasEntry,
  validate_state-is_done,
}
use de_pipeline_tool.Builder.Forms.Editing.{
  Engine, list_item, other_kind, element_of, element_text, edit_value, edit_property, validate_form,
  add_to_list,
}
use de_pipeline_tool.Builder.Forms.Editing.Agrees.{Agrees-keys}
use de_pipeline_tool.Builder.Forms.Editing.Removal.{get-set}
use de_pipeline_tool.Builder.Connect.Wiring.{get-All}
use de_pipeline_tool.Builder.Canvas.Dropping.{insert-HasEntry_self}
use de_pipeline_tool.Builder.Steps.Entries.{
  Covers-entry, Covers-text, Covers-entries, Covers-items, HasEntries-at, HasEntries-snoc,
  get-set-length,
}
use de_pipeline_tool.Builder.Steps.Editing.{
  Edit, name_typed, text_typed, element_typed, element_added, edit_form, HasRule, IsEditable,
  StaysCovered, All-set, at_property-found, validate_form-found, replaced, elements_of,
  edit_value-StaysCovered,
}

list_item-found :
    (engine : Engine) (i j : ℕ) (p : Property) (form : Form) (ps : List Property) (value : Value)
    → element_of p.value j ≡ some value
    → edit_property engine list_item i j p form ps
      ≡ edit_value engine (p.name ⁺ to_string j) value p form ps
unfolding edit_property
list_item-found engine i j p form ps value e = rw (e, edit_property) refl

add_to_list-items :
    (p : Property) (form : Form) (xs : List (Option String))
    → p.value ≡ items xs
    → add_to_list p form
      ≡ done (
        record form {
          fields =
              insert
                (p.name ⁺ to_string (length xs))
                (record { invalid = true; filename_invalid = none })
                form.fields;
        },
        record p { value = items (xs ++ some "" ∷ []) },
      )
unfolding add_to_list
add_to_list-items p form xs e = rw e refl

module _ (form : Form) (ps : List Property) (covers : All (Covers form.fields) ps)
    (rules : All (λ p. is_some p.validation ≡ true) ps) where
  -- The name.
  name_typed-StaysCovered : (s : String) → StaysCovered (edit_form (name_typed s) form ps)
  unfolding edit_form
  name_typed-StaysCovered s =
      let form₁ : Form = record form { operator_name_invalid = s == "" } in
      let (r, returns) = is_done-eq-done _ (validate_state-is_done form₁ ps covers) in
      let (keys, same) = Agrees-keys form₁ r.0 ps r.1 returns in
      let fields : form.fields ≡ r.0.fields = sym (ap (λ (g : Form). g.fields) same) in
      (r.0, ps, rw returns refl, subst (λ fs. All (Covers fs) ps) fields covers, rules)

  text_typed-StaysCovered :
      (engine : Engine) (i : ℕ) (s : String)
      → HasRule engine ps i false
      → StaysCovered (edit_form (text_typed engine i s) form ps)
  unfolding edit_form validate_form edit_property
  text_typed-StaysCovered engine i s r =
      let p = r.property in
      let p' : Property = record p { value = text s } in
      let cover = get-All (Covers form.fields) ps i p r.there covers in
      let entry = Covers-entry form.fields p r.rule r.valid r.kind cover in
      let valid = get-All (λ q. is_some q.validation ≡ true) ps i p r.there rules in
      subst StaysCovered
        (sym (
          at_property-found i form ps _ p r.there
          ∙ validate_form-found engine other_kind i 0 form (set ps i p') p'
              (get-set ps i p p' r.there)))
        (edit_value-StaysCovered engine r.exec p.name s p' r.rule form (set ps i p') r.valid
          r.compiled entry
          (All-set (Covers form.fields) ps i p' covers
            (Covers-text form.fields p r.rule s r.valid r.kind entry))
          (All-set (λ q. is_some q.validation ≡ true) ps i p' rules valid))

  element_typed-StaysCovered :
      (engine : Engine) (i j : ℕ) (s : String) (r : HasRule engine ps i true)
      (xs : List (Option String))
      → r.property.value ≡ items xs
      → j < length xs
      → StaysCovered (edit_form (element_typed engine i j s) form ps)
  unfolding edit_form validate_form edit_property element_of element_text
  element_typed-StaysCovered engine i j s r xs value small =
      let p = r.property in
      let ys = set xs j (some s) in
      let p' : Property = record p { value = items ys } in
      let cover = get-All (Covers form.fields) ps i p r.there covers in
      let entries = Covers-entries form.fields p r.rule xs r.valid r.kind value cover in
      let valid = get-All (λ q. is_some q.validation ≡ true) ps i p r.there rules in
      let number : 0 + j ≡ j = omega arith in
      let found : element_of (items ys) j ≡ some (text s) =
        ap (λ o. some (element_text o)) (get-set-length xs j s small) in
      subst StaysCovered
        (sym (
          at_property-found i form ps _ p r.there
          ∙ ap
              (λ w.
                validate_form engine list_item i j form
                  (set ps i (record p { value = items (set (elements_of w) j (some s)) })))
              value
          ∙ validate_form-found engine list_item i j form (set ps i p') p'
              (get-set ps i p p' r.there)
          ∙ list_item-found engine i j p' form (set ps i p') (text s) found))
        (edit_value-StaysCovered engine r.exec (p.name ⁺ to_string j) s p' r.rule form (set ps i p')
          r.valid r.compiled
          (subst (λ k. HasEntry form.fields (p.name ⁺ to_string k)) number
            (HasEntries-at form.fields p.name 0 (length xs) j entries small))
          (All-set (Covers form.fields) ps i p' covers (
            Covers-items form.fields p r.rule ys r.valid r.kind
              (subst (HasEntries form.fields p.name 0) (sym (length-set xs j (some s))) entries)))
          (All-set (λ q. is_some q.validation ≡ true) ps i p' rules valid))

  element_added-StaysCovered :
      (i : ℕ) (p : Property) (v : Validation) (xs : List (Option String))
      → get_elem? ps i ≡ some p
      → p.validation ≡ some v
      → v.list ≡ true
      → p.value ≡ items xs
      → StaysCovered (edit_form (element_added i) form ps)
  unfolding edit_form add_to_list
  element_added-StaysCovered i p v xs there rule kind value =
      let key = p.name ⁺ to_string (length xs) in
      let new : Field = record { invalid = true; filename_invalid = none } in
      let fs = insert key new form.fields in
      let grow =
        λ (a : String) (h : HasEntry form.fields a). insert-HasEntry key a new form.fields h in
      let ys = xs ++ some "" ∷ [] in
      let p' : Property = record p { value = items ys } in
      let cover = get-All (Covers form.fields) ps i p there covers in
      let entries = Covers-entries form.fields p v xs rule kind value cover in
      let valid = get-All (λ q. is_some q.validation ≡ true) ps i p there rules in
      let n : suc (length xs) ≡ length ys = omega (arith, length-append xs (some "" ∷ [])) in
      let number : length xs ≡ 0 + length xs = omega arith in
      let more =
        HasEntries-snoc fs p.name 0 (length xs)
          (HasEntries-mono form.fields fs grow p.name 0 (length xs) entries)
          (subst (λ k. HasEntry fs (p.name ⁺ to_string k)) number
            (insert-HasEntry_self key new form.fields)) in
      (
        record form { fields = fs },
        set ps i p',
        at_property-found i form ps (λ q. replaced i ps (add_to_list q form)) p there
            ∙ ap (replaced i ps) (add_to_list-items p form xs value),
        All-set (Covers fs) ps i p' (All_mono (Covers-mono form.fields fs grow) ps covers)
            (Covers-items fs p v ys rule kind (subst (HasEntries fs p.name 0) n more)),
        All-set (λ q. is_some q.validation ≡ true) ps i p' rules valid,
      )

  pub edit_form-StaysCovered : (e : Edit) → IsEditable e ps → StaysCovered (edit_form e form ps)
  edit_form-StaysCovered (name_typed s) k = name_typed-StaysCovered s
  edit_form-StaysCovered (text_typed engine i s) r = text_typed-StaysCovered engine i s r
  edit_form-StaysCovered (element_typed engine i j s) (r, xs, value, small) =
      element_typed-StaysCovered engine i j s r xs value small
  edit_form-StaysCovered (element_added i) (p, v, xs, there, rule, kind, value) =
      element_added-StaysCovered i p v xs there rule kind value
