-- ===== src/Builder/Forms.antt =====
-- The forms of system-builder.controller.js: `findValidation`, `validateState`, `addToList`,
-- `removeFromList`, and `parseInvalidText`, which words the complaints.
pub mod Ready
pub mod Editing
use de_pipeline_tool.Prelude.{
  ℕ, zero, suc, ◌+◌, length, String, Bool, true, false, List, [], ◌∷◌, ◌++◌, Option, none, some,
  ◌==◌, if◌then◌else◌, ◌⁺◌, to_string, Outcome, done, thrown,
}
use Prim.Native.String
use de_pipeline_tool.Builder.Model.{
  Property, Value, absent, text, items, Validation, Field, Form, Complaint, message, fields, Scope,
  Storage, lookup,
}
use de_pipeline_tool.Builder.Json.{is_set}

-- The first validation of that name; `undefined` where there is none.
unfoldable pub first_named : String → List Validation → Option Validation
first_named kind [] = none
first_named kind (v ∷ vs) =
    let rest = first_named kind vs in if kind == v.name then some v else rest

unfoldable pub find_validation : Storage → String → Option Validation
find_validation st kind = first_named kind (st.validations ++ st.custom_validations)

abbrev pub is_nonempty {ℓ} : {A : Type ℓ} → List A → Bool
is_nonempty [] = false
is_nonempty (x ∷ xs) = true

-- `if (state.form[key].$invalid) invalid.push(key)`, which throws where the form has no such key.
unfoldable pub check_entry : List (String × Field) → String → List String → Outcome (List String)
check_entry fs key bad = elim (lookup key fs) [
  | none ↦ thrown bad
  | some f ↦ done (if f.invalid then bad ++ key ∷ [] else bad)
]

-- The loop over the `left` elements of a list from number `j`.
unfoldable pub check_entries :
    List (String × Field) → String → (j left : ℕ) → List String → Outcome (List String)
check_entries fs name j zero bad = done bad
check_entries fs name j (suc left) bad = elim (check_entry fs (name ⁺ to_string j) bad) [
  | thrown bad' ↦ thrown bad'
  | done bad' ↦ check_entries fs name (j + 1) left bad'
]

-- `value.length`; the length of a text is taken in characters.
abbrev pub value_length : Value → ℕ
value_length absent = 0
value_length (text s) = String.count s
value_length (items xs) = length xs

unfoldable pub check_property :
    List (String × Field) → Property → List String → Outcome (List String)
check_property fs p bad = elim p.validation [
  | none ↦ thrown bad
  | some v ↦
      if v.list
      then if is_set p.value
        then check_entries fs p.name 0 (value_length p.value) bad
        else done (bad ++ (p.name ⁺ "0") ∷ [])
      else check_entry fs p.name bad
]

unfoldable pub check_properties :
    List (String × Field) → List Property → List String → Outcome (List String)
check_properties fs [] bad = done bad
check_properties fs (p ∷ ps) bad = elim (check_property fs p bad) [
  | thrown bad' ↦ thrown bad'
  | done bad' ↦ check_properties fs ps bad'
]

-- `form.$invalid` is cleared first, and set again with every key that is pushed.
abbrev pub flagged : Form → List String → Form × List String
flagged f bad = (record f { invalid = is_nonempty bad }, bad)

abbrev pub flagged_outcome : Form → Outcome (List String) → Outcome (Form × List String)
flagged_outcome f (done bad) = done (flagged f bad)
flagged_outcome f (thrown bad) = thrown (flagged f bad)

unfoldable pub validate_state : Form → List Property → Outcome (Form × List String)
validate_state f ps =
    flagged_outcome f
      (check_properties f.fields ps (if f.operator_name_invalid then "operatorName" ∷ [] else []))

-- `parseInvalidText`
unfoldable pub invalid_fields : String → List String → List String
invalid_fields name [] = []
invalid_fields name (key ∷ keys) = (name ⁺ " has an invalid " ⁺ key) ∷ invalid_fields name keys

-- `invalid[0] || 'Unnamed system'`
abbrev pub named : String → String
named name = if name == "" then "Unnamed system" else name

unfoldable pub complaint_text : Complaint → List String
complaint_text (message m) = m ∷ []
complaint_text (fields name keys) = invalid_fields (named name) keys

unfoldable pub complaint_texts : List Complaint → List String
complaint_texts [] = []
complaint_texts (c ∷ cs) = complaint_text c ++ complaint_texts cs

unfoldable pub parse_invalid_text : Scope → Scope
parse_invalid_text s = record s { invalid_text = complaint_texts s.invalid }

-- `flipError`
unfoldable pub flip_error : Scope → Scope
flip_error s = record s { hide_errors = elim s.hide_errors [ true ↦ false | false ↦ true ] }
