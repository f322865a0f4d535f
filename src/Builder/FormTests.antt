-- ===== src/Builder/FormTests.antt =====
-- Edits of properties on small forms, and the theorems on them there.
use de_pipeline_tool.Prelude.{
  String, true, false, [], ◌∷◌, Option, none, some, ◌≡◌, refl, ◌==◌, index_of, behind, arith,
  is_done, done, if◌then◌else◌, ◌↔◌,
}
use de_pipeline_tool.Builder.Model.{Property, text, items, Validation, Field, Form, lookup}
use de_pipeline_tool.Builder.Forms.{validate_state}
use de_pipeline_tool.Builder.Forms.Editing.{
  Engine, other_kind, validate_form, remove_from_list, content_of, edit_property, edit_value, judge,
  mismatch, unless_empty, read_value, differs, has_changed, settle_entry,
}
use de_pipeline_tool.Builder.Forms.Editing.Agrees.{Agrees}
use de_pipeline_tool.Builder.Forms.Editing.Kept.{validate_form-Agrees}
use de_pipeline_tool.Builder.Forms.Editing.Judged.{Accepts, validate_form-Accepts}
use de_pipeline_tool.Builder.Forms.Editing.Removal.{remove_from_list-thrown}
use de_pipeline_tool.Builder.Samples.{program, string_rule, host, valid_form}

-- A browser whose only pattern is `.+`, on texts without line breaks.
abbrev some_text : String → Option String
some_text s = if s == "" then none else some s

abbrev engine : Engine
engine pattern = if pattern == ".+" then some some_text else none

-- The host is required; emptied, it is wrong, and the flag of the form says so.
abbrev emptied : Property
emptied = record host { value = text "" }

abbrev wrong_form : Form
wrong_form = record valid_form {
  invalid = true;
  fields = ("host", record { invalid = true; filename_invalid = none }) ∷ [];
}

emptied_host :
    validate_form engine other_kind 0 0 valid_form (emptied ∷ []) ≡ done (wrong_form, emptied ∷ [])
unfolding program validate_form edit_property edit_value judge mismatch unless_empty read_value
    differs has_changed settle_entry
emptied_host = refl

content_of_file : content_of "data:text/plain;base64,QUJD" ≡ "QUJD"
unfolding content_of index_of behind
content_of_file = refl

valid-Agrees : Agrees valid_form (emptied ∷ [])
unfolding program
valid-Agrees = ([], refl)

validate_form-Agrees_example : Agrees wrong_form (emptied ∷ [])
validate_form-Agrees_example =
    validate_form-Agrees valid_form wrong_form (emptied ∷ []) (emptied ∷ []) valid-Agrees engine
      other_kind 0 0 (λ k p e. cc) emptied_host

validate_form-Accepts_example :
    (form' : Form) × (validate_form engine other_kind 0 0 valid_form (host ∷ [])
      ≡ done (form', host ∷ []))
    × ((f' : Field) × (lookup "host" form'.fields ≡ some f')
        × ((f'.invalid ≡ false) ↔ Accepts some_text true "localhost"))
    × ((key : String)
        → ("host" == key) ≡ false
        → lookup key form'.fields ≡ lookup key valid_form.fields)
unfolding lookup
validate_form-Accepts_example =
    validate_form-Accepts engine some_text 0 0 valid_form (host ∷ []) host string_rule "localhost"
      (record { invalid = false; filename_invalid = none }) refl refl refl refl refl (refl, tt)

abbrev list_rule : Validation
list_rule = record string_rule { list = true }

abbrev hosts : Property
hosts = record host {
  value = items (some "a" ∷ some "b" ∷ some "c" ∷ []);
  validation = some list_rule;
}

abbrev right : Field
right = record { invalid = false; filename_invalid = none }

abbrev list_form : Form
list_form = record valid_form {
  fields = ("host0", right) ∷ ("host1", right) ∷ ("host2", right) ∷ [];
}

remove_from_list-thrown_example :
    is_done (
      validate_state
        (remove_from_list hosts 1 list_form)
        (record hosts { value = items (some "a" ∷ some "c" ∷ []) } ∷ []))
    ≡ false
remove_from_list-thrown_example =
    remove_from_list-thrown list_form (hosts ∷ []) hosts list_rule
      (some "a" ∷ some "b" ∷ some "c" ∷ []) 0 1 refl refl refl refl (omega arith)
