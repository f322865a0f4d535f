-- ===== src/Library/Validations.antt =====
-- `$scope.validations` of operator-library.js, the rules that every property may use; the page stores them
-- for the builder. A `null` is `none`.
use de_pipeline_tool.Prelude.{
  String, Bool, true, false, List, [], ◌∷◌, Option, none, some, ◌≡◌, refl,
}
use de_pipeline_tool.Builder.Model.{Validation, Storage}
use de_pipeline_tool.Builder.Forms.{find_validation, first_named}

abbrev base_rule : String → Bool → Option String → Validation
base_rule name list regex = record {
  name = name;
  input_kind = "textInput";
  list = list;
  regex = regex;
  options = none;
  file = none;
}

unfoldable pub base_validations : List Validation
base_validations =
    base_rule "String" false (some ".+")
    ∷ base_rule "Integer" false (some "^\\-?\\d+")
    ∷ base_rule "FloatingPoint" false (some "^\\-?\\d+(\\.\\d+)?")
    ∷ base_rule "StringList" true (some ".+")
    ∷ record (base_rule "File" false none) { input_kind = "fileInput"; file = some "" }
    ∷ []

-- `$localStorage.validations` and `$localStorage.customValidations` when the page starts.
unfoldable pub store_validations : Storage → Storage
store_validations st = record st { validations = base_validations; custom_validations = [] }

-- The builder finds the rule of a list of texts in what the library has stored.
string_list :
    (st : Storage)
    → find_validation (store_validations st) "StringList"
      ≡ some (base_rule "StringList" true (some ".+"))
unfolding find_validation first_named store_validations base_validations
string_list st = refl
