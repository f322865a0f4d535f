-- ===== src/Builder/Json.antt =====
-- `updateJSON` of system-builder.controller.js: the descriptor is written anew from the operators
-- on the canvas. A property that has a value and no validation makes it throw.
pub mod Returns
pub mod Settings
pub mod Pictured
use de_pipeline_tool.Prelude.{
  String, Bool, true, false, List, [], ◌∷◌, ◌++◌, Option, none, some, ◌==◌, not, if◌then◌else◌,
  or_nil, ◌⁺◌, Outcome, done, thrown,
}
use de_pipeline_tool.Builder.Model.{
  Operator, Property, Value, absent, text, items, Validation, Setting, plain, many, file,
  OperatorJson, FileJson, Scope, lookup, insert,
}

-- `if (property.value && …)`
unfoldable pub is_set : Value → Bool
is_set absent = false
is_set (text s) = not (s == "")
is_set (items xs) = true

-- `toString` of a list: its elements with commas between, a missing one as the empty text.
unfoldable pub joined : List (Option String) → String
joined [] = ""
joined (x ∷ []) = or_nil x ""
joined (x ∷ y ∷ xs) = or_nil x "" ⁺ "," ⁺ joined (y ∷ xs)

unfoldable pub value_text : Value → String
value_text absent = ""
value_text (text s) = s
value_text (items xs) = joined xs

-- A value as it is: what a list-valued property writes.
abbrev pub as_is : Value → Setting
as_is absent = many []
as_is (text s) = plain s
as_is (items xs) = many xs

-- The properties of the operator that is being written, and `operatorFiles` so far.
pub record Writing : Type 0 where
  pub settings : List (String × Setting)
  pub files : List (String × List (String × FileJson))

abbrev add_file :
    String
    → Property
    → List (String × List (String × FileJson))
    → List (String × List (String × FileJson))
add_file operator p files =
    insert operator
      (insert p.name
        (record { filename = p.file_name; filename_field = p.filename_field; bytes = p.value })
        (or_nil (lookup operator files) []))
      files

-- The three branches for a property with a value, by its validation.
unfoldable pub write_as : String → Property → Validation → Writing → Writing
write_as operator p v w =
    if v.input_kind == "fileInput"
    then record {
      settings = insert p.name (file p.file_name) w.settings;
      files = add_file operator p w.files;
    }
    else if v.list
    then record w { settings = insert p.name (as_is p.value) w.settings }
    else record w { settings = insert p.name (plain (value_text p.value)) w.settings }

unfoldable pub write_property : String → Property → Writing → Option Writing
write_property operator p w =
    if is_set p.value
    then elim p.validation [ none ↦ none | some v ↦ some (write_as operator p v w) ]
    else some w

unfoldable pub write_properties : String → List Property → Writing → Option Writing
write_properties operator [] w = some w
write_properties operator (p ∷ ps) w = elim (write_property operator p w) [
  | none ↦ none
  | some w' ↦ write_properties operator ps w'
]

abbrev operator_json : Operator → Writing → OperatorJson
operator_json o w = record { name = o.name; class_name = o.class_name; properties = w.settings }

pub record Written : Type 0 where
  pub operators : List OperatorJson
  pub files : List (String × List (String × FileJson))

-- The loop over the operators. A throw keeps what was pushed before it.
unfoldable pub write_operators : List Operator → Written → Outcome Written
write_operators [] w = done w
write_operators (o ∷ os) w =
    elim (write_properties o.name o.properties (record { settings = []; files = w.files })) [
      | none ↦ thrown w
      | some done_with ↦ write_operators os (record {
        operators = w.operators ++ operator_json o done_with ∷ [];
        files = done_with.files;
      })
    ]

abbrev pub with_written :
    Scope → List OperatorJson → List (String × List (String × FileJson)) → Scope
with_written s operators files = record s {
  descriptor = some (record {
    state = s.state_objects;
    name = s.system_name;
    id = s.id;
    operators = operators;
    streams = [];
    operator_files = files;
  });
}

-- `operatorFiles` is assigned after the loop, so a throw leaves the empty object.
unfoldable pub finish_json : Scope → Outcome Written → Outcome Scope
finish_json s (done w) = done (with_written s w.operators w.files)
finish_json s (thrown w) = thrown (with_written s w.operators [])

unfoldable pub update_json : Scope → Outcome Scope
update_json s =
    finish_json s (write_operators s.state_objects (record { operators = []; files = [] }))
