-- ===== src/Builder/Model.antt =====
-- The data of the system builder: operators on the canvas (the `stateObjects`), their properties,
-- forms and endpoints, the descriptor that is saved, the browser's cache, and the scope.
use de_pipeline_tool.Prelude.{
  ℕ, String, Bool, List, [], ◌∷◌, Option, none, some, ◌==◌, ◌≡◌, refl, arith, eq_iff, if◌then◌else◌,
}

-- The seven types of the operator library, and any other text.
pub data OperatorType : Type 0 where
  input output parser enrichment mapping binary_input binary_output : OperatorType
  other : String → OperatorType

-- A rule that says how a property is edited and checked.
pub record Validation : Type 0 where
  pub name : String
  pub input_kind : String
  pub list : Bool
  pub regex : Option String
  pub options : Option (List String)
  pub file : Option String

-- The value of a property. An element of a list is `none` where it is `null` or `undefined`: the
-- code asks only whether it is either.
pub data Value : Type 0 where
  absent : Value
  text : String → Value
  items : List (Option String) → Value

pub record Property : Type 0 where
  pub name : String
  pub kind : String
  pub value : Value
  pub required : Bool
  pub file_name : Option String
  pub filename_field : Option String
  pub validation : Option Validation

-- One entry of a form: `$invalid`, and `filenameField` where it is set.
pub record Field : Type 0 where
  pub invalid : Bool
  pub filename_invalid : Option Bool

pub record Form : Type 0 where
  pub invalid : Bool
  pub operator_name_invalid : Bool
  pub fields : List (String × Field)

-- A connection holds the `uuid` attribute of the target endpoint, which is a text.
pub record Connection : Type 0 where
  pub uuid : String

pub record Source : Type 0 where
  pub uuid : ℕ
  pub connections : Option (List Connection)

pub record Target : Type 0 where
  pub uuid : ℕ

-- An operator, in the library or on the canvas. `ref` is the identity of the object, by which
-- `===` and `indexOf` compare it.
pub record Operator : Type 0 where
  pub ref : ℕ
  pub name : String
  pub class_name : String
  pub type : OperatorType
  pub properties : List Property
  pub sources : Option (List Source)
  pub targets : Option (List Target)
  pub form : Option Form
  pub x : ℕ
  pub y : ℕ

-- A property in the descriptor: text, list of texts, or the name of a file.
pub data Setting : Type 0 where
  plain : String → Setting
  many : List (Option String) → Setting
  file : Option String → Setting

pub record OperatorJson : Type 0 where
  pub name : String
  pub class_name : String
  pub properties : List (String × Setting)

pub record FileJson : Type 0 where
  pub filename : Option String
  pub filename_field : Option String
  pub bytes : Value

pub record Stream : Type 0 where
  pub name : String
  pub source : String
  pub sinks : List String

-- `jsonConfig.systemDescriptor`. `state` is written by `JSON.stringify`: the objects themselves.
pub record Descriptor : Type 0 where
  pub state : List Operator
  pub name : String
  pub id : Option String
  pub operators : List OperatorJson
  pub streams : List Stream
  pub operator_files : List (String × List (String × FileJson))

-- An entry of `$scope.invalid`: a text, or an operator with the fields that are wrong.
pub data Complaint : Type 0 where
  message : String → Complaint
  fields : String → List String → Complaint

-- What `$localStorage` keeps.
pub record Storage : Type 0 where
  pub system_name : String
  pub state_objects : Option (List Operator)
  pub id : Option String
  pub zoomlevel : ℕ
  pub old_zoom : ℕ
  pub online_systems : List (Option String)
  pub saved_operators : Option (List Operator)
  pub last_uuid : ℕ
  pub validations : List Validation
  pub custom_validations : List Validation

pub record Category : Type 0 where
  pub name : String
  pub match_name : Option OperatorType
  pub operators : List Operator

pub record Scope : Type 0 where
  pub build_invalid : Bool
  pub system_name : String
  pub system_names_ids : List (String × Option String)
  pub active_state : Option Operator
  pub id : Option String
  pub online_systems : List (Option String)
  pub zoomlevel : ℕ
  pub old_zoom : ℕ
  pub state_objects : List Operator
  pub descriptor : Option Descriptor
  pub invalid : List Complaint
  pub invalid_text : List String
  pub hide_errors : Bool
  pub operator_list : Option (List Category)
  pub refreshing : Bool
  pub pending_resets : ℕ
  pub sent : List Descriptor
  pub next_ref : ℕ
  pub storage : Storage

-- A key of an object that is used as a map. The keys that every object inherits are left out.
unfoldable pub lookup {ℓ} : {V : Type ℓ} → String → List (String × V) → Option V
lookup key [] = none
lookup key (entry ∷ entries) =
    let further = lookup key entries in if entry.0 == key then some entry.1 else further

-- `object[key] = value`
unfoldable pub insert {ℓ} : {V : Type ℓ} → String → V → List (String × V) → List (String × V)
insert key value [] = (key, value) ∷ []
insert key value (entry ∷ entries) =
    let further = entry ∷ insert key value entries in
    if entry.0 == key then (key, value) ∷ entries else further

-- Behind a write the key has the new value, and every other key the value that it had.
pub lookup-insert {ℓ} :
    {V : Type ℓ} (key other_key : String) (value : V) (object : List (String × V))
    → lookup other_key (insert key value object)
      ≡ (if key == other_key then some value else lookup other_key object)
unfolding lookup insert
lookup-insert key other_key value [] = refl
lookup-insert key other_key value (entry ∷ entries) =
    let later = lookup-insert key other_key value entries in
    ground (arith, eq_iff entry.0 key, eq_iff key other_key, eq_iff entry.0 other_key)
