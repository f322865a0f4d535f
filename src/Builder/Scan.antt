-- ===== src/Builder/Scan.antt =====
-- The first half of `validateAll` of system-builder.controller.js: the name of the system, and the
-- loop over the operators on the canvas.
pub mod Lists
pub mod Clean
pub mod Keys
pub mod Passes
use Prim.Native.String
use de_pipeline_tool.Prelude.{
  ℕ, suc, zero, ◌+◌, ◌<◌, length, String, Bool, true, false, not, ◌&&◌, ◌||◌, List, [], ◌∷◌, ◌++◌,
  Option, none, some, ◌==◌, if◌then◌else◌, ◌⁺◌, codes, contains, remove, leb, eqb, is_some, Outcome,
  done, thrown,
}
use de_pipeline_tool.Builder.Model.{
  OperatorType, input, output, parser, enrichment, mapping, binary_input, binary_output, other,
  Operator, Form, Complaint, message, fields, Stream, Scope, lookup, insert,
}
use de_pipeline_tool.Builder.Forms.{validate_state, is_nonempty}

-- /^[A-Za-z0-9-_]+$/
unfoldable pub is_name_code : ℕ → Bool
is_name_code c =
    leb b'A' c && leb c b'Z'
    || leb b'a' c && leb c b'z'
    || leb b'0' c && leb c b'9'
    || eqb c b'-'
    || eqb c b'_'

unfoldable pub all_name_codes : List ℕ → Bool
all_name_codes [] = true
all_name_codes (c ∷ cs) = is_name_code c && all_name_codes cs

unfoldable pub is_system_name : String → Bool
is_system_name s = is_nonempty (codes s) && all_name_codes (codes s)

-- `ids[name] === _id`, where a missing id and `null` are both `none`.
abbrev pub is_id : Option String → Option String → Bool
is_id none none = true
is_id (some id) (some owner) = owner == id
is_id _ _ = false

-- The name belongs to another system: `hasOwnProperty(name) && ids[name] !== _id`.
unfoldable pub is_taken : List (String × Option String) → String → Option String → Bool
is_taken ids name id = elim (lookup name ids) [ none ↦ false | some owner ↦ not (is_id id owner) ]

unfoldable pub name_complaints : Scope → List Complaint
name_complaints s =
    (if is_system_name s.system_name
      then []
      else message
          "System name does not conform to style guidelines (only alpha-numeric characters, dashes, and underscores allowed)"
        ∷ [])
    ++ (if is_taken s.system_names_ids s.system_name s.id
        then message "System name is not unique" ∷ []
        else [])

pub record Entry : Type 0 where
  pub type : OperatorType
  pub index : ℕ

-- The local variables of the loop over the operators. The flags say that `noInput`, `noParser` and
-- `noOutput` still hold their texts; `objects` are the operators behind the loop.
pub record Scan : Type 0 where
  pub invalid : List Complaint
  pub names : List String
  pub table : List (String × Entry)
  pub inputs : List String
  pub outputs : List String
  pub middle : List String
  pub no_input : Bool
  pub no_parser : Bool
  pub no_output : Bool
  pub has_binary_input : Bool
  pub index : ℕ
  pub objects : List Operator

abbrev pub is_input : OperatorType → Bool
is_input input = true
is_input binary_input = true
is_input _ = false

abbrev pub is_output : OperatorType → Bool
is_output output = true
is_output binary_output = true
is_output _ = false

abbrev pub is_parser : OperatorType → Bool
is_parser parser = true
is_parser _ = false

abbrev pub is_binary_input : OperatorType → Bool
is_binary_input binary_input = true
is_binary_input _ = false

-- `validateState` has run on an operator whose form is invalid: the operator and the fields that are
-- wrong now are a complaint.
unfoldable pub scan_invalid : Operator → Outcome (Form × List String) → Scan → Outcome Scan
scan_invalid o (done (f, keys)) w = done (record w {
  invalid = w.invalid ++ fields o.name keys ∷ [];
  objects = w.objects ++ record o { form = some f } ∷ [];
})
scan_invalid o (thrown (f, keys)) w =
    thrown (record w { objects = w.objects ++ record o { form = some f } ∷ [] })

-- The first test of the loop's body: the form of the operator.
unfoldable pub scan_form : Operator → Scan → Outcome Scan
scan_form o w = elim o.form [
  | none ↦ done (record w {
    invalid = w.invalid ++ message "[object Object] is undefined" ∷ [];
    objects = w.objects ++ o ∷ [];
  })
  | some f ↦
      if f.invalid
      then scan_invalid o (validate_state f o.properties) w
      else done (record w { objects = w.objects ++ o ∷ [] })
]

-- The name must be new.
unfoldable pub scan_name : Operator → Scan → Scan
scan_name o w =
    if contains w.names o.name
    then record w {
      invalid =
          w.invalid
          ++ message ("\"" ⁺ o.name ⁺ "\" is being used as two different operator names") ∷ [];
    }
    else record w {
      names = w.names ++ o.name ∷ [];
      table = insert o.name (record { type = o.type; index = w.index }) w.table;
    }

-- The connections that the operator needs: an operator in the middle needs two.
unfoldable pub scan_type : String → OperatorType → Scan → Scan
scan_type name type w =
    if is_input type
    then record w { inputs = w.inputs ++ name ∷ []; no_input = false }
    else if is_output type
    then record w { outputs = w.outputs ++ name ∷ []; no_output = false }
    else record w { middle = w.middle ++ name ∷ name ∷ [] }

unfoldable pub scan_flags : OperatorType → Scan → Scan
scan_flags type w = record w {
  no_parser = if is_parser type then false else w.no_parser;
  has_binary_input = if is_binary_input type then true else w.has_binary_input;
  index = w.index + 1;
}

-- The rest of the body, behind the test of the form.
abbrev pub scan_rest : Operator → Outcome Scan → Outcome Scan
scan_rest o (thrown w) = thrown w
scan_rest o (done w) = done (scan_flags o.type (scan_type o.name o.type (scan_name o w)))

unfoldable pub scan_operator : Operator → Scan → Outcome Scan
scan_operator o w = scan_rest o (scan_form o w)

-- A throw leaves the operators that the loop has not reached as they are.
unfoldable pub scan_operators : List Operator → Scan → Outcome Scan
scan_operators [] w = done w
scan_operators (o ∷ os) w = elim (scan_operator o w) [
  | thrown w' ↦ thrown (record w' { objects = w'.objects ++ os })
  | done w' ↦ scan_operators os w'
]

abbrev pub start : List Complaint → Scan
start invalid = record {
  invalid = invalid;
  names = [];
  table = [];
  inputs = [];
  outputs = [];
  middle = [];
  no_input = true;
  no_parser = true;
  no_output = true;
  has_binary_input = false;
  index = 0;
  objects = [];
}
