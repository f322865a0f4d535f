-- ===== src/Builder/Scan/Lists.antt =====
-- The lists of names and the flags that the loop over the operators in `validateAll` builds,
-- described by the operators alone.
use de_pipeline_tool.Prelude.{
  String, Bool, true, false, List, [], ◌∷◌, ◌++◌, ◌≡◌, refl, append_assoc, append-nil,
  if◌then◌else◌, Outcome, done, thrown, arith, ◌||◌,
}
use de_pipeline_tool.Builder.Model.{OperatorType, input, Operator}
use de_pipeline_tool.Builder.Scan.{
  Scan, is_input, is_output, is_parser, is_binary_input, scan_form, scan_invalid, scan_name,
  scan_type, scan_flags, scan_operator, scan_operators, scan_rest,
}

abbrev pub input_name : String → OperatorType → List String
input_name name type = if is_input type then name ∷ [] else []

abbrev pub output_name : String → OperatorType → List String
output_name name type = if is_output type then name ∷ [] else []

-- An operator that is neither input nor output stands here twice.
abbrev pub middle_name : String → OperatorType → List String
middle_name name type = if is_input type || is_output type then [] else name ∷ name ∷ []

abbrev pub names_by : (String → OperatorType → List String) → List Operator → List String
names_by f [] = []
names_by f (o ∷ os) = f o.name o.type ++ names_by f os

abbrev pub any_type : (OperatorType → Bool) → List Operator → Bool
any_type p [] = false
any_type p (o ∷ os) = if p o.type then true else any_type p os

-- What a scan that returns has done with the operators `os`.
pub record Collects (w w' : Scan) (os : List Operator) : Type 0 where
  pub inputs : w'.inputs ≡ w.inputs ++ names_by input_name os
  pub outputs : w'.outputs ≡ w.outputs ++ names_by output_name os
  pub middle : w'.middle ≡ w.middle ++ names_by middle_name os
  pub no_input : w'.no_input ≡ (if any_type is_input os then false else w.no_input)
  pub no_output : w'.no_output ≡ (if any_type is_output os then false else w.no_output)
  pub no_parser : w'.no_parser ≡ (if any_type is_parser os then false else w.no_parser)
  pub has_binary_input :
      w'.has_binary_input ≡ (if any_type is_binary_input os then true else w.has_binary_input)

-- The form of an operator touches only the complaints and the objects.
pub scan_form_keeps :
    (o : Operator) (w w' : Scan)
    → scan_form o w ≡ done w'
    → (w'.inputs ≡ w.inputs)
      × (w'.outputs ≡ w.outputs)
      × (w'.middle ≡ w.middle)
      × (w'.no_input ≡ w.no_input)
      × (w'.no_parser ≡ w.no_parser)
      × (w'.no_output ≡ w.no_output)
      × (w'.has_binary_input ≡ w.has_binary_input)
      × (w'.names ≡ w.names)
      × (w'.table ≡ w.table)
unfolding scan_form scan_invalid
scan_form_keeps o w w' h = ground arith

pub scan_operator-eq-done :
    (o : Operator) (w w' : Scan)
    → scan_operator o w ≡ done w'
    → (w₁ : Scan) × (scan_form o w ≡ done w₁)
      × (w' ≡ scan_flags o.type (scan_type o.name o.type (scan_name o w₁)))
unfolding scan_operator
scan_operator-eq-done o w w' h = go (scan_form o w) refl h
  where
    go :
        (r : Outcome Scan)
        → scan_form o w ≡ r
        → scan_rest o r ≡ done w'
        → (w₁ : Scan) × (scan_form o w ≡ done w₁)
          × (w' ≡ scan_flags o.type (scan_type o.name o.type (scan_name o w₁)))
    go (thrown w₁) e k = cc
    go (done w₁) e k = (w₁, e, cc)

scan_name_keeps :
    (o : Operator) (w : Scan)
    → ((scan_name o w).inputs ≡ w.inputs)
      × ((scan_name o w).outputs ≡ w.outputs)
      × ((scan_name o w).middle ≡ w.middle)
      × ((scan_name o w).no_input ≡ w.no_input)
      × ((scan_name o w).no_parser ≡ w.no_parser)
      × ((scan_name o w).no_output ≡ w.no_output)
      × ((scan_name o w).has_binary_input ≡ w.has_binary_input)
unfolding scan_name
scan_name_keeps o w = ground arith

-- What the steps by type add to each list, and what they make of each flag.
pub record Adds (name : String) (type : OperatorType) (w w' : Scan) : Type 0 where
  pub inputs : w'.inputs ≡ w.inputs ++ input_name name type
  pub outputs : w'.outputs ≡ w.outputs ++ output_name name type
  pub middle : w'.middle ≡ w.middle ++ middle_name name type
  pub no_input : w'.no_input ≡ (if is_input type then false else w.no_input)
  pub no_output : w'.no_output ≡ (if is_output type then false else w.no_output)
  pub no_parser : w'.no_parser ≡ (if is_parser type then false else w.no_parser)
  pub has_binary_input :
      w'.has_binary_input ≡ (if is_binary_input type then true else w.has_binary_input)

scan_type-Adds :
    (name : String) (type : OperatorType) (w : Scan)
    → Adds name type w (scan_flags type (scan_type name type w))
unfolding scan_type scan_flags
scan_type-Adds name input w =
    ground (arith, append-nil w.inputs, append-nil w.outputs, append-nil w.middle)
scan_type-Adds name _ w =
    ground (arith, append-nil w.inputs, append-nil w.outputs, append-nil w.middle)

pub scan_operator-Adds :
    (o : Operator) (w w' : Scan) → scan_operator o w ≡ done w' → Adds o.name o.type w w'
scan_operator-Adds o w w' h =
    let (w₁, formed, e) = scan_operator-eq-done o w w' h in
    let kept = scan_form_keeps o w w₁ formed in
    let named = scan_name_keeps o w₁ in
    let adds = scan_type-Adds o.name o.type (scan_name o w₁) in
    record {
      inputs = cc adds.inputs;
      outputs = cc adds.outputs;
      middle = cc adds.middle;
      no_input = cc adds.no_input;
      no_output = cc adds.no_output;
      no_parser = cc adds.no_parser;
      has_binary_input = cc adds.has_binary_input;
    }

pub scan_operators-eq-done :
    (o : Operator) (os : List Operator) (w w' : Scan)
    → scan_operators (o ∷ os) w ≡ done w'
    → (w₁ : Scan) × (scan_operator o w ≡ done w₁) × (scan_operators os w₁ ≡ done w')
unfolding scan_operators
scan_operators-eq-done o os w w' h = ground arith

Collects-cons :
    (o : Operator) (os : List Operator) (w w₁ w' : Scan)
    → Adds o.name o.type w w₁
    → Collects w₁ w' os
    → Collects w w' (o ∷ os)
Collects-cons o os w w₁ w' a c = record {
  inputs = cc (append_assoc w.inputs (input_name o.name o.type) (names_by input_name os));
  outputs = cc (append_assoc w.outputs (output_name o.name o.type) (names_by output_name os));
  middle = cc (append_assoc w.middle (middle_name o.name o.type) (names_by middle_name os));
  no_input = ground arith;
  no_output = ground arith;
  no_parser = ground arith;
  has_binary_input = ground arith;
}

-- Whatever the forms and names are, a scan that returns has sorted the operators by their types.
pub scan_operators-Collects :
    (os : List Operator) (w w' : Scan) → scan_operators os w ≡ done w' → Collects w w' os
unfolding scan_operators
scan_operators-Collects [] w w' h =
    ground (arith, append-nil w.inputs, append-nil w.outputs, append-nil w.middle)
scan_operators-Collects (o ∷ os) w w' h =
    let (w₁, first, rest) = scan_operators-eq-done o os w w' h in
    Collects-cons o os w w₁ w' (scan_operator-Adds o w w₁ first)
      (scan_operators-Collects os w₁ w' rest)
