-- ===== src/Builder/Check.antt =====
-- The second half of `validateAll` of system-builder.controller.js: what is missing, the loop over
-- the streams, and the whole function.
pub mod Balance
pub mod Owing
pub mod Rules
pub mod Sound
pub mod Start
pub mod Complete
pub mod Returns
use de_pipeline_tool.Prelude.{
  ℕ, ◌+◌, ◌<◌, length, String, Bool, true, false, not, ◌&&◌, ◌||◌, List, [], ◌∷◌, ◌++◌, Option,
  none, some, if◌then◌else◌, ◌⁺◌, contains, remove, eqb, Outcome, done, thrown,
}
use de_pipeline_tool.Builder.Model.{
  OperatorType, input, output, parser, enrichment, mapping, binary_input, binary_output, Operator,
  Complaint, message, Stream, Descriptor, Scope, lookup,
}
use de_pipeline_tool.Builder.Forms.{is_nonempty}
use de_pipeline_tool.Builder.Scan.{name_complaints, Entry, Scan, scan_operators, start}

unfoldable pub missing_complaints : Scan → List Complaint
missing_complaints w =
    (if w.no_input then message "No input operators" ∷ [] else [])
    ++ (if w.no_parser && not w.has_binary_input then message "No parser operator" ∷ [] else [])
    ++ (if w.no_output then message "No output operators" ∷ [] else [])

-- What is left of the lists in the loop over the streams. (`targets`, which the loop writes into the
-- table of operators, is read nowhere.)
pub record Uses : Type 0 where
  pub invalid : List Complaint
  pub inputs : List String
  pub outputs : List String
  pub middle : List String

-- The operator gives a stream.
unfoldable pub use_source : String → Uses → Uses
use_source name u =
    if contains u.inputs name
    then record u { inputs = remove name u.inputs }
    else if contains u.middle name
    then record u { middle = remove name u.middle }
    else u

-- The operator takes a stream.
unfoldable pub use_sink : String → Uses → Uses
use_sink name u =
    if contains u.outputs name
    then record u { outputs = remove name u.outputs }
    else if contains u.middle name
    then record u { middle = remove name u.middle }
    else record u { invalid = u.invalid ++ message (name ⁺ " has too many inputs") ∷ [] }

-- The types that may be connected.
unfoldable pub can_connect : OperatorType → OperatorType → Bool
can_connect input parser = true
can_connect parser mapping = true
can_connect parser enrichment = true
can_connect parser output = true
can_connect mapping enrichment = true
can_connect mapping output = true
can_connect enrichment mapping = true
can_connect enrichment output = true
can_connect binary_input binary_output = true
can_connect _ _ = false

unfoldable pub check_types : String → String → OperatorType → OperatorType → Uses → Uses
check_types source sink from to u = if can_connect from to then u else record u {
  invalid =
      u.invalid ++ message (source ⁺ " operator can't connect with " ⁺ sink ⁺ " operator") ∷ [];
}

-- `target.type` throws where no operator has the sink's name.
unfoldable pub check_sinks :
    List (String × Entry) → String → OperatorType → List String → Uses → Outcome Uses
check_sinks table source from [] u = done u
check_sinks table source from (sink ∷ sinks) u = elim (lookup sink table) [
  | none ↦ thrown (use_sink sink u)
  | some target ↦
      check_sinks table source from sinks
        (check_types source sink from target.type (use_sink sink u))
]

-- `operatorValidateList[name].targets = []` throws where no operator has the source's name.
unfoldable pub check_stream : List (String × Entry) → Stream → Uses → Outcome Uses
check_stream table stream u = elim (lookup stream.source table) [
  | none ↦ thrown (use_source stream.source u)
  | some source ↦
      check_sinks table stream.source source.type stream.sinks (use_source stream.source u)
]

unfoldable pub check_streams : List (String × Entry) → List Stream → Uses → Outcome Uses
check_streams table [] u = done u
check_streams table (stream ∷ streams) u = elim (check_stream table stream u) [
  | thrown u' ↦ thrown u'
  | done u' ↦ check_streams table streams u'
]

unfoldable pub finish_uses : Uses → List Complaint
finish_uses u =
    if eqb (length u.outputs + length u.middle + length u.inputs) 0
    then u.invalid
    else u.invalid ++ message "Too few connections" ∷ []

abbrev pub uses_of : Scan → Uses
uses_of w = record {
  invalid = w.invalid ++ missing_complaints w;
  inputs = w.inputs;
  outputs = w.outputs;
  middle = w.middle;
}

abbrev pub check_end : Outcome Uses → Outcome (List Complaint)
check_end (thrown u) = thrown u.invalid
check_end (done u) = done (finish_uses u)

-- The list of complaints that the function ends with, or has reached when it throws. Without a
-- `systemDescriptor` there are no streams to read, and it throws.
unfoldable pub check_system : Scan → Option Descriptor → Outcome (List Complaint)
check_system w none = thrown (uses_of w).invalid
check_system w (some d) = check_end (check_streams w.table d.streams (uses_of w))

abbrev pub judged : Scope → List Operator → List Complaint → Scope
judged s objects invalid = record s {
  state_objects = objects;
  invalid = invalid;
  build_invalid = is_nonempty invalid;
}

-- A throw comes before `buildInvalid` is assigned.
abbrev pub interrupted : Scope → List Operator → List Complaint → Scope
interrupted s objects invalid = record s { state_objects = objects; invalid = invalid }

unfoldable pub judge_operators : Scope → Outcome Scan → Outcome Scope
judge_operators s (thrown w) = thrown (interrupted s w.objects w.invalid)
judge_operators s (done w) = elim (check_system w s.descriptor) [
  | thrown invalid ↦ thrown (interrupted s w.objects invalid)
  | done invalid ↦ done (judged s w.objects invalid)
]

unfoldable pub validate_all : Scope → Outcome Scope
validate_all s = elim s.state_objects [
  | [] ↦ done (judged s [] (name_complaints s ++ message "No operators are present" ∷ []))
  | o ∷ os ↦ judge_operators s (scan_operators (o ∷ os) (start (name_complaints s)))
]
