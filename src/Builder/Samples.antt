-- ===== src/Builder/Samples.antt =====
-- Small systems for the tests and examples of the builder.
use de_pipeline_tool.Prelude.{
  ℕ, String, true, false, List, [], ◌∷◌, Option, none, some, to_string, parse_int, parses_to,
}
use de_pipeline_tool.Builder.Model.{
  OperatorType, input, output, parser, Validation, text, Property, Form, Connection, Source, Target,
  Operator, Storage, Scope, lookup, insert,
}
use de_pipeline_tool.Builder.Json.{
  is_set, joined, value_text, write_as, write_property, write_properties, write_operators,
  finish_json, update_json,
}
use de_pipeline_tool.Builder.Streams.{
  sink_among, sink_name, sinks_of, push_stream, source_streams, streams_of, update_connections,
}
use de_pipeline_tool.Builder.Forms.{
  first_named, find_validation, check_entry, check_entries, check_property, check_properties,
  validate_state, invalid_fields, complaint_text, complaint_texts, parse_invalid_text,
}
use de_pipeline_tool.Builder.Scan.{
  is_name_code, all_name_codes, is_system_name, is_taken, name_complaints, scan_invalid, scan_form,
  scan_name, scan_type, scan_flags, scan_operator, scan_operators,
}
use de_pipeline_tool.Builder.Check.{
  missing_complaints, use_source, use_sink, can_connect, check_types, check_sinks, check_stream,
  check_streams, finish_uses, check_system, judge_operators, validate_all,
}
use de_pipeline_tool.Builder.Canvas.{
  next_uuid, element_fields, property_fields, drop_properties, with_endpoints, dropped,
  add_operator, drop, is_hit, sweep, sweep_sources, sweep_operators, remove_all_connections,
  without, remove_state,
}
use de_pipeline_tool.Builder.Connect.{
  has_connection, connect, source_at, set_source, places_in, places, connected_at, answered_at,
  visit, visit_all, on_connection, ahead_of, ahead_of_all, set_uuid, load_system,
}
use de_pipeline_tool.Builder.Session.{
  last_operators, cache, update, may_save, save_to_manager, store, store_last, save_operator,
}

-- Everything that a run of the builder computes with.
unfoldable pub program : Unit {0}
unfolding to_string parse_int parses_to lookup insert is_set joined value_text write_as
    write_property write_properties write_operators finish_json update_json sink_among sink_name
    sinks_of push_stream source_streams streams_of update_connections first_named find_validation
    check_entry check_entries check_property check_properties validate_state invalid_fields
    complaint_text complaint_texts parse_invalid_text is_name_code all_name_codes is_system_name
    is_taken name_complaints scan_invalid scan_form scan_name scan_type scan_flags scan_operator
    scan_operators missing_complaints use_source use_sink can_connect check_types check_sinks
    check_stream check_streams finish_uses check_system judge_operators validate_all next_uuid
    element_fields property_fields drop_properties with_endpoints dropped add_operator drop is_hit
    sweep sweep_sources sweep_operators remove_all_connections without remove_state has_connection
    connect source_at set_source places_in places connected_at answered_at visit visit_all
    on_connection ahead_of ahead_of_all set_uuid load_system last_operators cache update may_save
    save_to_manager store store_last save_operator
program = tt

abbrev pub string_rule : Validation
string_rule = record {
  name = "String";
  input_kind = "textInput";
  list = false;
  regex = some ".+";
  options = none;
  file = none;
}

abbrev pub host : Property
host = record {
  name = "host";
  kind = "String";
  value = text "localhost";
  required = true;
  file_name = none;
  filename_field = none;
  validation = some string_rule;
}

abbrev pub valid_form : Form
valid_form = record {
  invalid = false;
  operator_name_invalid = false;
  fields = ("host", record { invalid = false; filename_invalid = none }) ∷ [];
}

abbrev pub operator :
    ℕ → String → OperatorType → Option (List Source) → Option (List Target) → Operator
operator ref name type sources targets = record {
  ref = ref;
  name = name;
  class_name = "com.deleidos.Op";
  type = type;
  properties = host ∷ [];
  sources = sources;
  targets = targets;
  form = some valid_form;
  x = 0;
  y = 0;
}

abbrev pub wired : ℕ → List String → Option (List Source)
wired n to = some (record { uuid = n; connections = some (links to) } ∷ [])
  where
    links : List String → List Connection
    links [] = []
    links (u ∷ us) = record { uuid = u } ∷ links us

abbrev pub target : ℕ → Option (List Target)
target n = some (record { uuid = n } ∷ [])

-- An input, a parser and an output in a row.
abbrev pub pipeline : List Operator
pipeline =
    operator 1 "in" input (wired 2001 ("2003" ∷ [])) none
    ∷ operator 2 "csv" parser (wired 2002 ("2004" ∷ [])) (target 2003)
    ∷ operator 3 "out" output none (target 2004)
    ∷ []

abbrev pub storage : Storage
storage = record {
  system_name = "";
  state_objects = none;
  id = none;
  zoomlevel = 30;
  old_zoom = 30;
  online_systems = [];
  saved_operators = none;
  last_uuid = 2004;
  validations = string_rule ∷ [];
  custom_validations = [];
}

abbrev pub scope : List Operator → Scope
scope os = record {
  build_invalid = true;
  system_name = "first-system";
  system_names_ids = ("other", some "id1") ∷ [];
  active_state = none;
  id = none;
  online_systems = [];
  zoomlevel = 30;
  old_zoom = 30;
  state_objects = os;
  descriptor = none;
  invalid = [];
  invalid_text = [];
  hide_errors = true;
  operator_list = some [];
  refreshing = false;
  pending_resets = 0;
  sent = [];
  next_ref = 10;
  storage = storage;
}
