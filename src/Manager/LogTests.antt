-- ===== src/Manager/LogTests.antt =====
-- The logs of the system manager on small inputs, and the theorem on them there.
use de_pipeline_tool.Prelude.{
  String, List, [], ◌∷◌, ◌++◌, Option, none, some, index_of, substring, ◌≡◌, refl, arith, inl, done,
}
use de_pipeline_tool.Builder.Model.{lookup}
use de_pipeline_tool.Manager.LogText.{exec}
use de_pipeline_tool.Manager.Logs.{
  LogEntry, Logs, system_in, operator_in, entry_of, log_of, is_bracketed, messages_of, receive_log,
}
use de_pipeline_tool.Manager.Logs.Latest.{entries_for, IsLatest, receive_log-IsLatest}

abbrev message : String
message = "12:01 [ERROR] etl Error in csv parser: bad row"

abbrev entry : LogEntry
entry = record {
  system = "etl";
  operator = "csv parser";
  error = "[ERROR] etl Error in csv parser:";
  full_error = message;
}

entry_of-message : entry_of message ≡ some entry
unfolding entry_of exec index_of substring system_in operator_in
entry_of-message = refl

other_message : entry_of "12:02 [INFO] etl started" ≡ none
unfolding entry_of exec index_of substring system_in operator_in
other_message = refl

abbrev no_errors : Logs
no_errors = record { errors = []; selected_error = none }

abbrev no_json : String → Option (List String)
no_json text = none

receive_log-IsLatest_example :
    (behind : Logs) × (receive_log no_json message no_errors ≡ done behind)
    × IsLatest ([] ++ entries_for "etl" (message ∷ [])) (log_of "etl" behind.errors)
unfolding messages_of is_bracketed lookup
receive_log-IsLatest_example =
    receive_log-IsLatest no_json "etl" message (message ∷ []) no_errors [] refl refl
      (record { gone = []; order = refl; bound = omega arith; full = inl refl })
