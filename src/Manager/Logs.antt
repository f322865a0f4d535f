-- ===== src/Manager/Logs.antt =====
-- The logs of system-manager.js: `logService.onMessage`, which keeps the latest error messages of each
-- system, with `clearLogs`, `selectError` and `toggleLogs`.
pub mod Latest
use Prim.Native.Char.{code}
use Prim.Native.String
use de_pipeline_tool.Prelude.{
  ℕ, zero, suc, ◌+◌, ◌-◌, length, String, Bool, true, false, not, ◌&&◌, List, [], ◌∷◌, ◌++◌, Option,
  none, some, ◌==◌, if◌then◌else◌, eqb, leb, or_nil, index_of, substring, Outcome, done, thrown,
}
use de_pipeline_tool.Builder.Model.{lookup, insert}
use de_pipeline_tool.Manager.LogText.{exec}

pub record LogEntry : Type 0 where
  pub system : String
  pub operator : String
  pub error : String
  pub full_error : String

pub record Logs : Type 0 where
  pub errors : List (String × List LogEntry)
  pub selected_error : Option LogEntry

-- `indexOf(…) + n`, where `indexOf` may be -1; `n` is not zero.
abbrev index_plus : String → ℕ → String → ℕ
index_plus t n s = elim (index_of t s) [ none ↦ n - 1 | some i ↦ i + n ]

-- The second bound of a `substring`, where a negative one counts as zero.
abbrev index_or_zero : String → String → ℕ
index_or_zero t s = or_nil (index_of t s) 0

unfoldable pub system_in : String → String
system_in m = substring (index_plus "[ERROR] " 8 m) (index_or_zero " Error in " m) m

unfoldable pub operator_in : String → String
operator_in m = substring (index_plus " in " 4 m) (index_or_zero ":" m) m

-- What a message adds, if it is one of an error.
unfoldable pub entry_of : String → Option LogEntry
entry_of message = elim (exec message) [
  | none ↦ none
  | some m ↦
      some
        (record { system = system_in m; operator = operator_in m; error = m; full_error = message })
]

abbrev pub log_of : String → List (String × List LogEntry) → List LogEntry
log_of system errors = or_nil (lookup system errors) []

abbrev pub max_entries : ℕ
max_entries = 100

-- `shift`
abbrev pub shifted : List LogEntry → List LogEntry
shifted [] = []
shifted (e ∷ es) = es

-- A log that reaches the limit loses its oldest entry, if the system has a name.
unfoldable pub trimmed : String → List LogEntry → List LogEntry
trimmed system es = if not (system == "") && leb max_entries (length es) then shifted es else es

unfoldable pub push_entry : LogEntry → List (String × List LogEntry) → List (String × List LogEntry)
push_entry e errors = insert e.system (trimmed e.system (log_of e.system errors ++ e ∷ [])) errors

-- The loop over the messages.
unfoldable pub log_all : List String → List (String × List LogEntry) → List (String × List LogEntry)
log_all [] errors = errors
log_all (m ∷ ms) errors = elim (entry_of m) [
  | none ↦ log_all ms errors
  | some e ↦ log_all ms (push_entry e errors)
]

-- `data.data[0] === '[' && data.data[data.data.length - 1] === ']'`
last_is : ℕ → String → Bool
last_is c String.[] = false
last_is c (String.◌∷◌ d String.[]) = eqb (code d) c
last_is c (String.◌∷◌ d (String.◌∷◌ e s)) = last_is c (String.◌∷◌ e s)

unfoldable pub is_bracketed : String → Bool
unfolding last_is
is_bracketed String.[] = false
is_bracketed (String.◌∷◌ c s) = eqb (code c) b'[' && last_is b']' (String.◌∷◌ c s)

-- What a text brings: a list of messages, which `parse` (`JSON.parse`) reads if it can, or itself.
unfoldable pub messages_of : (String → Option (List String)) → String → Option (List String)
messages_of parse text = if is_bracketed text then parse text else some (text ∷ [])

-- `logService.onMessage`; what `JSON.parse` does not read makes it throw.
unfoldable pub receive_log : (String → Option (List String)) → String → Logs → Outcome Logs
receive_log parse text l = elim (messages_of parse text) [
  | none ↦ thrown l
  | some ms ↦ done (record l { errors = log_all ms l.errors })
]

-- `clearLogs`
unfoldable pub clear_logs : String → Logs → Logs
clear_logs name l = record { errors = insert name [] l.errors; selected_error = none }

-- `selectError`
unfoldable pub select_error : LogEntry → Logs → Logs
select_error e l = record l { selected_error = some e }

-- What `toggleLogs` asks of the socket: to close, or to be opened anew and sent the request.
pub data LogRequest : Type 0 where
  close reopen consume : LogRequest

-- `toggleLogs`, by the socket's `readyState`: 1 is open, and 3 is closed.
unfoldable pub toggle_logs : ℕ → List LogRequest
toggle_logs ready_state =
    if eqb ready_state 1
    then close ∷ []
    else if eqb ready_state 3
    then reopen ∷ consume ∷ []
    else []
