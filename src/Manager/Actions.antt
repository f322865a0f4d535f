-- ===== src/Manager/Actions.antt =====
-- The requests of the user in system-manager.js: `toggleSystem`, `killSystem` and `deleteSystem`
-- behind their confirmation, `toggleMonitoring`, and the page of the log.
pub mod Lifecycle
use de_pipeline_tool.Prelude.{
  ℕ, ◌+◌, ◌-◌, ◌≤◌, String, Bool, true, false, not, ◌&&◌, ◌||◌, List, [], ◌∷◌, ◌++◌, Option, none,
  some, ◌==◌, if◌then◌else◌, contains, eqb, ltb, arith, Outcome, done, thrown,
}
use de_pipeline_tool.Manager.Model.{
  Class, online, launching, killing, Entry, Scope, Request, deploy_system, kill_system,
  delete_system, monitor_start, drop_last, set_class,
}

abbrev pub send : Request → Scope → Scope
send r s = record s { requests = s.requests ++ r ∷ [] }

-- `toggleSystem`
unfoldable pub toggle_system : Entry → Scope → Scope
toggle_system e s =
    let s' =
      set_class e.ref launching (record s { running_system = s.running_system ++ e.uuid ∷ [] }) in
    let s'' = send (monitor_start e.id) (send (deploy_system e.uuid) s') in
    record s'' { online_systems = s''.online_systems ++ e.uuid ∷ [] }

-- `killSystem`, when the user agrees: a request goes out once.
unfoldable pub request_kill : Entry → Scope → Scope
request_kill e s =
    if contains s.killing_system e.name
    then s
    else send (kill_system e.uuid)
        (set_class e.ref killing (record s { killing_system = s.killing_system ++ e.name ∷ [] }))

abbrev pub is_active : Entry → Option Entry → Bool
is_active e none = false
is_active e (some a) = a.name == e.name

unfoldable pub stop_monitor : Entry → Scope → Scope
stop_monitor e s = if is_active e s.active then send (monitor_start (some "")) s else s

unfoldable pub confirm_kill : Entry → Scope → Scope
confirm_kill e s =
    let s' = stop_monitor e (request_kill e s) in
    record s' { online_systems = s'.online_systems ++ e.uuid ∷ [] }

-- `systems.splice(systems.indexOf(system), 1)`: an object that is not on the list, after a refresh,
-- has the index `-1`, and the last system goes.
abbrev is_listed : ℕ → List Entry → Bool
is_listed ref [] = false
is_listed ref (e ∷ es) = eqb e.ref ref || is_listed ref es

abbrev drop_ref : ℕ → List Entry → List Entry
drop_ref ref [] = []
drop_ref ref (e ∷ es) = let rest = e ∷ drop_ref ref es in if eqb e.ref ref then es else rest

unfoldable pub splice_entry : ℕ → List Entry → List Entry
splice_entry ref es = if is_listed ref es then drop_ref ref es else drop_last es

abbrev pub may_delete : Entry → Option Entry → Bool
may_delete e none = true
may_delete e (some a) = a.name == e.name

-- `deleteSystem`, when the user agrees.
unfoldable pub confirm_delete : Entry → Scope → Scope
confirm_delete e s =
    let s' = record s { systems = splice_entry e.ref s.systems } in
    if may_delete e s.active then send (delete_system e.uuid) (record s' { active = none }) else s'

abbrev class_is_online : Option Class → Bool
class_is_online (some online) = true
class_is_online _ = false

-- `toggleMonitoring`: without a selection it throws.
unfoldable pub toggle_monitoring : Scope → Outcome Scope
toggle_monitoring s =
    if s.monitoring
    then done (send (monitor_start (some "")) (record s { monitoring = false }))
    else elim s.active [
      | none ↦ thrown s
      | some e ↦
          if class_is_online e.class
          then done (send (monitor_start e.id) (record s { monitoring = true }))
          else done s
    ]

-- `changeLogPage`
unfoldable pub change_log_page : String → Scope → Scope
change_log_page style s =
    if style == "back" && ltb 1 s.log_page
    then record s { log_page = s.log_page - 1 }
    else if style == "forward" && ltb s.log_page 4
    then record s { log_page = s.log_page + 1 }
    else s
