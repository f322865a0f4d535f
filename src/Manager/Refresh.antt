-- ===== src/Manager/Refresh.antt =====
-- `refresh` and `refreshSystems` of system-manager.js: the classes of the systems, the systems that
-- are being deployed and killed, and the selection.
pub mod Listed
use de_pipeline_tool.Prelude.{
  ℕ, ◌+◌, length, String, Bool, true, false, not, ◌&&◌, ◌||◌, List, [], ◌∷◌, ◌++◌, Option, none,
  some, ◌==◌, if◌then◌else◌, contains, remove, eqb,
}
use de_pipeline_tool.Builder.Model.{insert}
use de_pipeline_tool.Monitor.Apps
use de_pipeline_tool.Monitor.Apps.{App}
use de_pipeline_tool.Monitor.Start
use de_pipeline_tool.Manager.Model.{
  Class, online, created, errored, offline, launching, killing, Entry, Scope, same, has, drop_first,
  drop_last, entries_of,
}
use de_pipeline_tool.Manager.Merge.{merge_all}

unfoldable pub runs : Option App → Bool
runs none = false
runs (some a) = a.state == "RUNNING" || a.state == "ACCEPTED" || a.state == "SUBMITTED"

-- The class that the state of the application gives.
unfoldable pub class_of : Option App → Class
class_of none = offline
class_of (some a) =
    if runs (some a)
    then online
    else if a.state == "NEW" || a.state == "NEW_SAVING"
    then created
    else if a.state == "FAILED"
    then errored
    else offline

abbrev pub is_up : Class → Bool
is_up online = true
is_up errored = true
is_up _ = false

abbrev pub is_offline : Class → Bool
is_offline offline = true
is_offline _ = false

-- A system that is being deployed is launching, until it is online or has failed; then it leaves the
-- list of these.
unfoldable pub launch_class : Option String → Class → List (Option String) → Class
launch_class uuid c running = if has running uuid && not (is_up c) then launching else c

unfoldable pub settle_launch : Option String → Class → List (Option String) → List (Option String)
settle_launch uuid c running =
    if has running uuid && is_up c then drop_first uuid running else running

-- A system that is being killed is so until it is offline.
unfoldable pub kill_class : String → Class → List String → Class
kill_class name c kills = if contains kills name && not (is_offline c) then killing else c

-- `killingSystem` holds names, and the script looks for the id.
abbrev pub splice_id : Option String → List String → List String
splice_id none kills = drop_last kills
splice_id (some u) kills = if contains kills u then remove u kills else drop_last kills

unfoldable pub settle_kill : String → Option String → Class → List String → List String
settle_kill name uuid c kills =
    if contains kills name && is_offline c then splice_id uuid kills else kills

-- A time of an application that is zero is not shown. As the text "0" it would be.
abbrev time_of : (ℕ → String) → ℕ → String
time_of show_time t = if eqb t 0 then "-" else show_time t

abbrev started : (ℕ → String) → Option App → String
started show_time none = "-"
started show_time (some a) = time_of show_time a.started_time

abbrev finished : (ℕ → String) → Option App → String
finished show_time none = "-"
finished show_time (some a) = time_of show_time a.finished_time

-- The test on `activeUuid`, which an empty text fails.
abbrev is_selected : Option String → Option String → Bool
is_selected none uuid = false
is_selected (some u) uuid = not (u == "") && same (some u) uuid

-- The classes after the first and after the second list.
abbrev pub first_class : Entry → Scope → Class
first_class e s = launch_class e.uuid (class_of e.properties) s.running_system

abbrev pub last_class : Entry → Scope → Class
last_class e s = kill_class e.name (first_class e s) s.killing_system

-- The object behind one round of the loop over the systems.
unfoldable pub visited : (ℕ → String) → Entry → Scope → Entry
visited show_time e s = record e {
  class = some (last_class e s);
  start_time = started show_time e.properties;
  end_time = finished show_time e.properties;
}

-- What one round changes of the scope. The names and the online systems go to the builder.
unfoldable pub visit : (ℕ → String) → Entry → Scope → Scope
visit show_time e s = record s {
  online_systems = if runs e.properties then s.online_systems ++ e.uuid ∷ [] else s.online_systems;
  running_system = settle_launch e.uuid (class_of e.properties) s.running_system;
  killing_system = settle_kill e.name e.uuid (first_class e s) s.killing_system;
  names = insert e.name e.uuid s.names;
  active = if is_selected s.active_uuid e.uuid then some (visited show_time e s) else s.active;
}

unfoldable pub visit_all : (ℕ → String) → List Entry → Scope → Scope
visit_all show_time [] s = s
visit_all show_time (e ∷ es) s = visit_all show_time es (visit show_time e s)

unfoldable pub visited_all : (ℕ → String) → List Entry → Scope → List Entry
visited_all show_time [] s = []
visited_all show_time (e ∷ es) s =
    visited show_time e s ∷ visited_all show_time es (visit show_time e s)

abbrev is_online : Option Class → Bool
is_online (some online) = true
is_online _ = false

unfoldable pub first_online : List Entry → Option Entry
first_online [] = none
first_online (e ∷ es) = let rest = first_online es in if is_online e.class then some e else rest

-- Without a selection the systems are sorted, and the first that is online is selected.
-- `orderManager` takes one argument, so the order in which `sort` leaves them is the engine's.
unfoldable pub select_online : (List Entry → List Entry) → Scope → Scope
select_online sort s = elim s.active [
  | some e ↦ s
  | none ↦ record s { systems = sort s.systems; active = first_online (sort s.systems) }
]

-- The list that the loop over the systems walks.
abbrev pub merged : List Apps.System → List Start.Descriptor → Scope → List Entry
merged xs ds s = merge_all (s.next_ref + length xs) ds (entries_of s.next_ref xs)

-- The scope at the start of that loop.
abbrev pub begun : List Apps.System → List Start.Descriptor → Scope → Scope
begun xs ds s = record s {
  down = false;
  online_systems = [];
  names = [];
  next_ref = s.next_ref + length xs + length ds;
}

-- `refreshSystems`, with what MonitorData holds. The script takes the array of MonitorData itself, and
-- what it adds and sets is in that array too, until MonitorData makes another one. Here the array is
-- copied: this is the refresh that follows upon a new array of MonitorData.
unfoldable pub refresh_systems :
    (ℕ → String)
    → (List Entry → List Entry)
    → List Apps.System
    → List Start.Descriptor
    → Scope
    → Scope
refresh_systems show_time sort xs ds s =
    let s' = visit_all show_time (merged xs ds s) (begun xs ds s) in
    let systems = visited_all show_time (merged xs ds s) (begun xs ds s) in
    record (select_online sort (record s' { systems = systems })) { active_uuid = none }

-- `refresh`, before MonitorData answers.
unfoldable pub refresh : Scope → Scope
refresh s = elim s.active [ none ↦ s | some e ↦ record s { active_uuid = e.uuid } ]
