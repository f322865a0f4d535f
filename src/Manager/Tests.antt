-- ===== src/Manager/Tests.antt =====
-- The system manager on small inputs, and its theorems at these.
use de_pipeline_tool.Prelude.{
  or_nil, is_some, ℕ, String, true, false, ◌||◌, List, [], ◌∷◌, ◌++◌, none, some, ◌≡◌, refl, arith,
  contains, count, to_string, if◌then◌else◌,
}
use de_pipeline_tool.Builder.Model.{insert}
use de_pipeline_tool.Monitor.Apps
use de_pipeline_tool.Monitor.Apps.{App, state_name, system_of}
use de_pipeline_tool.Monitor.Start
use de_pipeline_tool.Manager.Model.{launching, Entry, Scope, entry_names, entries_of}
use de_pipeline_tool.Manager.Merge.{
  give_uuid, merge_one, merge_all, offline_entry, descriptor_names, once,
}
use de_pipeline_tool.Manager.Merge.Ids.{uuid_of, last_id, merge_all-uuid_of}
use de_pipeline_tool.Manager.Refresh.{
  runs, class_of, launch_class, settle_launch, kill_class, settle_kill, visited, visit, visit_all,
  visited_all, first_online, select_online, merged, refresh_systems,
}
use de_pipeline_tool.Manager.Refresh.Listed.{
  online_ids, system_names, refresh_systems-online, refresh_systems-count,
}
use de_pipeline_tool.Manager.Actions.{toggle_system}
use de_pipeline_tool.Manager.Actions.Lifecycle.{settled_class, toggle_system-visit}
use de_pipeline_tool.Manager.Pages.{pages_of, fill_pages, append_at}

abbrev app : String → String → App
app name state = record {
  id = "application_1";
  name = name;
  state = state;
  started_time = 5;
  finished_time = 0;
}

abbrev descriptor : String → String → Start.Descriptor
descriptor name uuid = record { name = name; uuid = uuid }

abbrev listed : List Apps.System
listed = system_of (app "etl" "RUNNING") ∷ system_of (app "old" "FAILED") ∷ []

abbrev known : List Start.Descriptor
known = descriptor "etl" "u1" ∷ descriptor "fresh" "u2" ∷ []

abbrev keep : List Entry → List Entry
keep es = es

abbrev nothing : Scope
nothing = record {
  active = none;
  active_uuid = none;
  active_properties = [];
  running_system = [];
  killing_system = [];
  online_systems = [];
  names = [];
  systems = [];
  monitoring = false;
  down = true;
  log_page = 1;
  next_ref = 0;
  requests = [];
}

abbrev idle : Entry
idle = offline_entry 7 (descriptor "fresh" "u2")

-- The first refresh: three systems, of which the one that runs is online and selected.
first_refresh :
    entry_names (refresh_systems to_string keep listed known nothing).systems
    ≡ "etl" ∷ "old" ∷ "fresh" ∷ []
unfolding refresh_systems select_online first_online visit_all visited_all visit visited merge_all
    merge_one give_uuid runs class_of launch_class settle_launch kill_class settle_kill insert
    to_string state_name
first_refresh = refl

first_online_systems :
    (refresh_systems to_string keep listed known nothing).online_systems ≡ some "u1" ∷ []
unfolding refresh_systems select_online first_online visit_all visited_all visit visited merge_all
    merge_one give_uuid runs class_of launch_class settle_launch kill_class settle_kill insert
    to_string state_name
first_online_systems = refl

refresh_systems-count_example :
    count "etl" (entry_names (refresh_systems to_string keep listed known nothing).systems)
    ≡ once (contains (system_names listed) "etl" || contains (descriptor_names known) "etl")
refresh_systems-count_example =
    refresh_systems-count to_string keep listed known nothing "etl" (λ es. refl) (omega arith)

refresh_systems-online_example :
    (refresh_systems to_string keep listed known nothing).online_systems
    ≡ online_ids (merged listed known nothing)
refresh_systems-online_example = refresh_systems-online to_string keep listed known nothing

merge_all-uuid_of_example :
    uuid_of "etl" (merge_all 2 known (entries_of 0 listed))
    ≡ last_id "etl" known (uuid_of "etl" (entries_of 0 listed))
merge_all-uuid_of_example = merge_all-uuid_of "etl" 2 known (entries_of 0 listed)

toggle_system-visit_example :
    ((visited to_string idle (toggle_system idle nothing)).class
      ≡ some (or_nil (settled_class idle.properties) launching))
    × ((visit to_string idle (toggle_system idle nothing)).running_system
        ≡ (if is_some (settled_class idle.properties) then [] else [] ++ idle.uuid ∷ []))
toggle_system-visit_example = toggle_system-visit to_string idle idle nothing refl refl refl

abbrev ten : List ℕ
ten = 0 ∷ 1 ∷ 2 ∷ 3 ∷ 4 ∷ 5 ∷ 6 ∷ 7 ∷ 8 ∷ 9 ∷ []

-- Ten properties make a full page and one of two.
two_pages : pages_of ten ≡ (0 ∷ 1 ∷ 2 ∷ 3 ∷ 4 ∷ 5 ∷ 6 ∷ 7 ∷ []) ∷ (8 ∷ 9 ∷ []) ∷ []
unfolding pages_of fill_pages append_at
two_pages = refl
