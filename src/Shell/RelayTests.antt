-- ===== src/Shell/RelayTests.antt =====
-- A save behind a refresh of the manager, on small inputs.
use de_pipeline_tool.Prelude.{true, false, not, ◌&&◌, List, [], ◌∷◌, none, ◌≡◌, refl, to_string}
use de_pipeline_tool.Builder.Scan.{is_system_name}
use de_pipeline_tool.Builder.Session.{may_save}
use de_pipeline_tool.Builder.Samples.{scope}
use de_pipeline_tool.Monitor.Apps
use de_pipeline_tool.Monitor.Apps.{state_name, system_of}
use de_pipeline_tool.Monitor.Start
use de_pipeline_tool.Manager.Model as ManagerModel
use de_pipeline_tool.Manager.Model.{Entry}
use de_pipeline_tool.Manager.Merge.{give_uuid, merge_one, merge_all}
use de_pipeline_tool.Manager.Refresh.{merged, refresh_systems}
use de_pipeline_tool.Shell.Relay.{is_claimed, relay_refresh, relay_refresh-may_save}

abbrev running : List Apps.System
running =
    system_of (record {
      id = "application_1";
      name = "first-system";
      state = "RUNNING";
      started_time = 5;
      finished_time = 0;
    })
    ∷ []

abbrev known : List Start.Descriptor
known = record { name = "first-system"; uuid = "u1" } ∷ []

abbrev keep : List Entry → List Entry
keep es = es

abbrev manager : ManagerModel.Scope
manager = record {
  active = none;
  active_uuid = none;
  active_properties = [];
  running_system = [];
  killing_system = [];
  online_systems = [];
  names = [];
  systems = [];
  monitoring = false;
  down = true;
  log_page = 1;
  next_ref = 0;
  requests = [];
}

-- The builder's system has no id yet, and the name is in use.
name_is_claimed : is_claimed "first-system" none (merged running known manager) ≡ true
unfolding merge_all merge_one give_uuid state_name
name_is_claimed = refl

relay_refresh-may_save_example :
    may_save (relay_refresh (refresh_systems to_string keep running known manager) (scope [])) ≡ (
      is_system_name "first-system"
      && false
      && not (is_claimed "first-system" none (merged running known manager)))
relay_refresh-may_save_example =
    relay_refresh-may_save to_string keep running known manager (scope [])
