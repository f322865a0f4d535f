-- ===== src/Builder/Session/Page.antt =====
-- The page of the system builder when it is opened and clicked on: `load`, `equalizeZoom`, `clearSelected`,
-- `refreshStates`, `setActiveStateFromEvent` and the operator that the ribbon sends.
use de_pipeline_tool.Prelude.{true, false, ◌+◌, List, Option, none, some, ◌≡◌, refl, Outcome}
use de_pipeline_tool.Builder.Model.{Operator, Scope}
use de_pipeline_tool.Builder.Session.{cache, set_active_state}

-- `equalizeZoom`; the place of the canvas is left out.
unfoldable pub equalize_zoom : Scope → Scope
equalize_zoom s = record s { old_zoom = s.zoomlevel }

-- `load`
unfoldable pub load : List Operator → Scope → Scope
load os s = equalize_zoom (record s {
  state_objects = os;
  system_name = s.storage.system_name;
  zoomlevel = s.storage.zoomlevel;
  old_zoom = s.storage.old_zoom;
  online_systems = s.storage.online_systems;
})

-- `$scope._id = $localStorage._id`
unfoldable pub cached_id : Scope → Scope
cached_id s = record s { id = s.storage.id }

-- What the page does when it is opened: without a cached canvas it takes its place anew.
unfoldable pub open_page : Scope → Scope
open_page s = elim s.storage.state_objects [
  | none ↦ record (cached_id s) { pending_resets = s.pending_resets + 1 }
  | some os ↦ load os (cached_id s)
]

-- `clearSelected`
unfoldable pub clear_selected : Scope → Scope
clear_selected s = record s { active_state = none }

-- `refreshStates`, and its timer.
unfoldable pub refresh_states : Scope → Scope
refresh_states s = record s { refreshing = true }

unfoldable pub refresh_states_fires : Scope → Scope
refresh_states_fires s = record s { refreshing = false }

-- `Sending saved operator`
unfoldable pub receive_saved_operator : Operator → Scope → Outcome Scope
receive_saved_operator o s = set_active_state (some o) s

-- What was clicked: the canvas, an element that belongs to no scope, one of an operator, or one of a scope
-- that has perhaps a `state`.
pub data Clicked : Type 0 where
  canvas nowhere : Clicked
  on_object : Operator → Clicked
  on_state : Option Operator → Clicked

-- `setActiveStateFromEvent`
unfoldable pub set_active_state_from_event : Clicked → Scope → Outcome Scope
set_active_state_from_event canvas s = set_active_state none s
set_active_state_from_event nowhere s = set_active_state none s
set_active_state_from_event (on_object o) s = set_active_state (some o) s
set_active_state_from_event (on_state o) s = set_active_state o s

-- What an update has cached comes back when the page is opened again, whatever the new scope holds: the
-- operators, the name, the id, the zoom and the online systems.
pub cache-open_page :
    (s fresh : Scope)
    → (let s' = open_page (record fresh { storage = (cache s).storage }) in
        (s'.state_objects ≡ s.state_objects)
        × (s'.system_name ≡ s.system_name)
        × (s'.id ≡ s.id)
        × (s'.zoomlevel ≡ s.zoomlevel)
        × (s'.online_systems ≡ s.online_systems))
unfolding open_page cached_id load equalize_zoom cache
cache-open_page s fresh = (refl, refl, refl, refl, refl)
