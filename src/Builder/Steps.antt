-- ===== src/Builder/Steps.antt =====
-- The page of the system builder at work: what the user and the server do to it, one event after another,
-- and the scopes that come of it.
pub mod Order
pub mod Sparing
pub mod Removing
pub mod Cutting
pub mod Adding
pub mod Editing
mod Entries
pub mod Edited
pub mod Replaced
pub mod Safe
use de_pipeline_tool.Prelude.{
  ℕ, String, Bool, true, false, List, [], Option, none, some, ◌≡◌, if◌then◌else◌, state_of, or_nil,
  is_some, to_string, Outcome, done, thrown, ◌then_run◌,
}
use de_pipeline_tool.Builder.Model.{Property, Operator, Scope}
use de_pipeline_tool.Builder.Canvas.{
  drop_properties, drop, remove_all, remove_state, remove_state_connection,
}
use de_pipeline_tool.Builder.Canvas.Sweeping.{AtMostOne}
use de_pipeline_tool.Builder.Connect.{link, on_connection, load_system}
use de_pipeline_tool.Builder.Session.{
  cache, update, reset_position_fires, set_active_state, save_to_manager, save_operator, cut,
  receive_operators, saved, receive_names, receive_online, connection_noticed,
}
use de_pipeline_tool.Builder.Session.Returns.{LeadsTo}
use de_pipeline_tool.Builder.Session.Page.{
  open_page, clear_selected, refresh_states, refresh_states_fires,
}
use de_pipeline_tool.Builder.Steps.Removing.{object_at, IsCurrent}
use de_pipeline_tool.Builder.Steps.Adding.{IsItem}
use de_pipeline_tool.Builder.Steps.Editing.{Edit, edit_at, IsEditable}

-- What happens to the page.
pub data Event : Type 0 where
  updated noticed cleared reset_fired manager_saved operator_saved cut_out deselected refreshed
        refresh_fired :
      Event
  named : String → Event
  selected : Option Operator → Event
  dropped_at : (x y : ℕ) → Option Operator → Event
  drawn : (List Operator → Option Bool) → (target source : ℕ) → Event
  removed : Operator → Event
  disconnected : (ref endpoint i : ℕ) → Event
  id_received : Option String → Event
  names_received : List (String × Option String) → Event
  online_received : List (Option String) → Event
  operators_received : (Property → Bool) → List Operator → (shown : Bool) → Event
  no_system_received : String → Event
  edited : ℕ → Edit → Event

abbrev pub with_objects : Scope → Outcome (List Operator) → Outcome Scope
with_objects s (done os) = done (record s { state_objects = os })
with_objects s (thrown os) = thrown (record s { state_objects = os })

-- The handler that answers it. A connection that is drawn is noticed first; a name that is typed is
-- followed by an update. The list of operators may come before the ribbon can show it (Shell.Metadata), and
-- then its handler throws behind the writing of the list.
unfoldable pub run : Event → Scope → Outcome Scope
run updated s = update s
run noticed s = connection_noticed s
run cleared s = done (remove_all s)
run reset_fired s = reset_position_fires s
run manager_saved s = save_to_manager s
run operator_saved s = done (save_operator s.active_state s)
run cut_out s = cut s
run deselected s = done (clear_selected s)
run refreshed s = done (refresh_states s)
run refresh_fired s = done (refresh_states_fires s)
run (named name) s = update (record s { system_name = name })
run (selected o) s = set_active_state o s
run (dropped_at x y item) s = drop x y item s
run (drawn is_cyclical target source) s =
    connection_noticed s then_run on_connection is_cyclical (to_string target) source
run (removed o) s = remove_state (some o) s
run (disconnected ref endpoint i) s = done (remove_state_connection ref endpoint i s)
run (id_received id) s = done (saved id s)
run (names_received ids) s = done (receive_names ids s)
run (online_received systems) s = done (receive_online systems s)
run (operators_received is_list given shown) s =
    let listed = receive_operators is_list given s in if shown then done listed else thrown listed
run (no_system_received name) s = load_system none name s
run (edited ref e) s = with_objects s (edit_at ref e s.state_objects)

-- The operator can be taken off: if it is on the canvas it is the one there, and it has one target
-- endpoint at most.
pub record IsRemovable (o : Operator) (os : List Operator) : Type 0 where
  pub current : IsCurrent o os
  pub one : AtMostOne (or_nil o.targets [])

-- What is selected, if anything is, can be taken off.
abbrev pub Cuttable : Option Operator → List Operator → Type 0
Cuttable none os = Unit
Cuttable (some o) os = IsRemovable o os

-- What the view and the server let happen: an item whose properties are of known kinds is dropped, a
-- connection is drawn to an endpoint of an operator, what is cut or removed stands on the canvas, and so does
-- what is edited. Left out is the link that removes a value of a list, which can leave a form that `update`
-- fails on (Builder.Forms.Editing.Removal), and the input of files.
abbrev pub Permitted : Event → Scope → Type 0
Permitted (dropped_at x y (some item)) s =
    (is_some (drop_properties s.storage item.properties []) ≡ true) × IsItem item
Permitted (drawn is_cyclical target source) s = LeadsTo s.state_objects (link (to_string target))
Permitted (removed o) s = IsRemovable o s.state_objects
Permitted cut_out s = Cuttable s.active_state s.state_objects
Permitted (edited ref e) s =
    (o : Operator) × (object_at ref s.state_objects ≡ some o) × IsEditable e o.properties
Permitted _ s = Unit

-- Where the handler throws: a connection is drawn and `isCyclical` has no answer, nothing is selected when it is
-- cut, and a list of operators comes before the ribbon can show it.
abbrev pub Fails : Event → Scope → Type 0
Fails (drawn is_cyclical target source) s = (os : List Operator) × (is_cyclical os ≡ none)
Fails cut_out s = s.active_state ≡ none
Fails (operators_received is_list given shown) s = shown ≡ false
Fails _ s = ⊥

-- The scopes of pages: a page begins with nothing on its canvas, or with what an update of another cached;
-- events happen to it, also where their handlers throw; and a system that was on the canvas of some page is
-- loaded.
pub data Reach : Scope → Type 0 where
  opened : (s : Scope) → s.state_objects ≡ [] → Reach s
  reopened :
      (s fresh : Scope) → Reach s → Reach (open_page (record fresh { storage = (cache s).storage }))
  happened : (s : Scope) (e : Event) → Reach s → Permitted e s → Reach (state_of (run e s))
  loaded :
      (s t : Scope) (name : String)
      → Reach s
      → Reach t
      → Reach (state_of (load_system (some t.state_objects) name s))
