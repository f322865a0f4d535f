-- ===== src/Builder/Session.antt =====
-- The rest of system-builder.controller.js that changes the scope: `update`, the hot keys with
-- `saveOperator`, `saveToManager`, the operator list, and the messages that come in.
pub mod Saving
pub mod Store
pub mod Page
pub mod Returns
pub mod Whole
pub mod Dropping
pub mod Watch
use de_pipeline_tool.Prelude.{
  ℕ, zero, suc, ◌+◌, length, String, Bool, true, false, not, ◌&&◌, ◌||◌, List, [], ◌∷◌, ◌++◌,
  Option, none, some, ◌==◌, if◌then◌else◌, or_nil, eqb, is_some, Outcome, done, thrown, ◌then_run◌,
}
use de_pipeline_tool.Builder.Model.{
  OperatorType, input, output, parser, enrichment, mapping, binary_input, binary_output, other,
  Property, Value, items, Validation, Operator, Category, Descriptor, Scope, Storage, lookup,
}
use de_pipeline_tool.Builder.Json.{update_json}
use de_pipeline_tool.Builder.Streams.{update_connections}
use de_pipeline_tool.Builder.Forms.{parse_invalid_text}
use de_pipeline_tool.Builder.Scan.{is_system_name, is_taken}
use de_pipeline_tool.Builder.Check.{validate_all}
use de_pipeline_tool.Builder.Canvas.{remove_state}

-- The last category, which holds the stored operators.
unfoldable pub last_operators : List Category → List Operator
last_operators [] = []
last_operators (c ∷ []) = c.operators
last_operators (c ∷ d ∷ cs) = last_operators (d ∷ cs)

-- The first part of `update`: the cache takes the scope. (It takes the arrays themselves, which matters to who reads
-- the cache between two updates; the page reads it only when it is opened. The list of categories is never
-- empty, so there is a last one.)
unfoldable pub cache : Scope → Scope
cache s = record s {
  storage = record s.storage {
    system_name = s.system_name;
    state_objects = some s.state_objects;
    zoomlevel = s.zoomlevel;
    id = s.id;
    old_zoom = s.old_zoom;
    online_systems = s.online_systems;
    saved_operators = elim s.operator_list [
      | none ↦ s.storage.saved_operators
      | some cs ↦ some (last_operators cs)
    ];
  };
}

-- `update`, which the view and the watch on `stateObjects` call after every change.
unfoldable pub update : Scope → Outcome Scope
update s =
    ((update_json (cache s) then_run update_connections) then_run validate_all) then_run λ s'.
    done (parse_invalid_text s')

-- The callback of `resetPosition`: its geometry is left out, and then it updates.
unfoldable pub reset_position_fires : Scope → Outcome Scope
reset_position_fires s = elim s.pending_resets [
  | zero ↦ done s
  | suc n ↦ update (record s { old_zoom = s.zoomlevel; pending_resets = n })
]

-- `setActiveState`
unfoldable pub set_active_state : Option Operator → Scope → Outcome Scope
set_active_state o s = update (record s { active_state = o })

-- `saveToManager`: what it sends, if the name is well formed and free, and the build is valid.
unfoldable pub may_save : Scope → Bool
may_save s =
    is_system_name s.system_name
    && not s.build_invalid
    && not (is_taken s.system_names_ids s.system_name s.id)

abbrev pub send : Scope → Scope
send s = elim s.descriptor [ none ↦ s | some d ↦ record s { sent = s.sent ++ d ∷ [] } ]

unfoldable pub save_to_manager : Scope → Outcome Scope
save_to_manager s =
    if may_save s
    then ((update_json s then_run update_connections) then_run λ s'. done (send s'))
    else done s

-- The loop of `saveOperator`: the first stored operator of that name is replaced, or the copy is
-- pushed.
unfoldable pub store : Operator → List Operator → List Operator
store copy [] = copy ∷ []
store copy (o ∷ os) =
    let rest = o ∷ store copy os in if o.name == copy.name then copy ∷ os else rest

unfoldable pub store_last : Operator → List Category → List Category
store_last copy [] = []
store_last copy (c ∷ []) = record c { operators = store copy c.operators } ∷ []
store_last copy (c ∷ d ∷ cs) = c ∷ store_last copy (d ∷ cs)

-- `saveOperator`: the copy is a new object.
unfoldable pub save_operator : Option Operator → Scope → Scope
save_operator none s = s
save_operator (some o) s = elim s.operator_list [
  | none ↦ s
  | some cs ↦ record s {
    operator_list = some (store_last (record o { ref = s.next_ref }) cs);
    next_ref = s.next_ref + 1;
  }
]

-- The hot key for cutting.
unfoldable pub cut : Scope → Outcome Scope
cut s = remove_state s.active_state (save_operator s.active_state s)

-- `dataStream.onMessage`: a property of a list kind begins with one empty element; a type goes to
-- the first category that matches it.
unfoldable pub begin_lists : (Property → Bool) → List Property → List Property
begin_lists is_list [] = []
begin_lists is_list (p ∷ ps) =
    (if is_list p then record p { value = items (some "" ∷ []) } else p) ∷ begin_lists is_list ps

unfoldable pub same_type : OperatorType → OperatorType → Bool
same_type input input = true
same_type output output = true
same_type parser parser = true
same_type enrichment enrichment = true
same_type mapping mapping = true
same_type binary_input binary_input = true
same_type binary_output binary_output = true
same_type (other s) (other t) = s == t
same_type _ _ = false

abbrev matches : Operator → Category → Bool
matches o c = elim c.match_name [
  | none ↦ false
  | some t ↦ not (c.name == "Stored Operators") && same_type o.type t
]

unfoldable pub classify : Operator → List Category → List Category
classify o [] = []
classify o (c ∷ cs) =
    let rest = c ∷ classify o cs in
    if matches o c then record c { operators = c.operators ++ o ∷ [] } ∷ cs else rest

unfoldable pub classify_all : List Operator → List Category → List Category
classify_all [] cs = cs
classify_all (o ∷ os) cs = classify_all os (classify o cs)

abbrev category : String → Option OperatorType → List Operator → Category
category name match operators = record { name = name; match_name = match; operators = operators }

unfoldable pub empty_categories : List Operator → List Operator → List Category
empty_categories all stored =
    category "All" none all
    ∷ category "Input" (some input) []
    ∷ category "Binary Input" (some binary_input) []
    ∷ category "Parsers" (some parser) []
    ∷ category "Mappings" (some mapping) []
    ∷ category "Enrichments" (some enrichment) []
    ∷ category "Output" (some output) []
    ∷ category "Binary Output" (some binary_output) []
    ∷ category "Stored Operators" none stored
    ∷ []

unfoldable pub begin_all : (Property → Bool) → List Operator → List Operator
begin_all is_list [] = []
begin_all is_list (o ∷ os) =
    record o { properties = begin_lists is_list o.properties } ∷ begin_all is_list os

-- `is_list` is the flag `list` that the metadata gives a property.
unfoldable pub receive_operators : (Property → Bool) → List Operator → Scope → Scope
receive_operators is_list given s =
    let all = begin_all is_list given in
    record s {
      operator_list =
          some (classify_all all (empty_categories all (or_nil s.storage.saved_operators [])));
    }

-- `saveStream.onMessage`
unfoldable pub saved : Option String → Scope → Scope
saved id s = record s { id = id; storage = record s.storage { id = id } }

-- The broadcasts that set the names and the online systems.
unfoldable pub receive_names : List (String × Option String) → Scope → Scope
receive_names ids s = record s { system_names_ids = ids }

unfoldable pub receive_online : List (Option String) → Scope → Scope
receive_online systems s = record s { online_systems = systems }

-- The notice of a connection: everything is written anew.
unfoldable pub connection_noticed : Scope → Outcome Scope
connection_noticed s = (update_json s then_run update_connections) then_run λ s'.
    done (record s' { refreshing = true })
