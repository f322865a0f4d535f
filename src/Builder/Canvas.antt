-- ===== src/Builder/Canvas.antt =====
-- The operations of system-builder.controller.js on the canvas: `drop`, `removeAll`, `removeState`,
-- `removeAllConnections`, `removeStateConnection`, `onConnection`, and the numbers of endpoints.
pub mod Dropping
pub mod Sweeping
use de_pipeline_tool.Prelude.{
  ℕ, zero, suc, ◌+◌, String, Bool, true, false, ◌&&◌, ◌||◌, List, [], ◌∷◌, ◌++◌, Option, none, some,
  ◌==◌, if◌then◌else◌, or_nil, ◌⁺◌, to_string, parses_to, remove_at, replicate, eqb, is_some,
  Outcome, done, thrown, ◌then_run◌,
}
use de_pipeline_tool.Builder.Model.{
  Validation, Value, absent, text, items, Property, Field, Connection, Source, Target, Operator,
  Scope, Storage, insert,
}
use Prim.Native.String
use de_pipeline_tool.Builder.Json.{update_json}
use de_pipeline_tool.Builder.Streams.{update_connections}
use de_pipeline_tool.Builder.Forms.{find_validation}
use de_pipeline_tool.Builder.Scan.{is_input, is_output}
use de_pipeline_tool.Builder.Check.{validate_all}

-- `getNextUUID`
unfoldable pub next_uuid : Storage → Storage × ℕ
next_uuid st = (record st { last_uuid = st.last_uuid + 1 }, st.last_uuid + 1)

abbrev pub flag : Bool → Field
flag invalid = record { invalid = invalid; filename_invalid = none }

-- The entries for the elements of a list from number `j`; a missing element is wrong if it is
-- required.
unfoldable pub element_fields :
    String → Bool → ℕ → List (Option String) → List (String × Field) → List (String × Field)
element_fields name required j [] fs = fs
element_fields name required j (x ∷ xs) fs =
    element_fields name required (j + 1) xs
      (insert (name ⁺ to_string j) (flag (if is_some x then false else required)) fs)

-- What `angular.forEach` walks over: of a text, its characters.
abbrev pub elements : Value → List (Option String)
elements absent = []
elements (text s) = replicate (String.count s) (some "")
elements (items xs) = xs

-- `property.value` in a condition: the empty text counts as absent.
abbrev pub is_present : Value → Bool
is_present absent = false
is_present (text s) = if s == "" then false else true
is_present (items xs) = true

abbrev pub is_absent : Value → Bool
is_absent absent = true
is_absent _ = false

-- The entries of a form for one property.
unfoldable pub property_fields :
    Property → Validation → List (String × Field) → List (String × Field)
property_fields p v fs =
    if v.list
    then if is_present p.value
      then element_fields p.name p.required 0 (elements p.value) fs
      else insert (p.name ⁺ "0") (flag p.required) fs
    else if v.input_kind == "fileInput"
    then insert p.name
        (record {
          invalid = is_absent p.value && p.required;
          filename_invalid = some (if is_some p.filename_field then false else p.required);
        })
        fs
    else insert p.name (flag (is_absent p.value && p.required)) fs

-- The loop over the properties: each gets its validation. A kind with no validation throws.
unfoldable pub drop_properties :
    Storage → List Property → List (String × Field) → Option (List Property × List (String × Field))
drop_properties st [] fs = some ([], fs)
drop_properties st (p ∷ ps) fs = elim (find_validation st p.kind) [
  | none ↦ none
  | some v ↦ elim (drop_properties st ps (property_fields p v fs)) [
    | none ↦ none
    | some (ps', fs') ↦ some (record p { validation = some v } ∷ ps', fs')
  ]
]

abbrev new_source : ℕ → Option (List Source)
new_source n = some (record { uuid = n; connections = none } ∷ [])

abbrev new_target : ℕ → Option (List Target)
new_target n = some (record { uuid = n } ∷ [])

-- The endpoints by type. An operator in the middle takes a number for its source, then one for its
-- target.
abbrev with_source : Storage × ℕ → Operator → Storage × Operator
with_source (st, n) o = (st, record o { sources = new_source n })

abbrev with_target : Storage × ℕ → Operator → Storage × Operator
with_target (st, n) o = (st, record o { targets = new_target n })

abbrev with_both : Storage × ℕ → Operator → Storage × Operator
with_both (st, n) o = with_target (next_uuid st) (record o { sources = new_source n })

unfoldable pub with_endpoints : Storage → Operator → Storage × Operator
with_endpoints st o =
    if is_input o.type
    then with_source (next_uuid st) o
    else if is_output o.type
    then with_target (next_uuid st) o
    else with_both (next_uuid st) o

-- The object that is pushed: the dragged item, extended.
unfoldable pub dropped :
    Scope → (x y : ℕ) → Operator → List Property → List (String × Field) → Storage × Operator
dropped s x y item ps fs = with_endpoints s.storage (record item {
  ref = s.next_ref;
  properties = ps;
  x = x;
  y = y;
  form = some (record { invalid = true; operator_name_invalid = false; fields = fs });
})

unfoldable pub add_operator : Scope → Storage × Operator → Scope
add_operator s (st, o) = record s {
  state_objects = s.state_objects ++ o ∷ [];
  next_ref = s.next_ref + 1;
  storage = st;
}

-- `drop`. The item is parsed from the drag's text; `none` is the object with no keys.
unfoldable pub drop : (x y : ℕ) → Option Operator → Scope → Outcome Scope
drop x y none s = done s
drop x y (some item) s = elim (drop_properties s.storage item.properties []) [
  | none ↦ thrown s
  | some (ps, fs) ↦ update_json (add_operator s (dropped s x y item ps fs)) then_run validate_all
]

-- `removeAll`. The callback of `resetPosition` is still to come.
unfoldable pub remove_all : Scope → Scope
remove_all s = record s {
  state_objects = [];
  active_state = none;
  descriptor = none;
  build_invalid = true;
  system_name = "";
  zoomlevel = 30;
  old_zoom = 30;
  id = some "";
  pending_resets = s.pending_resets + 1;
}

-- `parseInt(connection.uuid)` is one of the numbers.
unfoldable pub is_hit : List Target → Connection → Bool
is_hit [] c = false
is_hit (t ∷ ts) c = parses_to c.uuid t.uuid || is_hit ts c

-- The loop over a source's connections. It removes in the array that it walks over, so that the
-- connection behind a removed one is passed by.
unfoldable pub sweep : List Target → List Connection → List Connection
sweep gone [] = []
sweep gone (c ∷ []) = if is_hit gone c then [] else c ∷ []
sweep gone (c ∷ d ∷ cs) =
    let passed = d ∷ sweep gone cs in
    let kept = c ∷ sweep gone (d ∷ cs) in if is_hit gone c then passed else kept

abbrev pub map_option {ℓ} : {A : Type ℓ} → (A → A) → Option A → Option A
map_option f none = none
map_option f (some a) = some (f a)

unfoldable pub sweep_sources : List Target → List Source → List Source
sweep_sources gone [] = []
sweep_sources gone (s ∷ ss) =
    record s { connections = map_option (sweep gone) s.connections } ∷ sweep_sources gone ss

unfoldable pub sweep_operators : List Target → List Operator → List Operator
sweep_operators gone [] = []
sweep_operators gone (o ∷ os) =
    record o { sources = map_option (sweep_sources gone) o.sources } ∷ sweep_operators gone os

-- `removeAllConnections`: with no targets there is nothing to look for.
unfoldable pub remove_all_connections : Operator → List Operator → List Operator
remove_all_connections removed os = sweep_operators (or_nil removed.targets []) os

-- `stateObjects.splice(stateObjects.indexOf(state), 1)`, where it is there.
unfoldable pub without : ℕ → List Operator → List Operator
without ref [] = []
without ref (o ∷ os) = let rest = o ∷ without ref os in if eqb o.ref ref then os else rest

abbrev pub is_there : ℕ → List Operator → Bool
is_there ref [] = false
is_there ref (o ∷ os) = eqb o.ref ref || is_there ref os

abbrev is_active : ℕ → Option Operator → Bool
is_active ref none = false
is_active ref (some a) = eqb a.ref ref

-- `removeState`. With nothing to remove, as the hot key for cutting may ask, it throws.
unfoldable pub remove_state : Option Operator → Scope → Outcome Scope
remove_state none s = thrown s
remove_state (some o) s =
    let s₁ : Scope = record s {
      state_objects = remove_all_connections o (without o.ref s.state_objects);
      active_state =
          if is_there o.ref s.state_objects && is_active o.ref s.active_state
          then none
          else s.active_state;
    } in
    (update_json s₁ then_run update_connections) then_run λ s₂.
    done (record s₂ { refreshing = true })

-- `removeStateConnection`: one connection of a source endpoint, by its number.
unfoldable pub cut_connection : ℕ → Source → Source
cut_connection i s = record s { connections = map_option (λ cs. remove_at cs i) s.connections }

unfoldable pub cut_at : (endpoint i : ℕ) → List Source → List Source
cut_at endpoint i [] = []
cut_at zero i (s ∷ ss) = cut_connection i s ∷ ss
cut_at (suc endpoint) i (s ∷ ss) = s ∷ cut_at endpoint i ss

unfoldable pub cut_in : (ref endpoint i : ℕ) → List Operator → List Operator
cut_in ref endpoint i [] = []
cut_in ref endpoint i (o ∷ os) =
    let rest = o ∷ cut_in ref endpoint i os in
    if eqb o.ref ref
    then record o { sources = map_option (cut_at endpoint i) o.sources } ∷ os
    else rest

-- The view calls it with numbers of an endpoint and of a connection that are there.
unfoldable pub remove_state_connection : (ref endpoint i : ℕ) → Scope → Scope
remove_state_connection ref endpoint i s = record s {
  state_objects = cut_in ref endpoint i s.state_objects;
  refreshing = true;
}
