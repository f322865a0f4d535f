-- ===== src/Manager/Model.antt =====
-- The data of system-manager.js: the systems on display, and the scope of the controller.
use de_pipeline_tool.Prelude.{
  ℕ, ◌+◌, String, Bool, true, false, ◌||◌, List, [], ◌∷◌, Option, none, some, ◌==◌, if◌then◌else◌,
  eqb,
}
use de_pipeline_tool.Monitor.Apps
use de_pipeline_tool.Monitor.Apps.{App}

-- `system.class`: `created` stands for 'new', and `errored` for 'error'.
pub data Class : Type 0 where
  online created errored offline launching killing : Class

-- A system on the list. `ref` is the identity of the object. A system that never ran has no
-- application of the cluster: its `properties` have no state and no times.
pub record Entry : Type 0 where
  pub ref : ℕ
  pub name : String
  pub uuid : Option String
  pub id : Option String
  pub properties : Option App
  pub class : Option Class
  pub start_time : String
  pub end_time : String

-- What goes out: the requests on the websocket, and the calls of `MonitorData.start`, where `none`
-- is `undefined`.
pub data Request : Type 0 where
  deploy_system kill_system delete_system monitor_start : Option String → Request

pub record Scope : Type 0 where
  pub active : Option Entry
  pub active_uuid : Option String
  pub active_properties : List (List (String × String))
  pub running_system : List (Option String)
  pub killing_system : List String
  pub online_systems : List (Option String)
  pub names : List (String × Option String)
  pub systems : List Entry
  pub monitoring : Bool
  pub down : Bool
  pub log_page : ℕ
  pub next_ref : ℕ
  pub requests : List Request

-- `===` on texts that may be undefined.
abbrev pub same : Option String → Option String → Bool
same none none = true
same (some s) (some t) = s == t
same _ _ = false

-- `xs.indexOf(x) > -1`
abbrev pub has : List (Option String) → Option String → Bool
has [] a = false
has (x ∷ xs) a = same x a || has xs a

-- `xs.splice(xs.indexOf(x), 1)` where `x` occurs.
abbrev pub drop_first : Option String → List (Option String) → List (Option String)
drop_first a [] = []
drop_first a (x ∷ xs) = let rest = x ∷ drop_first a xs in if same x a then xs else rest

-- `xs.splice(-1, 1)`: the last element goes.
abbrev pub drop_last {ℓ} : {A : Type ℓ} → List A → List A
drop_last [] = []
drop_last (x ∷ []) = []
drop_last (x ∷ y ∷ ys) = x ∷ drop_last (y ∷ ys)

-- The object of a system that MonitorData lists.
abbrev pub entry_of : ℕ → Apps.System → Entry
entry_of n x = record {
  ref = n;
  name = x.name;
  uuid = none;
  id = some x.id;
  properties = some x.properties;
  class = none;
  start_time = "";
  end_time = "";
}

abbrev pub entries_of : ℕ → List Apps.System → List Entry
entries_of n [] = []
entries_of n (x ∷ xs) = entry_of n x ∷ entries_of (n + 1) xs

abbrev pub entry_names : List Entry → List String
entry_names [] = []
entry_names (e ∷ es) = e.name ∷ entry_names es

-- An assignment to `system.class`, which every reference to the object sees.
abbrev pub with_class : ℕ → Class → Entry → Entry
with_class ref c e = if eqb e.ref ref then record e { class = some c } else e

abbrev pub with_class_all : ℕ → Class → List Entry → List Entry
with_class_all ref c [] = []
with_class_all ref c (e ∷ es) = with_class ref c e ∷ with_class_all ref c es

abbrev pub set_class : ℕ → Class → Scope → Scope
set_class ref c s = record s {
  systems = with_class_all ref c s.systems;
  active = elim s.active [ none ↦ none | some e ↦ some (with_class ref c e) ];
}
