-- ===== src/Monitor/Apps.antt =====
-- `getAppListSocket.onMessage`: of the applications that the cluster knows, the latest run of each
-- name becomes a system, if the name is that of a descriptor or the run is on.
pub mod Latest
use de_pipeline_tool.Prelude.{
  ℕ, ◌<◌, String, Bool, true, false, ◌&&◌, ◌||◌, List, [], ◌∷◌, Option, none, some, ◌==◌,
  if◌then◌else◌, ltb, eqb, contains,
}
use de_pipeline_tool.Builder.Model.{lookup, insert}

-- An application of the answer. Its start comes as text and is read here as the number that it shows;
-- the script compares the texts, which is the same order where they have as many digits.
pub record App : Type 0 where
  pub id : String
  pub name : String
  pub state : String
  pub started_time : ℕ
  pub finished_time : ℕ

-- An entry of `ret.systems`.
pub record System : Type 0 where
  pub name : String
  pub online : Bool
  pub error : Bool
  pub id : String
  pub state : String
  pub properties : App

-- `!nameMap[name] || nameMap[name] < startedTime`; the number zero counts apps absent.
unfoldable pub is_later : Option ℕ → ℕ → Bool
is_later none t = true
is_later (some n) t = eqb n 0 || ltb n t

-- The first loop: the latest start for each name.
unfoldable pub note_start : App → List (String × ℕ) → List (String × ℕ)
note_start a m =
    if is_later (lookup a.name m) a.started_time then insert a.name a.started_time m else m

unfoldable pub name_map : List App → List (String × ℕ) → List (String × ℕ)
name_map [] m = m
name_map (a ∷ apps) m = name_map apps (note_start a m)

unfoldable pub state_name : String → String
state_name s =
    if s == "RUNNING"
    then "online"
    else if s == "PENDING" || s == "FINISHED" || s == "KILLED"
    then "idle"
    else if s == "FAILED"
    then "error"
    else "warning"

abbrev pub system_of : App → System
system_of a = record {
  name = a.name;
  online = a.state == "RUNNING";
  error = a.state == "FAILED";
  id = a.id;
  state = state_name a.state;
  properties = a;
}

abbrev pub is_start : Option ℕ → ℕ → Bool
is_start none t = false
is_start (some n) t = eqb t n

-- The test of the second loop.
unfoldable pub is_shown : List String → List (String × ℕ) → App → Bool
is_shown desc_names m a =
    (contains desc_names a.name || a.state == "RUNNING")
    && is_start (lookup a.name m) a.started_time

unfoldable pub shown : List String → List (String × ℕ) → List App → List System
shown desc_names m [] = []
shown desc_names m (a ∷ apps) =
    let rest = shown desc_names m apps in
    if is_shown desc_names m a then system_of a ∷ rest else rest

-- The systems for an answer of the cluster.
unfoldable pub systems_of : List String → List App → List System
systems_of desc_names apps = shown desc_names (name_map apps []) apps
