-- ===== src/Shell/Relay.antt =====
-- What the shell hands on from the system manager to the system builder, `Unique names` and
-- `Sending online systems` in app.content.js, and what it means for a save.
use de_pipeline_tool.Prelude.{
  ℕ, String, Bool, false, not, ◌&&◌, List, [], ◌∷◌, Option, none, some, ◌==◌, ◌≡◌, refl, ap, ◌∙◌,
  if◌then◌else◌, arith, Bool-cases, inl, inr,
}
use de_pipeline_tool.Builder.Model as BuilderModel
use de_pipeline_tool.Builder.Model.{lookup, insert, lookup-insert}
use de_pipeline_tool.Builder.Scan.{is_id, is_taken, is_system_name}
use de_pipeline_tool.Builder.Session.{receive_names, receive_online, may_save}
use de_pipeline_tool.Monitor.Apps
use de_pipeline_tool.Monitor.Start
use de_pipeline_tool.Manager.Model as ManagerModel
use de_pipeline_tool.Manager.Model.{Entry}
use de_pipeline_tool.Manager.Refresh.{
  visit, visit_all, select_online, merged, begun, refresh_systems,
}

-- The listener of `Unique names`, and the builder's of `SystemNames`.
unfoldable pub relay_names : List (String × Option String) → BuilderModel.Scope → BuilderModel.Scope
relay_names names b = receive_names names b

-- The listener of `Sending online systems`, and the builder's of `Receiving online systems`.
unfoldable pub relay_online : List (Option String) → BuilderModel.Scope → BuilderModel.Scope
relay_online systems b = receive_online systems b

-- What a refresh emits: the online systems for every system of the list, always the same array, and the names
-- once behind them.
unfoldable pub relay_refresh : ManagerModel.Scope → BuilderModel.Scope → BuilderModel.Scope
relay_refresh m b =
    relay_names m.names (elim m.systems [ [] ↦ b | e ∷ es ↦ relay_online m.online_systems b ])

-- The id of the last system of a name.
abbrev pub id_of_last : String → List Entry → Option (Option String)
id_of_last name [] = none
id_of_last name (e ∷ es) = elim (id_of_last name es) [
  | some id ↦ some id
  | none ↦ if e.name == name then some e.uuid else none
]

abbrev otherwise : Option (Option String) → Option (Option String) → Option (Option String)
otherwise (some id) o = some id
otherwise none o = o

added :
    (name : String) (e : Entry) (names : List (String × Option String))
    (later : Option (Option String))
    → otherwise later (lookup name (insert e.name e.uuid names))
      ≡ otherwise
          (elim later [ some id ↦ some id | none ↦ if e.name == name then some e.uuid else none ])
          (lookup name names)
added name e names (some id) = refl
added name e names none = elim (Bool-cases (e.name == name)) [
  | inl here ↦ rw (lookup-insert e.name name e.uuid names, here) refl
  | inr other ↦ rw (lookup-insert e.name name e.uuid names, other) refl
]

visit_all-names :
    (show_time : ℕ → String) (name : String) (es : List Entry) (s : ManagerModel.Scope)
    → lookup name (visit_all show_time es s).names
      ≡ otherwise (id_of_last name es) (lookup name s.names)
unfolding visit_all visit
visit_all-names show_time name [] s = refl
visit_all-names show_time name (e ∷ es) s =
    visit_all-names show_time name es (visit show_time e s)
    ∙ added name e s.names (id_of_last name es)

select_online-names :
    (sort : List Entry → List Entry) (s : ManagerModel.Scope)
    → (select_online sort s).names ≡ s.names
unfolding select_online
select_online-names sort s = ground arith

-- The name belongs to a system of the manager that has another id.
abbrev pub is_claimed : String → Option String → List Entry → Bool
is_claimed name id es = elim (id_of_last name es) [
  | none ↦ false
  | some owner ↦ not (is_id id owner)
]

otherwise-none : (o : Option (Option String)) → otherwise o none ≡ o
otherwise-none none = refl
otherwise-none (some id) = refl

refresh_systems-names :
    (show_time : ℕ → String) (sort : List Entry → List Entry) (xs : List Apps.System)
    (ds : List Start.Descriptor) (m : ManagerModel.Scope) (name : String)
    → lookup name (refresh_systems show_time sort xs ds m).names ≡ id_of_last name (merged xs ds m)
unfolding refresh_systems lookup
refresh_systems-names show_time sort xs ds m name =
    ap (lookup name) (select_online-names sort _)
    ∙ visit_all-names show_time name (merged xs ds m) (begun xs ds m)
    ∙ otherwise-none (id_of_last name (merged xs ds m))

relay_refresh-names :
    (m : ManagerModel.Scope) (b : BuilderModel.Scope)
    → ((relay_refresh m b).system_names_ids ≡ m.names)
      × ((relay_refresh m b).system_name ≡ b.system_name)
      × ((relay_refresh m b).id ≡ b.id)
      × ((relay_refresh m b).build_invalid ≡ b.build_invalid)
unfolding relay_refresh relay_names relay_online receive_names receive_online
relay_refresh-names m b = (ground arith, ground arith, ground arith, ground arith)

is_taken-claimed :
    (ids : List (String × Option String)) (name : String) (id : Option String) (es : List Entry)
    → lookup name ids ≡ id_of_last name es
    → is_taken ids name id ≡ is_claimed name id es
unfolding is_taken
is_taken-claimed ids name id es h =
    ap (λ (o : Option (Option String)). elim o [ none ↦ false | some owner ↦ not (is_id id owner) ])
      h

-- When the manager has refreshed its list and the shell has handed on what it emits, the builder may save
-- exactly if its name is well formed, its build is valid, and the last system of that name on the
-- manager's list, if there is one, has the builder's id.
pub relay_refresh-may_save :
    (show_time : ℕ → String) (sort : List Entry → List Entry) (xs : List Apps.System)
    (ds : List Start.Descriptor) (m : ManagerModel.Scope) (b : BuilderModel.Scope)
    → may_save (relay_refresh (refresh_systems show_time sort xs ds m) b) ≡ (
        is_system_name b.system_name
        && not b.build_invalid
        && not (is_claimed b.system_name b.id (merged xs ds m)))
unfolding may_save
relay_refresh-may_save show_time sort xs ds m b =
    let m' = refresh_systems show_time sort xs ds m in
    let (ids, name, id, invalid) = relay_refresh-names m' b in
    let listed = refresh_systems-names show_time sort xs ds m b.system_name in
    let taken = is_taken-claimed m'.names b.system_name b.id (merged xs ds m) listed in
    rw (ids, name, id, invalid, taken) refl
