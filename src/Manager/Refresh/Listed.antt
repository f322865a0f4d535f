-- ===== src/Manager/Refresh/Listed.antt =====
-- What `refreshSystems` lists: the systems, and those that are online.
use de_pipeline_tool.Prelude.{
  none, some, Bool, false, eq_iff, ℕ, ◌+◌, ◌≤◌, length, String, ◌||◌, List, [], ◌∷◌, ◌++◌,
  append_assoc, append-nil, Option, ◌≡◌, refl, ◌∙◌, sym, ap, if◌then◌else◌, arith, contains, count,
}
use de_pipeline_tool.Monitor.Apps
use de_pipeline_tool.Monitor.Apps.{App}
use de_pipeline_tool.Monitor.Start
use de_pipeline_tool.Manager.Model.{Entry, Scope, entry_names, entries_of}
use de_pipeline_tool.Manager.Merge.{descriptor_names, once, merge_all-count}
use de_pipeline_tool.Manager.Refresh.{
  runs, visited, visit, visit_all, visited_all, select_online, merged, begun, refresh_systems,
}

-- The states of an application that YARN runs or is about to run.
abbrev pub running_states : List String
running_states = "RUNNING" ∷ "ACCEPTED" ∷ "SUBMITTED" ∷ []

abbrev pub has_state : List String → Option App → Bool
has_state states none = false
has_state states (some a) = contains states a.state

-- The ids of the systems that run.
abbrev pub online_ids : List Entry → List (Option String)
online_ids [] = []
online_ids (e ∷ es) =
    let rest = online_ids es in
    if has_state running_states e.properties then e.uuid ∷ rest else rest

pub runs-has_state : (p : Option App) → runs p ≡ has_state running_states p
unfolding runs
runs-has_state none = refl
runs-has_state (some a) = ground (
  arith,
  eq_iff a.state "RUNNING",
  eq_iff a.state "ACCEPTED",
  eq_iff a.state "SUBMITTED",
  eq_iff "RUNNING" a.state,
  eq_iff "ACCEPTED" a.state,
  eq_iff "SUBMITTED" a.state,
)

abbrev pub system_names : List Apps.System → List String
system_names [] = []
system_names (x ∷ xs) = x.name ∷ system_names xs

entries_of-names : (n : ℕ) (xs : List Apps.System) → entry_names (entries_of n xs) ≡ system_names xs
entries_of-names n [] = refl
entries_of-names n (x ∷ xs) = ap (λ l. x.name ∷ l) (entries_of-names (n + 1) xs)

visited_all-names :
    (show_time : ℕ → String) (es : List Entry) (s : Scope)
    → entry_names (visited_all show_time es s) ≡ entry_names es
unfolding visited_all visited
visited_all-names show_time [] s = refl
visited_all-names show_time (e ∷ es) s =
    ap (λ l. e.name ∷ l) (visited_all-names show_time es (visit show_time e s))

visit_all-online :
    (show_time : ℕ → String) (es : List Entry) (s : Scope)
    → (visit_all show_time es s).online_systems ≡ s.online_systems ++ online_ids es
unfolding visit_all visit
visit_all-online show_time [] s = sym (append-nil s.online_systems)
visit_all-online show_time (e ∷ es) s =
    let k = visit_all-online show_time es (visit show_time e s) in
    let a = append_assoc s.online_systems (e.uuid ∷ []) (online_ids es) in
    ground (arith, k, a, runs-has_state e.properties)

select_online-online :
    (sort : List Entry → List Entry) (s : Scope)
    → (select_online sort s).online_systems ≡ s.online_systems
unfolding select_online
select_online-online sort s = ground arith

module _ (show_time : ℕ → String) (sort : List Entry → List Entry) where
  -- Behind a refresh the list of online systems, which the builder gets, has the ids of exactly the
  -- systems on the list whose application is running, accepted or submitted, in their order.
  pub refresh_systems-online :
      (xs : List Apps.System) (ds : List Start.Descriptor) (s : Scope)
      → (refresh_systems show_time sort xs ds s).online_systems ≡ online_ids (merged xs ds s)
  unfolding refresh_systems
  refresh_systems-online xs ds s =
      select_online-online sort _ ∙ visit_all-online show_time (merged xs ds s) (begun xs ds s)

  select_online-count :
      (s : Scope) (a : String)
      → ((es : List Entry) → count a (entry_names (sort es)) ≡ count a (entry_names es))
      → count a (entry_names (select_online sort s).systems) ≡ count a (entry_names s.systems)
  unfolding select_online
  select_online-count s a h = ground (arith, h s.systems)

  -- If `sort` moves systems only and MonitorData lists no name twice, a refresh lists each name once
  -- that a system of MonitorData or a descriptor has, and no other.
  pub refresh_systems-count :
      (xs : List Apps.System) (ds : List Start.Descriptor) (s : Scope) (a : String)
      → ((es : List Entry) → count a (entry_names (sort es)) ≡ count a (entry_names es))
      → count a (system_names xs) ≤ 1
      → count a (entry_names (refresh_systems show_time sort xs ds s).systems)
        ≡ once (contains (system_names xs) a || contains (descriptor_names ds) a)
  unfolding refresh_systems
  refresh_systems-count xs ds s a h single =
      let e = entries_of-names s.next_ref xs in
      let k =
        merge_all-count (s.next_ref + length xs) ds (entries_of s.next_ref xs) a (rw e single) in
      select_online-count _ a h
      ∙ ap (count a) (visited_all-names show_time (merged xs ds s) (begun xs ds s))
      ∙ k
      ∙ ap (λ l. once (contains l a || contains (descriptor_names ds) a)) e
