-- ===== src/Manager/Merge/Ids.antt =====
-- The ids that the descriptors give to the systems in `refreshSystems`.
use de_pipeline_tool.Prelude.{
  ℕ, ◌+◌, String, true, false, List, [], ◌∷◌, ◌++◌, Option, none, some, ◌≡◌, refl, sym, ◌==◌,
  eq_iff, if◌then◌else◌, arith, contains,
}
use de_pipeline_tool.Monitor.Start
use de_pipeline_tool.Manager.Model.{Entry, entry_names}
use de_pipeline_tool.Manager.Merge.{give_uuid, offline_entry, merge_one, merge_all}

-- The id of the first system of a name, if there is one.
abbrev pub uuid_of : String → List Entry → Option (Option String)
uuid_of a [] = none
uuid_of a (e ∷ es) = let rest = uuid_of a es in if e.name == a then some e.uuid else rest

-- The id of the last descriptor of a name, or `before`.
abbrev pub last_id :
    String → List Start.Descriptor → Option (Option String) → Option (Option String)
last_id a [] before = before
last_id a (d ∷ ds) before = last_id a ds (if d.name == a then some (some d.uuid) else before)

give_uuid-uuid_of :
    (a : String) (d : Start.Descriptor) (es : List Entry)
    → contains (entry_names es) d.name ≡ true
    → uuid_of a (give_uuid d es) ≡ (if d.name == a then some (some d.uuid) else uuid_of a es)
unfolding give_uuid
give_uuid-uuid_of a d [] h = cc
give_uuid-uuid_of a d (e ∷ es) h =
    ground (arith, give_uuid-uuid_of a d es, eq_iff e.name d.name, eq_iff e.name a, eq_iff d.name a)

uuid_of-absent :
    (a : String) (es : List Entry) → contains (entry_names es) a ≡ false → uuid_of a es ≡ none
uuid_of-absent a [] h = refl
uuid_of-absent a (e ∷ es) h = ground (arith, uuid_of-absent a es)

uuid_of-append :
    (a : String) (n : ℕ) (d : Start.Descriptor) (es : List Entry)
    → contains (entry_names es) d.name ≡ false
    → uuid_of a (es ++ offline_entry n d ∷ [])
      ≡ (if d.name == a then some (some d.uuid) else uuid_of a es)
uuid_of-append a n d [] h = refl
uuid_of-append a n d (e ∷ es) h =
    ground (arith, uuid_of-append a n d es, eq_iff e.name d.name, eq_iff e.name a, eq_iff d.name a)

merge_one-uuid_of :
    (a : String) (n : ℕ) (d : Start.Descriptor) (es : List Entry)
    → uuid_of a (merge_one n d es) ≡ (if d.name == a then some (some d.uuid) else uuid_of a es)
unfolding merge_one
merge_one-uuid_of a n d es = ground (arith, give_uuid-uuid_of a d es, uuid_of-append a n d es)

-- Behind the loop the first system of a name has the id of the last descriptor of that name; if
-- there is none, it has the id it had.
pub merge_all-uuid_of :
    (a : String) (n : ℕ) (ds : List Start.Descriptor) (es : List Entry)
    → uuid_of a (merge_all n ds es) ≡ last_id a ds (uuid_of a es)
unfolding merge_all
merge_all-uuid_of a n [] es = refl
merge_all-uuid_of a n (d ∷ ds) es =
    let k = merge_all-uuid_of a (n + 1) ds (merge_one n d es) in
    rw (sym (merge_one-uuid_of a n d es)) k
