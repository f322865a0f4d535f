-- ===== src/Manager/Merge.antt =====
-- The first loop of `refreshSystems` in system-manager.js: the descriptors join the systems.
pub mod Ids
use de_pipeline_tool.Prelude.{
  ℕ, ◌+◌, ◌≤◌, length, String, Bool, true, false, ◌||◌, List, [], ◌∷◌, ◌++◌, Option, none, some,
  ◌≡◌, refl, ◌∙◌, ap, ◌==◌, eq_iff, if◌then◌else◌, arith, contains, contains-append, count,
  count-append, contains-false→count, contains→count,
}
use de_pipeline_tool.Monitor.Start
use de_pipeline_tool.Manager.Model.{Entry, entry_names}

-- The first system of that name takes the descriptor's id.
unfoldable pub give_uuid : Start.Descriptor → List Entry → List Entry
give_uuid d [] = []
give_uuid d (e ∷ es) =
    let rest = e ∷ give_uuid d es in
    if e.name == d.name then record e { uuid = some d.uuid } ∷ es else rest

abbrev pub offline_entry : ℕ → Start.Descriptor → Entry
offline_entry n d = record {
  ref = n;
  name = d.name;
  uuid = some d.uuid;
  id = none;
  properties = none;
  class = none;
  start_time = "";
  end_time = "";
}

-- A descriptor whose name is not on the list becomes a system; objects are numbered from `n`.
unfoldable pub merge_one : ℕ → Start.Descriptor → List Entry → List Entry
merge_one n d es =
    if contains (entry_names es) d.name then give_uuid d es else es ++ offline_entry n d ∷ []

unfoldable pub merge_all : ℕ → List Start.Descriptor → List Entry → List Entry
merge_all n [] es = es
merge_all n (d ∷ ds) es = merge_all (n + 1) ds (merge_one n d es)

abbrev pub descriptor_names : List Start.Descriptor → List String
descriptor_names [] = []
descriptor_names (d ∷ ds) = d.name ∷ descriptor_names ds

give_uuid-names :
    (d : Start.Descriptor) (es : List Entry) → entry_names (give_uuid d es) ≡ entry_names es
unfolding give_uuid
give_uuid-names d [] = refl
give_uuid-names d (e ∷ es) = ground (arith, give_uuid-names d es)

entry_names-append :
    (xs ys : List Entry) → entry_names (xs ++ ys) ≡ entry_names xs ++ entry_names ys
entry_names-append [] ys = refl
entry_names-append (x ∷ xs) ys = ap (λ l. x.name ∷ l) (entry_names-append xs ys)

-- How often a name is to be on the list: once, if a system or a descriptor has it.
abbrev pub once : Bool → ℕ
once b = if b then 1 else 0

merge_one-count :
    (n : ℕ) (d : Start.Descriptor) (es : List Entry) (a : String)
    → count a (entry_names es) ≤ 1
    → count a (entry_names (merge_one n d es)) ≡ once (contains (entry_names es) a || d.name == a)
unfolding merge_one
merge_one-count n d es a h = ground (
  arith,
  give_uuid-names d es,
  entry_names-append es (offline_entry n d ∷ []),
  count-append a (entry_names es) (d.name ∷ []),
  contains-false→count a (entry_names es),
  contains→count a (entry_names es),
  eq_iff d.name a,
)

count→contains :
    (a : String) (xs : List String) (b : Bool) → count a xs ≡ once b → contains xs a ≡ b
count→contains a xs true h = ground (arith, contains-false→count a xs)
count→contains a xs false h = ground (arith, contains→count a xs)

-- The list after the loop has each name once that a system or a descriptor has.
pub merge_all-count :
    (n : ℕ) (ds : List Start.Descriptor) (es : List Entry) (a : String)
    → count a (entry_names es) ≤ 1
    → count a (entry_names (merge_all n ds es))
      ≡ once (contains (entry_names es) a || contains (descriptor_names ds) a)
unfolding merge_all
merge_all-count n [] es a h =
    ground (arith, contains-false→count a (entry_names es), contains→count a (entry_names es))
merge_all-count n (d ∷ ds) es a h =
    let e = merge_one-count n d es a h in
    let c = count→contains a _ _ e in
    let k = merge_all-count (n + 1) ds (merge_one n d es) a (ground arith) in ground (arith, c, k)
