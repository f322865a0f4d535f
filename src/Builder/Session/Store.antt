-- ===== src/Builder/Session/Store.antt =====
-- What `saveOperator` of system-builder.controller.js does to the stored operators.
use de_pipeline_tool.Prelude.{
  ◌+◌, String, List, [], ◌∷◌, Option, none, some, ◌≡◌, refl, ◌==◌, eq_iff, if◌then◌else◌, arith,
  contains, count,
}
use de_pipeline_tool.Builder.Model.{Operator, Category, Scope}
use de_pipeline_tool.Builder.Session.{last_operators, store, store_last, save_operator}

-- The first operator of a name.
abbrev pub named : String → List Operator → Option Operator
named a [] = none
named a (o ∷ os) = let rest = named a os in if o.name == a then some o else rest

abbrev pub operator_names : List Operator → List String
operator_names [] = []
operator_names (o ∷ os) = o.name ∷ operator_names os

store-named :
    (a : String) (copy : Operator) (os : List Operator)
    → named a (store copy os) ≡ (if copy.name == a then some copy else named a os)
unfolding store
store-named a copy [] = refl
store-named a copy (o ∷ os) =
    ground
      (arith, store-named a copy os, eq_iff o.name copy.name, eq_iff o.name a, eq_iff copy.name a)

store-count :
    (a : String) (copy : Operator) (os : List Operator)
    → count a (operator_names (store copy os))
      ≡ count a (operator_names os)
        + (if contains (operator_names os) copy.name then 0 else if copy.name == a then 1 else 0)
unfolding store
store-count a copy [] = ground arith
store-count a copy (o ∷ os) =
    ground
      (arith, store-count a copy os, eq_iff o.name copy.name, eq_iff o.name a, eq_iff copy.name a)

store_last-last :
    (copy : Operator) (c : Category) (cs : List Category)
    → last_operators (store_last copy (c ∷ cs)) ≡ store copy (last_operators (c ∷ cs))
unfolding store_last last_operators
store_last-last copy c [] = refl
store_last-last copy c (d ∷ []) = refl
store_last-last copy c (d ∷ e ∷ cs) = store_last-last copy d (e ∷ cs)

-- `saveOperator` puts a new object with the operator's fields into the last category: it is the first
-- of its name there, the first of any other name stays, and an operator is added only if its name is
-- new.
pub save_operator-stored :
    (o : Operator) (s : Scope) (c : Category) (cs : List Category) (a : String)
    → s.operator_list ≡ some (c ∷ cs)
    → (ds : List Category) × ((save_operator (some o) s).operator_list ≡ some ds)
      × (named a (last_operators ds) ≡ (
          if o.name == a
          then some (record o { ref = s.next_ref })
          else named a (last_operators (c ∷ cs))))
      × (count a (operator_names (last_operators ds))
          ≡ count a (operator_names (last_operators (c ∷ cs)))
            + (if contains (operator_names (last_operators (c ∷ cs))) o.name
                then 0
                else if o.name == a
                then 1
                else 0))
unfolding save_operator
save_operator-stored o s c cs a h =
    let copy = record o { ref = s.next_ref } in
    let e = store_last-last copy c cs in
    (
      store_last copy (c ∷ cs),
      rw h refl,
      rw e (store-named a copy (last_operators (c ∷ cs))),
      rw e (store-count a copy (last_operators (c ∷ cs))),
    )
