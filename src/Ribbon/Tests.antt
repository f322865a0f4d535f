-- ===== src/Ribbon/Tests.antt =====
-- The ribbon on a small list of operators, and its theorem at this list.
use de_pipeline_tool.Prelude.{
  ◌+◌, All, All_mono, Bool-cases, inl, inr, if◌then◌else◌, arith, true, false, List, [], ◌∷◌, none,
  some, ◌≡◌, refl, Bool,
}
use de_pipeline_tool.Builder.Model.{OperatorType, input, output}
use de_pipeline_tool.Ribbon.{
  Entry, Category, least, sort_ops, paint, paint_all, mark, color_from, sort_first,
  refresh_operators,
}
use de_pipeline_tool.Ribbon.Order.{
  IsSorted, Ordered, Sorts, hits, first_operators, refresh_operators-IsSorted,
}

abbrev writer : Entry
writer = record { ref = 1; name = "writer"; type = output; color = none }

abbrev reader : Entry
reader = record { ref = 2; name = "reader"; type = input; color = none }

abbrev categories : List Category
categories =
    record {
      name = "All";
      operators = writer ∷ reader ∷ [];
      color = none;
      icon = none;
      index = none;
    }
    ∷ record { name = "Input"; operators = reader ∷ []; color = none; icon = none; index = none }
    ∷ []

abbrev is_input : OperatorType → Bool
is_input input = true
is_input _ = false

-- A sort by insertion stands for the browser's.
module _ (before : Entry → Entry → Bool) where
  abbrev inserted : Entry → List Entry → List Entry
  inserted a [] = a ∷ []
  inserted a (b ∷ bs) = let rest = b ∷ inserted a bs in if before a b then a ∷ b ∷ bs else rest

  abbrev insertion_sort : List Entry → List Entry
  insertion_sort [] = []
  insertion_sort (a ∷ es) = inserted a (insertion_sort es)

  inserted-hits :
      (p : OperatorType → Bool) (a : Entry) (es : List Entry)
      → hits p (inserted a es) ≡ (if p a.type then 1 else 0) + hits p es
  inserted-hits p a [] = refl
  inserted-hits p a (b ∷ bs) = ground (arith, inserted-hits p a bs)

  sort-hits : (p : OperatorType → Bool) (es : List Entry) → hits p (insertion_sort es) ≡ hits p es
  sort-hits p [] = refl
  sort-hits p (a ∷ es) = omega (arith, inserted-hits p a (insertion_sort es), sort-hits p es)

  inserted-All :
      (P : Entry → Type 0) (a : Entry) (es : List Entry) → P a → All P es → All P (inserted a es)
  inserted-All P a [] h k = (h, tt)
  inserted-All P a (b ∷ bs) h (q, k) = elim (Bool-cases (before a b)) [
    | inl e ↦ rw e (h, (q, k))
    | inr e ↦ rw e (q, inserted-All P a bs h k)
  ]

  module _ (total : (a b : Entry) → before a b ≡ false → before b a ≡ true)
      (trans : (a b c : Entry) → before a b ≡ true → before b c ≡ true → before a c ≡ true) where
    inserted-Ordered :
        (a : Entry) (es : List Entry) → Ordered before es → Ordered before (inserted a es)
    inserted-Ordered a [] h = (tt, tt)
    inserted-Ordered a (b ∷ bs) (q, h) = elim (Bool-cases (before a b)) [
      | inl e ↦ rw e ((e, All_mono (λ c r. trans a b c e r) bs q), (q, h))
      | inr e ↦
          rw e (inserted-All (λ x. before b x ≡ true) a bs (total a b e) q, inserted-Ordered a bs h)
    ]

    sort-Ordered : (es : List Entry) → Ordered before (insertion_sort es)
    sort-Ordered [] = tt
    sort-Ordered (a ∷ es) = inserted-Ordered a (insertion_sort es) (sort-Ordered es)

insertion_sort-Sorts : Sorts insertion_sort
insertion_sort-Sorts = record {
  orders = λ before total trans es. sort-Ordered before total trans es;
  moves = λ before p es. sort-hits before p es;
}

-- The reader takes the color of its category in the list of all operators, and stands first.
refreshed :
    first_operators (refresh_operators insertion_sort categories)
    ≡ record reader { color = some "#bb0773" } ∷ writer ∷ []
unfolding refresh_operators sort_first color_from paint paint_all mark sort_ops least
refreshed = refl

refresh_operators-IsSorted_example :
    IsSorted (first_operators (refresh_operators insertion_sort categories))
    × (hits is_input (first_operators (refresh_operators insertion_sort categories)) ≡ 1)
refresh_operators-IsSorted_example =
    refresh_operators-IsSorted insertion_sort insertion_sort-Sorts is_input categories
