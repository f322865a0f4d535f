-- ===== src/Ribbon/Order.antt =====
-- The order of the operators in the ribbon.
use de_pipeline_tool.Prelude.{
  ℕ, zero, suc, ◌+◌, Option, ◌||◌, ◌==◌, ◌∙◌, ◌≤◌, String, Bool, true, false, List, [], ◌∷◌, ◌≡◌,
  refl, if◌then◌else◌, get_elem?, arith, All, All_mono, inl, inr, ◌⊎◌,
}
use de_pipeline_tool.Builder.Model.{
  OperatorType, input, output, parser, enrichment, mapping, binary_input, binary_output, other,
}
use de_pipeline_tool.Builder.Session.{same_type}
use de_pipeline_tool.Ribbon.{
  Entry, Category, least, sort_ops, paint, paint_all, mark, color_from, type_colors, sort_first,
  refresh_operators,
}

-- The types in the order of a system, from its inputs to its outputs; a type that is not known stands last.
abbrev pub type_order : List OperatorType
type_order = input ∷ binary_input ∷ parser ∷ mapping ∷ enrichment ∷ output ∷ binary_output ∷ []

abbrev pub place_in : List OperatorType → OperatorType → ℕ
place_in [] type = 0
place_in (t ∷ ts) type = let rest = suc (place_in ts type) in if same_type t type then 0 else rest

-- No operator stands behind one of a later type.
abbrev pub IsSorted : List Entry → Type 0
IsSorted [] = Unit
IsSorted (a ∷ es) =
    All (λ b. place_in type_order a.type ≤ place_in type_order b.type) es × IsSorted es

-- How many operators have a type that passes a test.
abbrev pub hits : (OperatorType → Bool) → List Entry → ℕ
hits p [] = 0
hits p (a ∷ es) = (if p a.type then 1 else 0) + hits p es

-- No element is followed by one that it does not come before.
abbrev pub Ordered : (Entry → Entry → Bool) → List Entry → Type 0
Ordered before [] = Unit
Ordered before (a ∷ es) = All (λ b. before a b ≡ true) es × Ordered before es

-- What the code relies on: `sort` orders by a comparator that is consistent, and moves elements only.
pub record Sorts (sort : (Entry → Entry → Bool) → List Entry → List Entry) : Type 0 where
  pub orders :
      (before : Entry → Entry → Bool)
      → ((a b : Entry) → before a b ≡ false → before b a ≡ true)
      → ((a b c : Entry) → before a b ≡ true → before b c ≡ true → before a c ≡ true)
      → (es : List Entry) → Ordered before (sort before es)
  pub moves :
      (before : Entry → Entry → Bool) (p : OperatorType → Bool) (es : List Entry)
      → hits p (sort before es) ≡ hits p es

-- The ranks of the code follow the order of the types.
least-place_in :
    (t : OperatorType)
    → ((least t ≡ place_in type_order t) × (place_in type_order t ≤ 6))
      ⊎ ((least t ≡ 99) × (place_in type_order t ≡ 7))
unfolding least same_type
least-place_in input = inl (refl, omega arith)
least-place_in binary_input = inl (refl, omega arith)
least-place_in parser = inl (refl, omega arith)
least-place_in mapping = inl (refl, omega arith)
least-place_in enrichment = inl (refl, omega arith)
least-place_in output = inl (refl, omega arith)
least-place_in binary_output = inl (refl, omega arith)
least-place_in (other t) = inr (refl, refl)

sort_ops-place_in :
    (a b : Entry) → sort_ops a b ≡ true → place_in type_order a.type ≤ place_in type_order b.type
unfolding sort_ops
sort_ops-place_in a b h =
    let le : least a.type ≤ least b.type = ground arith in
    elim (least-place_in a.type) [
      | inl (e, low) ↦ elim (least-place_in b.type) [
        | inl (f, high) ↦ omega arith
        | inr (f, g) ↦ omega arith
      ]
      | inr (e, e') ↦ elim (least-place_in b.type) [
        | inl (f, high) ↦ omega arith
        | inr (f, g) ↦ omega arith
      ]
    ]

sort_ops-total : (a b : Entry) → sort_ops a b ≡ false → sort_ops b a ≡ true
unfolding sort_ops
sort_ops-total a b h = ground arith

sort_ops_trans : (a b c : Entry) → sort_ops a b ≡ true → sort_ops b c ≡ true → sort_ops a c ≡ true
unfolding sort_ops
sort_ops_trans a b c h k = ground arith

Ordered-IsSorted : (es : List Entry) → Ordered sort_ops es → IsSorted es
Ordered-IsSorted [] h = tt
Ordered-IsSorted (a ∷ es) (p, h) =
    (All_mono (λ b q. sort_ops-place_in a b q) es p, Ordered-IsSorted es h)

-- The operators of the first category.
abbrev pub first_operators : List Category → List Entry
first_operators [] = []
first_operators (c ∷ cs) = c.operators

paint-hits :
    (p : OperatorType → Bool) (c : Option String) (painted es : List Entry)
    → hits p (paint c painted es) ≡ hits p es
unfolding paint
paint-hits p c painted [] = refl
paint-hits p c painted (e ∷ es) = ground (arith, paint-hits p c painted es)

paint_all-hits :
    (p : OperatorType → Bool) (c : Option String) (painted : List Entry) (all : List Category)
    → hits p (first_operators (paint_all c painted all)) ≡ hits p (first_operators all)
unfolding paint_all
paint_all-hits p c painted [] = refl
paint_all-hits p c painted (d ∷ ds) = paint-hits p c painted d.operators

mark-first : (i n : ℕ) (all : List Category) → first_operators (mark i n all) ≡ first_operators all
unfolding mark
mark-first i n [] = refl
mark-first i zero (d ∷ ds) = refl
mark-first i (suc n) (d ∷ ds) = refl

color_from-hits :
    (p : OperatorType → Bool) (i : ℕ) (cs all : List Category)
    → hits p (first_operators (color_from i cs all)) ≡ hits p (first_operators all)
unfolding color_from
color_from-hits p i [] all = refl
color_from-hits p i (c ∷ cs) all = color_from-hits p (suc i) cs _ ∙ painted
  where
    painted :
        hits p (
          first_operators (
            if c.name == "All" || c.name == "Stored Operators"
            then all
            else paint_all (get_elem? type_colors i) c.operators (mark i i all)))
        ≡ hits p (first_operators all)
    painted = ground (
      arith,
      paint_all-hits p (get_elem? type_colors i) c.operators (mark i i all),
      mark-first i i all,
    )

module _ (sort : (Entry → Entry → Bool) → List Entry → List Entry) (sorts : Sorts sort) where
  sort_first-IsSorted :
      (p : OperatorType → Bool) (cs : List Category)
      → IsSorted (first_operators (sort_first sort cs))
        × (hits p (first_operators (sort_first sort cs)) ≡ hits p (first_operators cs))
  unfolding sort_first
  sort_first-IsSorted p [] = (tt, refl)
  sort_first-IsSorted p (c ∷ cs) = (
    Ordered-IsSorted (sort sort_ops c.operators)
        (sorts.orders sort_ops sort_ops-total sort_ops_trans c.operators),
    sorts.moves sort_ops p c.operators,
  )

  -- Behind a refresh the operators of the first category are in the order of their types: inputs, binary inputs,
  -- parsers, mappings, enrichments, outputs, binary outputs, and then those of no known type. Of every type
  -- there are as many as before.
  pub refresh_operators-IsSorted :
      (p : OperatorType → Bool) (cs : List Category)
      → IsSorted (first_operators (refresh_operators sort cs))
        × (hits p (first_operators (refresh_operators sort cs)) ≡ hits p (first_operators cs))
  unfolding refresh_operators
  refresh_operators-IsSorted p cs =
      let (a, b) = sort_first-IsSorted p (color_from 0 cs cs) in (a, b ∙ color_from-hits p 0 cs cs)
