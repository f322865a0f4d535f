-- ===== src/Shell/Tour/Moves.antt =====
-- What `tourSteps.next` and `tourSteps.prev` do to the page.
use de_pipeline_tool.Prelude.{
  ℕ, Bool, true, false, List, ◌∷◌, some, ◌≡◌, refl, ◌⊎◌, inl, inr, if◌then◌else◌, eqb, arith,
  Bool-cases, done,
}
use de_pipeline_tool.Builder.Model.{Operator, Category}
use de_pipeline_tool.Shell.Tour.{
  View, system_builder, system_manager, operator_library, Details, cleared, blank, showing,
  show_first, Page, set_temp_operator, remove_temp_operator, change_view, after_next, after_prev,
}

-- The first category of the list of operators, `All`, has an operator, as it has once the operators came in.
pub record Offers (p : Page) : Type 0 where
  pub first : Category
  pub others : List Category
  pub listed : p.operator_list ≡ some (first ∷ others)
  pub item : Operator
  pub items : List Operator
  pub filled : first.operators ≡ item ∷ items

-- The details of an operator are shown; the empty object has none.
abbrev pub is_shown : Details → Bool
is_shown cleared = false
is_shown blank = false
is_shown (showing o) = true

-- How a press changes the page.
abbrev pub Moved : (View → View) → (Bool → Bool) → Page → Page → Type 0
Moved view details p p' =
    (p'.curr ≡ view p.curr)
    × (is_shown p'.details ≡ details (is_shown p.details))
    × (p'.selected_tab ≡ p.selected_tab)
    × (p'.operator_list ≡ p.operator_list)

show_first-Moved :
    (p : Page) (o : Operator) (os : List Operator)
    → Moved (λ v. v) (λ shown. true) p (show_first p (o ∷ os))
unfolding show_first
show_first-Moved p o os = (refl, refl, refl, refl)

set_temp_operator-Moved :
    (p : Page)
    → Offers p
    → (p' : Page) × (set_temp_operator p ≡ done p') × Moved (λ v. v) (λ shown. true) p p'
unfolding set_temp_operator
set_temp_operator-Moved p o = (
  show_first p (o.item ∷ o.items),
  rw (o.listed, o.filled) refl,
  show_first-Moved p o.item o.items,
)

is : (a b : ℕ) → (a ≡ b) ⊎ (eqb a b ≡ false)
is a b = elim (Bool-cases (eqb a b)) [ inl e ↦ inl (ground arith) | inr n ↦ inr n ]

unfoldable pub view_after_next : ℕ → View → View
view_after_next order v =
    if eqb order 110
    then system_manager
    else if eqb order 160
    then operator_library
    else if eqb order 240
    then system_builder
    else v

unfoldable pub shown_after_next : ℕ → Bool → Bool
shown_after_next order shown = if eqb order 40 then true else if eqb order 50 then false else shown

pub after_next-returns :
    (order : ℕ) (p : Page)
    → Offers p
    → (p' : Page) × (after_next order p ≡ done p')
      × Moved (view_after_next order) (shown_after_next order) p p'
unfolding after_next remove_temp_operator change_view view_after_next shown_after_next
after_next-returns order p o = elim (is order 40) [
  | inl e ↦ (let (p', set, moved) = set_temp_operator-Moved p o in rw e (p', rw set refl, moved))
  | inr not_40 ↦ elim (is order 50) [
    | inl e ↦ rw e (remove_temp_operator p, refl, (refl, refl, refl, refl))
    | inr not_50 ↦ elim (is order 110) [
      | inl e ↦ rw e (change_view system_manager p, refl, (refl, refl, refl, refl))
      | inr not_110 ↦ elim (is order 160) [
        | inl e ↦ rw e (change_view operator_library p, refl, (refl, refl, refl, refl))
        | inr not_160 ↦ elim (is order 240) [
          | inl e ↦ rw e (change_view system_builder p, refl, (refl, refl, refl, refl))
          | inr not_240 ↦
              rw (not_40, not_50, not_110, not_160, not_240) (p, refl, (refl, refl, refl, refl))
        ]
      ]
    ]
  ]
]

unfoldable pub view_after_prev : ℕ → View → View
view_after_prev order v =
    if eqb order 120
    then system_builder
    else if eqb order 170
    then system_manager
    else if eqb order 300
    then operator_library
    else v

unfoldable pub shown_after_prev : ℕ → Bool → Bool
shown_after_prev order shown = if eqb order 50 then false else if eqb order 60 then true else shown

pub after_prev-returns :
    (order : ℕ) (p : Page)
    → Offers p
    → (p' : Page) × (after_prev order p ≡ done p')
      × Moved (view_after_prev order) (shown_after_prev order) p p'
unfolding after_prev remove_temp_operator change_view view_after_prev shown_after_prev
after_prev-returns order p o = elim (is order 50) [
  | inl e ↦ rw e (remove_temp_operator p, refl, (refl, refl, refl, refl))
  | inr not_50 ↦ elim (is order 60) [
    | inl e ↦ (let (p', set, moved) = set_temp_operator-Moved p o in rw e (p', rw set refl, moved))
    | inr not_60 ↦ elim (is order 120) [
      | inl e ↦ rw e (change_view system_builder p, refl, (refl, refl, refl, refl))
      | inr not_120 ↦ elim (is order 170) [
        | inl e ↦ rw e (change_view system_manager p, refl, (refl, refl, refl, refl))
        | inr not_170 ↦ elim (is order 300) [
          | inl e ↦ rw e (change_view operator_library p, refl, (refl, refl, refl, refl))
          | inr not_300 ↦
              rw (not_50, not_60, not_120, not_170, not_300) (p, refl, (refl, refl, refl, refl))
        ]
      ]
    ]
  ]
]
