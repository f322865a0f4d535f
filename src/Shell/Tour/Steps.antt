-- ===== src/Shell/Tour/Steps.antt =====
-- The steps that the templates give to the tour, and what the pages show at each of them.
use de_pipeline_tool.Prelude.{
  ℕ, zero, suc, ◌<◌, Bool, true, false, not, ◌&&◌, List, [], ◌∷◌, Option, none, some, ◌≡◌, refl,
  inl, inr, if◌then◌else◌, eqb, leb, arith, Bool-cases,
}
use de_pipeline_tool.Shell.Tour.Moves.{
  is_shown, view_after_next, shown_after_next, view_after_prev, shown_after_prev,
}
use de_pipeline_tool.Shell.Tour.{View, system_builder, system_manager, operator_library, Page}

-- `tour-step-order` in the templates, in order.
abbrev pub orders : List ℕ
orders =
    0 ∷ 10 ∷ 20 ∷ 30 ∷ 40 ∷ 50 ∷ 60 ∷ 80 ∷ 90 ∷ 95 ∷ 100 ∷ 110 ∷ 120 ∷ 140 ∷ 150 ∷ 160 ∷ 170 ∷ 180
    ∷ 190 ∷ 200 ∷ 210 ∷ 220 ∷ 225 ∷ 230 ∷ 240 ∷ 300 ∷ []

abbrev get_or : List ℕ → ℕ → ℕ → ℕ
get_or [] i d = d
get_or (x ∷ xs) zero d = x
get_or (x ∷ xs) (suc i) d = get_or xs i d

abbrev pub order_at : ℕ → ℕ
order_at i = get_or orders i 0

abbrev pub last_step : ℕ
last_step = 25

-- The steps of operator-library.html.
abbrev pub in_library : ℕ → Bool
in_library order = leb 170 order && leb order 240

-- The view in which the element of a step stands. Those of the navigation bar, 10, 110 and 160, are seen in
-- every view, and are reached in that of the step before them.
abbrev pub view_at : ℕ → View
view_at order =
    if leb order 110
    then system_builder
    else if leb order 160
    then system_manager
    else if leb order 240
    then operator_library
    else system_builder

-- The details are shown at the step that is about them, and at no other.
abbrev pub shown_at : ℕ → Bool
shown_at order = eqb order 50

-- The tab of the operator library: the details for the steps on the selected operator, and behind them the
-- rules.
abbrev pub tab_at : ℕ → Option ℕ
tab_at order = if leb 230 order then some 1 else if leb 200 order then some 0 else none

pub record Fits (order : ℕ) (p : Page) : Type 0 where
  pub view : p.curr ≡ view_at order
  pub details : is_shown p.details ≡ shown_at order
  pub tab : (n : ℕ) → tab_at order ≡ some n → p.selected_tab ≡ n

same_view : View → View → Bool
same_view system_builder system_builder = true
same_view system_manager system_manager = true
same_view operator_library operator_library = true
same_view _ _ = false

same_view-eq : (v w : View) → same_view v w ≡ true → v ≡ w
unfolding same_view
same_view-eq system_builder system_builder h = refl
same_view-eq system_builder system_manager h = cc
same_view-eq system_builder operator_library h = cc
same_view-eq system_manager system_builder h = cc
same_view-eq system_manager system_manager h = refl
same_view-eq system_manager operator_library h = cc
same_view-eq operator_library system_builder h = cc
same_view-eq operator_library system_manager h = cc
same_view-eq operator_library operator_library h = refl

same : Bool → Bool → Bool
same a b = if a then b else not b

same-eq : (a b : Bool) → same a b ≡ true → a ≡ b
unfolding same
same-eq a b h = ground arith

-- What is known of the tab is enough for what a step asks of it.
covers : Option ℕ → Option ℕ → Bool
covers none known = true
covers (some n) none = false
covers (some n) (some m) = eqb n m

covers-eq :
    (asked known : Option ℕ) (n : ℕ) → covers asked known ≡ true → asked ≡ some n → known ≡ some n
unfolding covers
covers-eq asked known n h e = ground arith

-- A test that the numbers below a bound all pass.
below : ℕ → (ℕ → Bool) → Bool
below zero f = true
below (suc n) f = f n && below n f

and_parts : (a b : Bool) → a && b ≡ true → (a ≡ true) × (b ≡ true)
and_parts a b h = ground arith

below-all : (n : ℕ) (f : ℕ → Bool) → below n f ≡ true → (i : ℕ) → i < n → f i ≡ true
unfolding below
below-all zero f h i l = absurd (omega arith)
below-all (suc n) f h i l =
    let (here, further) = and_parts (f n) (below n f) h in
    elim (Bool-cases (eqb i n)) [
      | inl e ↦ (let same_number : i ≡ n = ground arith in rw same_number here)
      | inr other ↦ below-all n f further i (ground arith)
    ]

-- What is known of the tab behind a press.
unfoldable pub tab_known_next : ℕ → Option ℕ → Option ℕ
tab_known_next order known =
    if in_library order
    then if eqb order 190 then some 0 else if eqb order 225 then some 1 else known
    else known

unfoldable pub tab_known_prev : ℕ → Option ℕ → Option ℕ
tab_known_prev order known =
    if in_library order
    then if eqb order 230 then some 0 else if eqb order 250 then some 1 else known
    else known

-- What a step leaves is what the step behind it asks.
abbrev pub Leads : (View → View) → (Bool → Bool) → (Option ℕ → Option ℕ) → ℕ → ℕ → Type 0
Leads view shown tab order order' =
    (view (view_at order) ≡ view_at order')
    × (shown (shown_at order) ≡ shown_at order')
    × ((n : ℕ) → tab_at order' ≡ some n → tab (tab_at order) ≡ some n)

row : (View → View) → (Bool → Bool) → (Option ℕ → Option ℕ) → ℕ → ℕ → Bool
row view shown tab order order' =
    same_view (view (view_at order)) (view_at order')
    && (same (shown (shown_at order)) (shown_at order')
        && covers (tab_at order') (tab (tab_at order)))

row-Leads :
    (view : View → View) (shown : Bool → Bool) (tab : Option ℕ → Option ℕ) (order order' : ℕ)
    → row view shown tab order order' ≡ true
    → Leads view shown tab order order'
unfolding row
row-Leads view shown tab order order' h =
    let (views, rest) = and_parts _ _ h in
    let (showings, tabs) = and_parts _ _ rest in
    (
      same_view-eq _ _ views,
      same-eq _ _ showings,
      λ n e. covers-eq (tab_at order') (tab (tab_at order)) n tabs e,
    )

next_row : ℕ → Bool
next_row i =
    let o = order_at i in
    row (view_after_next o) (shown_after_next o) (tab_known_next o) o (order_at (suc i))

next_rows : below last_step next_row ≡ true
unfolding next_row row below same_view same covers tab_known_next view_after_next shown_after_next
next_rows = refl

prev_row : ℕ → Bool
prev_row i =
    let o = order_at (suc i) in
    row (view_after_prev o) (shown_after_prev o) (tab_known_prev o) o (order_at i)

prev_rows : below last_step prev_row ≡ true
unfolding prev_row row below same_view same covers tab_known_prev view_after_prev shown_after_prev
prev_rows = refl

pub next-Leads :
    (i : ℕ)
    → i < last_step
    → (let o = order_at i in
        Leads (view_after_next o) (shown_after_next o) (tab_known_next o) o (order_at (suc i)))
unfolding next_row
next-Leads i h = row-Leads _ _ _ _ _ (below-all last_step next_row next_rows i h)

pub prev-Leads :
    (i : ℕ)
    → i < last_step
    → (let o = order_at (suc i) in
        Leads (view_after_prev o) (shown_after_prev o) (tab_known_prev o) o (order_at i))
unfolding prev_row
prev-Leads i h = row-Leads _ _ _ _ _ (below-all last_step prev_row prev_rows i h)
