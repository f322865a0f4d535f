-- ===== src/Shell/Tour/Press.antt =====
-- What a press at a step does, with the tab that the operator library sets.
use de_pipeline_tool.Prelude.{
  ℕ, suc, ◌<◌, Bool, Option, some, ◌≡◌, refl, sym, ap, ◌∙◌, inl, inr, if◌then◌else◌, arith,
  Bool-cases, Outcome, done, state_of, subst,
}
use de_pipeline_tool.Shell.Tour.{
  View, Page, TourService, after_next, after_prev, tab_after_next, tab_after_prev, next, prev,
  library_next, library_prev,
}
use de_pipeline_tool.Shell.Tour.Moves.{
  Offers, is_shown, Moved, view_after_next, shown_after_next, after_next-returns, view_after_prev,
  shown_after_prev, after_prev-returns,
}
use de_pipeline_tool.Shell.Tour.Steps.{
  order_at, last_step, in_library, tab_at, tab_known_next, tab_known_prev, Fits, Leads, next-Leads,
  prev-Leads,
}

module _ {T : Type 0} (service : TourService T) where
  -- A press at a step: the buttons of a step call the controller in whose template it stands.
  unfoldable pub press_next : ℕ → T → Page → Outcome (T × Page)
  press_next i t p = if in_library (order_at i) then library_next service t p else next service t p

  unfoldable pub press_prev : ℕ → T → Page → Outcome (T × Page)
  press_prev i t p = if in_library (order_at i) then library_prev service t p else prev service t p

with_tab_next : ℕ → Page → Page
with_tab_next o p = if in_library o then tab_after_next o p else p

with_tab_prev : ℕ → Page → Page
with_tab_prev o p = if in_library o then tab_after_prev o p else p

-- Behind a move of the page, whose tab is then set so that `known` holds of it, the step that the table
-- leads to fits.
Moved-Fits :
    (view : View → View) (shown : Bool → Bool) (known : Option ℕ → Option ℕ) (o o' : ℕ)
    (p p' p'' : Page)
    → Leads view shown known o o'
    → Fits o p
    → Moved view shown p p'
    → p''.curr ≡ p'.curr
    → p''.details ≡ p'.details
    → ((n : ℕ) → known (tab_at o) ≡ some n → p''.selected_tab ≡ n)
    → Fits o' p''
Moved-Fits view shown known o o' p p' p'' leads fits moved same_curr same_details tabs = record {
  view = same_curr ∙ moved.0 ∙ ap view fits.view ∙ leads.0;
  details = ap is_shown same_details ∙ moved.1 ∙ ap shown fits.details ∙ leads.1;
  tab = λ n e. tabs n (leads.2 n e);
}

module _ (o : ℕ) (p : Page) where
  next_tab :
      (m : Option ℕ)
      → ((n : ℕ) → m ≡ some n → p.selected_tab ≡ n)
      → (n : ℕ) → tab_known_next o m ≡ some n
      → (with_tab_next o p).selected_tab ≡ n
  unfolding with_tab_next tab_known_next tab_after_next
  next_tab m known n e = let before = known n in ground arith

  prev_tab :
      (m : Option ℕ)
      → ((n : ℕ) → m ≡ some n → p.selected_tab ≡ n)
      → (n : ℕ) → tab_known_prev o m ≡ some n
      → (with_tab_prev o p).selected_tab ≡ n
  unfolding with_tab_prev tab_known_prev tab_after_prev
  prev_tab m known n e = let before = known n in ground arith

  next_others :
      ((with_tab_next o p).curr ≡ p.curr)
      × ((with_tab_next o p).details ≡ p.details)
      × ((with_tab_next o p).operator_list ≡ p.operator_list)
  unfolding with_tab_next tab_after_next
  next_others = (ground arith, ground arith, ground arith)

  prev_others :
      ((with_tab_prev o p).curr ≡ p.curr)
      × ((with_tab_prev o p).details ≡ p.details)
      × ((with_tab_prev o p).operator_list ≡ p.operator_list)
  unfolding with_tab_prev tab_after_prev
  prev_others = (ground arith, ground arith, ground arith)

Offers-listed : (p p' : Page) → p'.operator_list ≡ p.operator_list → Offers p → Offers p'
Offers-listed p p' e o = record {
  first = o.first;
  others = o.others;
  listed = e ∙ o.listed;
  item = o.item;
  items = o.items;
  filled = o.filled;
}

-- What is known behind a press: it returns, and the page fits the step that follows.
abbrev pub Arrives : {T : Type 0} → Outcome (T × Page) → T → ℕ → Type 0
Arrives {T} outcome t order = (p' : Page) × (outcome ≡ done (t, p')) × Offers p' × Fits order p'

-- A press has one outcome.
pub arrived :
    {T : Type 0} (outcome : Outcome (T × Page)) (t : T) (order : ℕ) (t' : T) (p' : Page)
    → Arrives outcome t order
    → outcome ≡ done (t', p')
    → (t ≡ t') × Offers p' × Fits order p'
arrived outcome t order t' p' (q, returns, offers, fits) e =
    let same : (t, q) ≡ (t', p') = ap state_of (sym returns ∙ e) in
    let same_page : q ≡ p' = ap (λ r. r.1) same in
    (ap (λ r. r.0) same, subst Offers same_page offers, subst (Fits order) same_page fits)

module _ {T : Type 0} (service : TourService T) (o : ℕ) (t : T) (p p' : Page) where
  next_returns :
      service.order (service.next t) ≡ o
      → after_next o p ≡ done p'
      → (if in_library o then library_next service t p else next service t p)
        ≡ done (service.next t, with_tab_next o p')
  unfolding next library_next with_tab_next
  next_returns e r = elim (Bool-cases (in_library o)) [
    | inl home ↦ rw (home, e, r) refl
    | inr away ↦ rw (away, e, r) refl
  ]

  prev_returns :
      service.order (service.prev t) ≡ o
      → after_prev o p ≡ done p'
      → (if in_library o then library_prev service t p else prev service t p)
        ≡ done (service.prev t, with_tab_prev o p')
  unfolding prev library_prev with_tab_prev
  prev_returns e r = elim (Bool-cases (in_library o)) [
    | inl home ↦ rw (home, e, r) refl
    | inr away ↦ rw (away, e, r) refl
  ]

module _ {T : Type 0} (service : TourService T) (p : Page) (offers : Offers p) where
  pub press_next-Arrives :
      (i : ℕ) (t : T)
      → i < last_step
      → service.order (service.next t) ≡ order_at i
      → Fits (order_at i) p
      → Arrives (press_next service i t p) (service.next t) (order_at (suc i))
  unfolding press_next
  press_next-Arrives i t h e fits =
      let o = order_at i in
      let (p', returns, moved) = after_next-returns o p offers in
      let others = next_others o p' in
      (
        with_tab_next o p',
        next_returns service o t p p' e returns,
        Offers-listed p _ (others.2 ∙ moved.3) offers,
        Moved-Fits (view_after_next o) (shown_after_next o) (tab_known_next o) o (order_at (suc i))
            p p' (with_tab_next o p') (next-Leads i h) fits moved others.0 others.1
            (next_tab o p' (tab_at o) (λ n known. moved.2 ∙ fits.tab n known)),
      )

  pub press_prev-Arrives :
      (i : ℕ) (t : T)
      → i < last_step
      → service.order (service.prev t) ≡ order_at (suc i)
      → Fits (order_at (suc i)) p
      → Arrives (press_prev service (suc i) t p) (service.prev t) (order_at i)
  unfolding press_prev
  press_prev-Arrives i t h e fits =
      let o = order_at (suc i) in
      let (p', returns, moved) = after_prev-returns o p offers in
      let others = prev_others o p' in
      (
        with_tab_prev o p',
        prev_returns service o t p p' e returns,
        Offers-listed p _ (others.2 ∙ moved.3) offers,
        Moved-Fits (view_after_prev o) (shown_after_prev o) (tab_known_prev o) o (order_at i) p p'
            (with_tab_prev o p') (prev-Leads i h) fits moved others.0 others.1
            (prev_tab o p' (tab_at o) (λ n known. moved.2 ∙ fits.tab n known)),
      )
