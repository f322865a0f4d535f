-- ===== src/Shell/Tour/Course.antt =====
-- The pages all along the tour.
use de_pipeline_tool.Prelude.{ℕ, suc, ◌<◌, ◌≤◌, ◌≡◌, refl, arith, done, subst}
use de_pipeline_tool.Shell.Tour.{Page, TourService, start, remove_temp_operator, set_start}
use de_pipeline_tool.Shell.Tour.Moves.{Offers}
use de_pipeline_tool.Shell.Tour.Press.{
  press_next, press_prev, Arrives, arrived, press_next-Arrives, press_prev-Arrives,
}
use de_pipeline_tool.Shell.Tour.Steps.{order_at, last_step, Fits}

module _ {T : Type 0} (service : TourService T) where
  -- What the code relies on: `next` and `prev` of the tour library return at once and move later, so that
  -- `getCurrentStep` still answers the step that is being left. `settle` is the later move, and `At i` says
  -- that the tour rests at the step of number `i`.
  pub record Shows (settle : T → T) (At : ℕ → T → Type 0) : Type 0 where
    pub begins : (t : T) → At 0 (settle (service.start t))
    pub next_order : (i : ℕ) (t : T) → At i t → service.order (service.next t) ≡ order_at i
    pub next_settles :
        (i : ℕ) (t : T) → At i t → i < last_step → At (suc i) (settle (service.next t))
    pub prev_order : (i : ℕ) (t : T) → At i t → service.order (service.prev t) ≡ order_at i
    pub prev_settles : (i : ℕ) (t : T) → At (suc i) t → At i (settle (service.prev t))

  -- The tour from its start: presses, each behind the move of the one before it.
  pub data Journey (settle : T → T) (first : Page) : ℕ → T → Page → Type 0 where
    started :
        (t : T)
        → Journey settle first 0 (settle (start service t first).0) (start service t first).1
    forward :
        {i : ℕ} {t t' : T} {p p' : Page}
        → Journey settle first i t p
        → i < last_step
        → press_next service i t p ≡ done (t', p')
        → Journey settle first (suc i) (settle t') p'
    backward :
        {i : ℕ} {t t' : T} {p p' : Page}
        → Journey settle first (suc i) t p
        → press_prev service (suc i) t p ≡ done (t', p')
        → Journey settle first i (settle t') p'

-- What holds all along a tour at the step of number `i`.
pub record OnCourse {T : Type 0} (service : TourService T) (At : ℕ → T → Type 0) (i : ℕ) (t : T)
    (p : Page) : Type 0 where
  pub bound : i ≤ last_step
  pub rests : At i t
  pub offers : Offers p
  pub fits : Fits (order_at i) p
  pub onward :
      i < last_step → Arrives (press_next service i t p) (service.next t) (order_at (suc i))
  pub back :
      (j : ℕ) → i ≡ suc j → Arrives (press_prev service (suc j) t p) (service.prev t) (order_at j)

module _ {T : Type 0} (service : TourService T) (settle : T → T) (At : ℕ → T → Type 0)
    (shows : Shows service settle At) where
  on_course :
      (i : ℕ) (t : T) (p : Page)
      → i ≤ last_step
      → At i t
      → Offers p
      → Fits (order_at i) p
      → OnCourse service At i t p
  on_course i t p h at offers fits = record {
    bound = h;
    rests = at;
    offers = offers;
    fits = fits;
    onward = λ more. press_next-Arrives service p offers i t more (shows.next_order i t at) fits;
    back = λ j e.
        press_prev-Arrives service p offers j t (omega arith)
          (subst (λ k. service.order (service.prev t) ≡ order_at k) e (shows.prev_order i t at))
          (subst (λ k. Fits (order_at k) p) e fits);
  }

  -- Whatever the user presses from the start of the tour on, with a list of operators whose first category has
  -- an operator: the page shows the view in which the step stands, the details of an operator exactly at the step about
  -- them, and the tab that the step is about; and a press on `next` before the last step or on `prev`
  -- behind the first returns, with a page that fits the step it leads to.
  pub Journey-OnCourse :
      (first : Page)
      → Offers first
      → (i : ℕ) (t : T) (p : Page) → Journey service settle first i t p
      → OnCourse service At i t p
  unfolding start remove_temp_operator set_start
  Journey-OnCourse first offers _ _ _ (Journey.started t) =
      on_course 0 _ _ (omega arith) (shows.begins t)
        (record {
          first = offers.first;
          others = offers.others;
          listed = offers.listed;
          item = offers.item;
          items = offers.items;
          filled = offers.filled;
        })
        (record { view = refl; details = refl; tab = λ n e. cc })
  Journey-OnCourse first offers _ _ _ (Journey.forward {i} {t} {t'} {p} {p'} so_far more e) =
      let before = Journey-OnCourse first offers i t p so_far in
      let (same, offers', fits') =
        arrived _ (service.next t) (order_at (suc i)) t' p' (before.onward more) e in
      on_course (suc i) (settle t') p' (omega arith)
        (subst (λ u. At (suc i) (settle u)) same (shows.next_settles i t before.rests more)) offers'
        fits'
  Journey-OnCourse first offers _ _ _ (Journey.backward {i} {t} {t'} {p} {p'} so_far e) =
      let before = Journey-OnCourse first offers (suc i) t p so_far in
      let (same, offers', fits') =
        arrived _ (service.prev t) (order_at i) t' p' (before.back i refl) e in
      let bound = before.bound in
      on_course i (settle t') p' (omega arith)
        (subst (λ u. At i (settle u)) same (shows.prev_settles i t before.rests)) offers' fits'
