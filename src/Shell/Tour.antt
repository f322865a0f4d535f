-- ===== src/Shell/Tour.antt =====
-- The tour: `tourSteps` of app.js, `changeView` and `setStart` of app.content.js, `setTempOperator` and
-- `removeTempOperator` of system-builder.controller.js, and `next` and `prev` of operator-library.js.
-- The tour library, which shows the steps, is a parameter.
pub mod Moves
pub mod Steps
pub mod Press
pub mod Course
use de_pipeline_tool.Prelude.{
  ℕ, ◌+◌, Bool, true, false, List, [], ◌∷◌, Option, none, some, if◌then◌else◌, eqb, map, Outcome,
  done, thrown, ◌then_run◌,
}
use de_pipeline_tool.Builder.Model.{Property, Operator, Category, Storage}
use de_pipeline_tool.Builder.Forms.{find_validation}

-- `curr`
pub data View : Type 0 where
  system_builder system_manager operator_library : View

-- `activeState` of the system builder: nothing, the empty object, or an operator.
pub data Details : Type 0 where
  cleared blank : Details
  showing : Operator → Details

-- What the tour changes, and what it reads: the list of operators with the rules.
pub record Page : Type 0 where
  pub curr : View
  pub in_tour : Bool
  pub details : Details
  pub selected_tab : ℕ
  pub toured : Bool
  pub operator_list : Option (List Category)
  pub storage : Storage
  pub next_ref : ℕ

-- What the code calls of the tour library: `next`, `prev`, `start` and `end` of the tour, and the
-- `order` of the step that `getCurrentStep` answers.
pub record TourService (T : Type 0) : Type 0 where
  pub next : T → T
  pub prev : T → T
  pub start : T → T
  pub finish : T → T
  pub order : T → ℕ

-- `property.validation = findValidation(property.type)`
abbrev with_rule : Storage → Property → Property
with_rule st p = record p { validation = find_validation st p.kind }

-- `jQuery.extend(true, {}, operator)`, a new object, whose properties get their rules.
unfoldable pub temp_copy : Storage → ℕ → Operator → Operator
temp_copy st ref o = record o { ref = ref; properties = map (with_rule st) o.properties }

-- The new `activeState`: where the category has no operator, the empty object.
unfoldable pub show_first : Page → List Operator → Page
show_first p [] = record p { details = blank }
show_first p (o ∷ os) = record p {
  details = showing (temp_copy p.storage p.next_ref o);
  next_ref = p.next_ref + 1;
}

-- `setTempOperator`, which throws where the list has no first category.
unfoldable pub set_temp_operator : Page → Outcome Page
set_temp_operator p = elim p.operator_list [
  | none ↦ thrown p
  | some [] ↦ thrown p
  | some (c ∷ cs) ↦ done (show_first p c.operators)
]

-- `removeTempOperator`
unfoldable pub remove_temp_operator : Page → Page
remove_temp_operator p = record p { details = cleared }

-- `changeView`
unfoldable pub change_view : View → Page → Page
change_view view p = record p { curr = view }

-- `setStart`
unfoldable pub set_start : Page → Page
set_start p = record p { curr = system_builder; in_tour = true }

-- `if (getCurrentStep().order === number)`
abbrev pub at_order : ℕ → ℕ → (Page → Outcome Page) → Page → Outcome Page
at_order order number f p = if eqb order number then f p else done p

-- What `tourSteps.next` does behind the call of the library.
unfoldable pub after_next : ℕ → Page → Outcome Page
after_next order p =
    at_order order 40 set_temp_operator p
    then_run at_order order 50 (λ p. done (remove_temp_operator p))
    then_run at_order order 110 (λ p. done (change_view system_manager p))
    then_run at_order order 160 (λ p. done (change_view operator_library p))
    then_run at_order order 240 (λ p. done (change_view system_builder p))

-- The same of `tourSteps.prev`.
unfoldable pub after_prev : ℕ → Page → Outcome Page
after_prev order p =
    at_order order 50 (λ p. done (remove_temp_operator p)) p
    then_run at_order order 60 set_temp_operator
    then_run at_order order 120 (λ p. done (change_view system_builder p))
    then_run at_order order 170 (λ p. done (change_view system_manager p))
    then_run at_order order 300 (λ p. done (change_view operator_library p))

-- What `next` and `prev` of the operator library add.
unfoldable pub tab_after_next : ℕ → Page → Page
tab_after_next order p =
    if eqb order 190
    then record p { selected_tab = 0 }
    else if eqb order 225
    then record p { selected_tab = 1 }
    else p

unfoldable pub tab_after_prev : ℕ → Page → Page
tab_after_prev order p =
    if eqb order 230
    then record p { selected_tab = 0 }
    else if eqb order 250
    then record p { selected_tab = 1 }
    else p

-- The tour and the page behind a handler.
abbrev pub beside : {T : Type 0} → T → Outcome Page → Outcome (T × Page)
beside t (done p) = done (t, p)
beside t (thrown p) = thrown (t, p)

module _ {T : Type 0} (service : TourService T) where
  -- `next` and `prev` of the builder, the manager, the ribbon and the shell.
  unfoldable pub next : T → Page → Outcome (T × Page)
  next t p = let moved = service.next t in beside moved (after_next (service.order moved) p)

  unfoldable pub prev : T → Page → Outcome (T × Page)
  prev t p = let moved = service.prev t in beside moved (after_prev (service.order moved) p)

  -- Those of the operator library.
  unfoldable pub library_next : T → Page → Outcome (T × Page)
  library_next t p =
      let moved = service.next t in
      let order = service.order moved in
      beside moved (after_next order p then_run (λ p. done (tab_after_next order p)))

  unfoldable pub library_prev : T → Page → Outcome (T × Page)
  library_prev t p =
      let moved = service.prev t in
      let order = service.order moved in
      beside moved (after_prev order p then_run (λ p. done (tab_after_prev order p)))

  -- `tourSteps.start`
  unfoldable pub start : T → Page → T × Page
  start t p = (service.start t, remove_temp_operator (set_start p))

  -- `tourSteps.end`
  unfoldable pub end_tour : T → Page → T × Page
  end_tour t p = (service.finish t, record p { in_tour = false })

  -- `tourOnLoad`: the tour starts by itself unless it was ended once. `startDetached`
  -- also sets the listener.
  unfoldable pub tour_on_load : T → Page → T × Page
  tour_on_load t p = if p.toured then (t, p) else start t p

-- The listener of `ended`.
unfoldable pub ended : Page → Page
ended p = record p { toured = true }
