-- ===== src/Shell/Tests.antt =====
-- The tour on a small tour library, and the theorem on it there.
use de_pipeline_tool.Prelude.{ℕ, suc, ◌-◌, [], ◌∷◌, none, some, ◌≡◌, refl, ap, false, true, arith}
use de_pipeline_tool.Builder.Model.{Operator, Category, parser}
use de_pipeline_tool.Builder.Samples.{operator}
use de_pipeline_tool.Shell.Tour.{
  Page, TourService, system_builder, operator_library, cleared, showing, temp_copy, after_next,
  set_temp_operator, show_first, remove_temp_operator, next, start, set_start,
}
use de_pipeline_tool.Shell.Tour.Press.{press_next}
use de_pipeline_tool.Shell.Tour.Steps.{order_at}
use de_pipeline_tool.Shell.Tour.Course.{Shows, Journey, OnCourse, Journey-OnCourse}

-- The step that the tour rests at, and the one that it moves to.
abbrev service : TourService (ℕ × ℕ)
service = record {
  next = λ t. (t.0, suc t.0);
  prev = λ t. (t.0, t.0 - 1);
  start = λ t. (0, 0);
  finish = λ t. t;
  order = λ t. order_at t.0;
}

abbrev settle : ℕ × ℕ → ℕ × ℕ
settle t = (t.1, t.1)

abbrev At : ℕ → ℕ × ℕ → Type 0
At i t = t.0 ≡ i

service-Shows : Shows service settle At
service-Shows = record {
  begins = λ t. refl;
  next_order = λ i t e. ap order_at e;
  next_settles = λ i t e h. ap suc e;
  prev_order = λ i t e. ap order_at e;
  prev_settles = λ i t e. omega arith;
}

abbrev csv : Operator
csv = operator 1 "csv" parser none none

abbrev everything : Category
everything = record { name = "All"; match_name = none; operators = csv ∷ [] }

abbrev page : Page
page = record {
  curr = operator_library;
  in_tour = false;
  details = cleared;
  selected_tab = 1;
  toured = false;
  operator_list = some (everything ∷ []);
  storage = record {
    system_name = "";
    state_objects = none;
    id = none;
    zoomlevel = 50;
    old_zoom = 50;
    online_systems = [];
    saved_operators = none;
    last_uuid = 0;
    validations = [];
    custom_validations = [];
  };
  next_ref = 7;
}

abbrev begun : Page
begun = record page { curr = system_builder; in_tour = true }

-- The details of a copy of the first operator.
abbrev detailed : Page
detailed = record begun { details = showing (temp_copy page.storage 7 csv); next_ref = 8 }

five_steps : Journey service settle page 5 (5, 5) detailed
unfolding press_next next after_next set_temp_operator show_first start remove_temp_operator
    set_start
five_steps =
    Journey.forward
      (Journey.forward
        (Journey.forward
          (Journey.forward (Journey.forward (Journey.started (3, 3)) (omega arith) refl)
            (omega arith) refl)
          (omega arith) refl)
        (omega arith) refl)
      (omega arith) refl

Journey-OnCourse_example : OnCourse service At 5 (5, 5) detailed
Journey-OnCourse_example =
    Journey-OnCourse service settle At service-Shows page
      (record {
        first = everything;
        others = [];
        listed = refl;
        item = csv;
        items = [];
        filled = refl;
      })
      5 (5, 5) detailed five_steps
