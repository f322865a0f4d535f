-- ===== src/Builder/StepTests.antt =====
-- A page on which two operators are dropped and joined (from an input, for which `isCyclical` throws), and the theorems on such pages at it.
use de_pipeline_tool.Prelude.{
  ℕ, String, false, List, [], ◌∷◌, Option, none, some, ◌≡◌, refl, length, or_nil, state_of, thrown,
  remove_at, Bool, true,
}
use de_pipeline_tool.Builder.Model.{
  OperatorType, binary_input, binary_output, input, Operator, Property, Form, Field, items, Scope,
}
use de_pipeline_tool.Builder.Canvas.{remove_all_connections}
use de_pipeline_tool.Builder.Canvas.Sweeping.{
  IsTidy, spared_operators, remove_all_connections-spared,
}
use de_pipeline_tool.Builder.Streams.Shape.{wires}
use de_pipeline_tool.Builder.Connect.Wiring.{EverySource}
use de_pipeline_tool.Builder.Session.{connection_noticed, save_to_manager, update}
use de_pipeline_tool.Builder.Session.Watch.{objects_changed, watch_all, watch_all-deaf}
use de_pipeline_tool.Builder.Forms.Editing.{remove_from_list, delete_key}
use de_pipeline_tool.Builder.Steps.{dropped_at, drawn, removed, updated, run, IsRemovable}
use de_pipeline_tool.Builder.Samples.{program, scope, operator, host, string_rule}

-- Everything that the events run.
unfoldable playing : Unit {0}
unfolding program run connection_noticed
playing = tt

abbrev page₀ : Scope
page₀ = scope []

abbrev item : ℕ → String → OperatorType → Operator
item ref name type = operator ref name type none none

abbrev page₁ : Scope
page₁ = state_of (run (dropped_at 10 20 (some (item 1 "in" binary_input))) page₀)

abbrev page₂ : Scope
page₂ = state_of (run (dropped_at 30 20 (some (item 2 "out" binary_output))) page₁)

abbrev page₃ : Scope
page₃ = state_of (run (drawn (λ os. none) 2006 2005) page₂)

abbrev page₄ : Scope
page₄ = state_of (run updated page₃)

abbrev last_of : List Operator → Option Operator
last_of [] = none
last_of (o ∷ []) = some o
last_of (o ∷ p ∷ os) = last_of (p ∷ os)

joined : length page₄.state_objects ≡ 2
unfolding playing
joined = refl

abbrev out_there : Operator
out_there = or_nil (last_of page₄.state_objects) (item 2 "out" binary_output)

out_there-IsRemovable : IsRemovable out_there page₄.state_objects
unfolding playing
out_there-IsRemovable = record { current = λ there e. cc; one = tt }

-- The connection to it is gone as well.
disjoined : length (wires (state_of (run (removed out_there) page₄)).state_objects) ≡ 0
unfolding playing
disjoined = refl

abbrev page₅ : Scope
page₅ = state_of (save_to_manager page₄)

page₄-IsTidy : EverySource IsTidy page₄.state_objects
unfolding playing
page₄-IsTidy = ((record { single = (refl, tt); numbered = ((2006, refl), tt) }, tt), (tt, tt))

remove_all_connections-spared_example :
    remove_all_connections out_there page₄.state_objects
    ≡ spared_operators (or_nil out_there.targets []) page₄.state_objects
remove_all_connections-spared_example =
    remove_all_connections-spared out_there page₄.state_objects out_there-IsRemovable.one
      page₄-IsTidy

abbrev hosts : Property
hosts = record host {
  name = "hosts";
  value = items (some "a" ∷ some "b" ∷ some "" ∷ []);
  validation = some (record string_rule { list = true });
}

abbrev entry : String × Bool → String × Field
entry (key, invalid) = (key, record { invalid = invalid; filename_invalid = none })

abbrev hosts_form : Form
hosts_form = record {
  invalid = true;
  operator_name_invalid = false;
  fields = entry ("hosts0", false) ∷ entry ("hosts1", false) ∷ entry ("hosts2", true) ∷ [];
}

-- The first host is removed, as the page does it, while the last one is still wrong.
abbrev shortened : Operator
shortened = record (item 1 "in" input) {
  properties =
      record hosts { value = items (remove_at (some "a" ∷ some "b" ∷ some "" ∷ []) 0) } ∷ [];
  form = some (remove_from_list hosts 0 hosts_form);
}

update-shortened :
    update (scope (shortened ∷ [])) ≡ thrown (state_of (update (scope (shortened ∷ []))))
unfolding playing remove_from_list delete_key
update-shortened = refl

watch_all-deaf_example :
    watch_all
      ((λ s. record s { state_objects = [] }) ∷ [])
      (state_of (objects_changed (record { scope = scope (shortened ∷ []); updating = false })))
    ≡ record {
      scope = record (state_of (update (scope (shortened ∷ [])))) { state_objects = [] };
      updating = true;
    }
watch_all-deaf_example =
    watch_all-deaf (scope (shortened ∷ [])) (state_of (update (scope (shortened ∷ []))))
      ((λ s. record s { state_objects = [] }) ∷ []) update-shortened
