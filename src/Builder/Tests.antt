-- ===== src/Builder/Tests.antt =====
-- The builder at work on small systems, and its theorems at these.
use de_pipeline_tool.Prelude.{
  String, true, false, List, [], ◌∷◌, ◌++◌, none, some, or_nil, ◌↔◌, All, ◌≡◌, ◌⊎◌, refl, done,
  state_of, ◌then_run◌, length, contains, IsDistinct, ◌+◌, count, ◌==◌, if◌then◌else◌,
}
use de_pipeline_tool.Builder.Model.{
  Connection, Descriptor, Scope, Category, Operator, parser, input, output,
}
use de_pipeline_tool.Builder.Json.{update_json}
use de_pipeline_tool.Builder.Streams.{sinks_of, update_connections}
use de_pipeline_tool.Builder.Streams.Shape.{wires, numbered, update_connections-numbered}
use de_pipeline_tool.Builder.Streams.Sinks.{is_sink, sinks_of-exact}
use de_pipeline_tool.Builder.Check.{validate_all}
use de_pipeline_tool.Builder.Check.Sound.{IsAccepted, validate_all-IsAccepted}
use de_pipeline_tool.Builder.Check.Start.{HasTwo}
use de_pipeline_tool.Builder.Check.Complete.{IsInOrder, validate_all-IsInOrder}
use de_pipeline_tool.Builder.Connect.{link}
use de_pipeline_tool.Builder.Session.{update, save_to_manager, save_operator, last_operators}
use de_pipeline_tool.Builder.Session.Saving.{IsSound, update-save_to_manager-IsSound}
use de_pipeline_tool.Builder.Session.Store.{named, operator_names, save_operator-stored}
use de_pipeline_tool.Builder.Samples.{program, pipeline, scope, operator, wired, target}

abbrev updated : Scope
updated = state_of (update (scope pipeline))

update-pipeline : (update (scope pipeline) ≡ done updated) × (updated.build_invalid ≡ false)
unfolding program
update-pipeline = (refl, refl)

abbrev saved_scope : Scope
saved_scope = state_of (save_to_manager updated)

save-pipeline : save_to_manager updated ≡ done saved_scope
unfolding program
save-pipeline = refl

update-save_to_manager-IsSound_example :
    (saved_scope.sent ≡ updated.sent)
    ⊎ ((d : Descriptor) × (saved_scope.sent ≡ updated.sent ++ d ∷ []) × IsSound updated d)
update-save_to_manager-IsSound_example =
    update-save_to_manager-IsSound (scope pipeline) updated saved_scope update-pipeline.0
      save-pipeline

-- One descriptor was sent.
sent_one : length saved_scope.sent ≡ 1
unfolding program
sent_one = refl

abbrev written : Scope
written = state_of (update_json (scope pipeline) then_run update_connections)

abbrev verdict : Scope
verdict = state_of (validate_all written)

validate-pipeline : (validate_all written ≡ done verdict) × (verdict.build_invalid ≡ false)
unfolding program
validate-pipeline = (refl, refl)

abbrev written_descriptor : Descriptor
written_descriptor =
    or_nil written.descriptor (record {
      state = [];
      name = "";
      id = none;
      operators = [];
      streams = [];
      operator_files = [];
    })

written-HasTwo : All (HasTwo written_descriptor.streams) written.state_objects
unfolding program
written-HasTwo = ((λ e. cc), ((λ e. refl), ((λ e. cc), tt)))

read_back : written.descriptor ≡ some written_descriptor
unfolding program
read_back = refl

validate_all-IsInOrder_example :
    ((s' : Scope) × (validate_all written ≡ done s') × (s'.build_invalid ≡ false))
    ↔ IsInOrder written written_descriptor
validate_all-IsInOrder_example =
    validate_all-IsInOrder written written_descriptor read_back written-HasTwo

-- Two inputs lead to a parser and this to an output. The verdict depends on the order of the canvas: behind
-- the inputs the parser may take both streams, before them it may not.
abbrev in_one : Operator
in_one = operator 1 "in1" input (wired 2001 ("2004" ∷ [])) none

abbrev in_two : Operator
in_two = operator 2 "in2" input (wired 2002 ("2004" ∷ [])) none

abbrev csv : Operator
csv = operator 3 "csv" parser (wired 2003 ("2005" ∷ [])) (target 2004)

abbrev out : Operator
out = operator 4 "out" output none (target 2005)

order_matters :
    ((state_of (update (scope (in_one ∷ in_two ∷ csv ∷ out ∷ [])))).build_invalid ≡ false)
    × ((state_of (update (scope (csv ∷ in_one ∷ in_two ∷ out ∷ [])))).build_invalid ≡ true)
unfolding program
order_matters = (refl, refl)

validate_all-IsAccepted_example : IsAccepted written verdict
validate_all-IsAccepted_example =
    validate_all-IsAccepted written verdict validate-pipeline.0 validate-pipeline.1

abbrev bare : Descriptor
bare = record {
  state = [];
  name = "s";
  id = none;
  operators = [];
  streams = [];
  operator_files = [];
}

abbrev with_bare : Scope
with_bare = record (scope pipeline) { descriptor = some bare }

update_connections-numbered_example :
    update_connections with_bare
    ≡ done (record with_bare {
      descriptor = some (record bare { streams = numbered pipeline 1 (wires pipeline) });
    })
update_connections-numbered_example = update_connections-numbered with_bare bare refl

-- The two streams of the pipeline.
streams_of_pipeline :
    numbered pipeline 1 (wires pipeline)
    ≡ record { name = "Stream 1"; source = "in"; sinks = "csv" ∷ [] }
      ∷ record { name = "Stream 2"; source = "csv"; sinks = "out" ∷ [] }
      ∷ []
unfolding program
streams_of_pipeline = refl

abbrev doubled : List Connection
doubled = link "2003" ∷ link "2003" ∷ link "9" ∷ []

sinks_of-exact_example :
    IsDistinct (sinks_of pipeline doubled [])
    × ((name : String)
        → contains (sinks_of pipeline doubled []) name ≡ is_sink pipeline doubled name)
sinks_of-exact_example = sinks_of-exact pipeline doubled

abbrev stored_category : Category
stored_category = record { name = "Stored Operators"; match_name = none; operators = pipeline }

abbrev stocked : Scope
stocked = record (scope []) { operator_list = some (stored_category ∷ []) }

abbrev tuned : Operator
tuned = operator 5 "csv" parser none none

save_operator-stored_example :
    (ds : List Category) × ((save_operator (some tuned) stocked).operator_list ≡ some ds)
    × (named "csv" (last_operators ds) ≡ (
        if tuned.name == "csv"
        then some (record tuned { ref = 10 })
        else named "csv" (last_operators (stored_category ∷ []))))
    × (count "csv" (operator_names (last_operators ds))
        ≡ count "csv" (operator_names (last_operators (stored_category ∷ [])))
          + (if contains (operator_names (last_operators (stored_category ∷ []))) tuned.name
              then 0
              else if tuned.name == "csv"
              then 1
              else 0))
save_operator-stored_example = save_operator-stored tuned stocked stored_category [] "csv" refl
