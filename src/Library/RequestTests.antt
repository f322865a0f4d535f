-- ===== src/Library/RequestTests.antt =====
-- Requests for rules on a small list, and the theorems on them there.
use de_pipeline_tool.Prelude.{ℕ, String, false, [], ◌∷◌, some, get_elem?, ◌≡◌, refl, done}
use de_pipeline_tool.Library.Rules.{Rule, fresh_rule, select_rule}
use de_pipeline_tool.Library.Rules.Requests.{
  Desk, save_validation, receive_saved, save_validation-select,
}

abbrev known : ℕ → String → Rule
known ref id = record (fresh_rule ref) { id = some id }

abbrev desk : Desk
desk = record {
  scope = record {
    rules = known 0 "a" ∷ known 1 "b" ∷ known 2 "c" ∷ fresh_rule 3 ∷ [];
    active = some (fresh_rule 3);
    next_ref = 4;
  };
  deleting = [];
  shared = false;
  sent = [];
}

save_validation-select_example :
    (asked : Desk) × (answered : Desk) × (save_validation desk ≡ done asked)
    × (receive_saved "d" (record asked { scope = select_rule 0 asked.scope }) ≡ done answered)
    × (get_elem? answered.scope.rules 0 ≡ some (record (known 0 "a") { id = some "d" }))
    × (get_elem? answered.scope.rules 3 ≡ some (fresh_rule 3))
save_validation-select_example =
    save_validation-select desk (fresh_rule 3) (known 0 "a") 3 0 "d" refl refl refl refl refl
