-- ===== src/Library/Tests.antt =====
-- The operator library on small inputs, and its theorems at these.
use de_pipeline_tool.Prelude.{
  ℕ, length, String, false, List, [], ◌∷◌, none, some, ◌≡◌, refl, inl, arith, done, state_of,
}
use de_pipeline_tool.Library.Operators
use de_pipeline_tool.Library.Operators.{
  Operator, text, null, mentions, names_id, drop_deleted, new_operator, no_properties, add_operator,
  delete_operator, receive, save_operator,
}
use de_pipeline_tool.Library.Operators.Saving.{save_operator-receive}
use de_pipeline_tool.Library.Operators.Deletion.{
  without, receive-without, add_operator-delete_operator,
}
use de_pipeline_tool.Library.Rules
use de_pipeline_tool.Library.Rules.{new_rule, select_rule, delete_rule, fresh_rule}
use de_pipeline_tool.Library.Rules.Selection.{
  IsSelected, create, drop, Steps, stop, step, Steps-IsSelected,
}

abbrev stored : ℕ → String → Operator
stored ref id = record (new_operator ref) { id = text id }

abbrev library : List Operator → Operators.Scope
library operators = record {
  operators = operators;
  active = some (no_properties 0);
  last_active = none;
  use_jar = false;
  disable_save = false;
  next_ref = 9;
  requests = [];
}

abbrev two : Operators.Scope
two = library (stored 1 "5f01" ∷ stored 2 "5f02" ∷ [])

one_deleted : receive "Deleted 5f01" two ≡ done (library (stored 2 "5f02" ∷ []))
unfolding receive mentions drop_deleted
one_deleted = refl

-- An answer that mentions both deletes the first only.
second_kept : receive "Deleted 5f01, 5f02" two ≡ done (library (stored 2 "5f02" ∷ []))
unfolding receive mentions drop_deleted
second_kept = refl

receive-without_example :
    receive "Deleted 5f01" two
    ≡ done (record two { operators = without (names_id "Deleted 5f01") two.operators })
unfolding mentions
receive-without_example = receive-without "Deleted 5f01" two refl (omega arith)

add_operator-delete_operator_example :
    (s' : Operators.Scope) × (delete_operator (length two.operators) null (add_operator two)
      ≡ done s')
    × (s'.operators ≡ two.operators)
    × (s'.requests ≡ [])
add_operator-delete_operator_example = add_operator-delete_operator two

save_operator-receive_example :
    ((state_of (receive "5f03" (state_of (save_operator false "jar" (add_operator two))))).active
      ≡ some (record (new_operator 9) { id = text "5f03" }))
    × ((state_of
          (receive "5f03" (state_of (save_operator false "jar" (add_operator two))))).disable_save
        ≡ false)
unfolding mentions add_operator
save_operator-receive_example =
    save_operator-receive "5f03" "jar" (add_operator two) (new_operator 9) [] refl refl refl

abbrev no_rules : Rules.Scope
no_rules = record { rules = []; active = none; next_ref = 0 }

abbrev two_rules : Rules.Scope
two_rules = new_rule (new_rule no_rules)

no_rules-IsSelected : IsSelected no_rules
unfolding IsSelected
no_rules-IsSelected = inl refl

-- Two rules are made, and the second is deleted.
make_and_drop : Steps no_rules (delete_rule (fresh_rule 1) 1 two_rules)
unfolding new_rule select_rule
make_and_drop = step _ _ _ (create no_rules) (
    step _ _ _ (create (new_rule no_rules)) (
      step _ _ _ (drop (fresh_rule 1) 1 two_rules refl)
        (stop (delete_rule (fresh_rule 1) 1 two_rules))))

Steps-IsSelected_example : IsSelected (delete_rule (fresh_rule 1) 1 two_rules)
Steps-IsSelected_example =
    Steps-IsSelected no_rules (delete_rule (fresh_rule 1) 1 two_rules) make_and_drop
      no_rules-IsSelected
