-- ===== src/Library/Operators/Saving.antt =====
-- The saving of operators in the operator library.
use de_pipeline_tool.Prelude.{String, false, List, some, ◌≡◌, arith, state_of}
use de_pipeline_tool.Library.Operators.{
  Operator, Property, Scope, text, mentions, receive, send_metadata, save_operator,
}

-- When the selected operator has properties and no new file, saving it and an answer that does not
-- say `Deleted` give that operator the answer as its id, and saving is possible again.
pub save_operator-receive :
    (answer chosen : String) (s : Scope) (o : Operator) (ps : List Property)
    → s.active ≡ some o
    → o.properties ≡ some ps
    → mentions answer "Deleted" ≡ false
    → ((state_of (receive answer (state_of (save_operator false chosen s)))).active
        ≡ some (record o { id = text answer }))
      × ((state_of (receive answer (state_of (save_operator false chosen s)))).disable_save ≡ false)
unfolding save_operator send_metadata receive
save_operator-receive answer chosen s o ps h k n = (ground arith, ground arith)
