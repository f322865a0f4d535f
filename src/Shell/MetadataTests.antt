-- ===== src/Shell/MetadataTests.antt =====
-- The metadata on its way, on small inputs.
use de_pipeline_tool.Prelude.{
  true, false, List, [], ◌∷◌, none, some, ◌≡◌, ◌⊎◌, refl, is_some, is_done,
}
use de_pipeline_tool.Builder.Session.{receive_operators}
use de_pipeline_tool.Builder.Samples.{scope}
use de_pipeline_tool.Library.Operators
use de_pipeline_tool.Library.Operators.{
  new_operator, no_properties, text, mentions, drop_deleted, receive,
}
use de_pipeline_tool.Shell.Metadata.{
  Pages, PageEvent, answered, received, ribbon_ready, sending_operators, refresh_ribbon, set_ribbon,
  data_message, page_step, page_all, own_all, page_all-received,
}

abbrev pages : Pages
pages = record {
  builder = record (scope []) { operator_list = none };
  library = record {
    operators = [];
    active = some (no_properties 0);
    last_active = none;
    use_jar = false;
    disable_save = false;
    next_ref = 9;
    requests = [];
  };
  loading = true;
  ribbon_set = false;
  display_list = none;
  asked = 1;
}

abbrev copies : List Operators.Operator
copies =
    record (new_operator 1) { id = text "5f01" } ∷ record (new_operator 2) { id = text "5f02" } ∷ []

-- A first list that comes behind the ribbon's pause is not shown.
late_list :
    is_some (page_all (λ p. false) (ribbon_ready ∷ received copies [] ∷ []) pages).display_list
    ≡ false
unfolding page_all page_step data_message sending_operators refresh_ribbon set_ribbon
    receive_operators
late_list = refl

-- A second list before the end of the pause finds no `refreshOperators`.
early_list :
    is_done
      (data_message (λ p. false) copies [] (page_step (λ p. false) (received copies []) pages))
    ≡ false
unfolding page_step data_message sending_operators refresh_ribbon receive_operators
early_list = refl

-- An operator is deleted, and the list that the deletion asks for goes to the ribbon.
abbrev later : List PageEvent
later = ribbon_ready ∷ answered "Deleted 5f01" ∷ received [] [] ∷ []

page_all-received_example :
    ((page_all (λ p. false) (received copies [] ∷ later) pages).library
      ≡ own_all (λ p. false) later (record pages.library { operators = copies }))
    × (((page_all (λ p. false) (received copies [] ∷ later) pages).ribbon_set ≡ false)
        ⊎ ((page_all (λ p. false) (received copies [] ∷ later) pages).display_list
            ≡ (page_all (λ p. false) (received copies [] ∷ later) pages).builder.operator_list))
page_all-received_example = page_all-received (λ p. false) copies [] later pages refl refl
