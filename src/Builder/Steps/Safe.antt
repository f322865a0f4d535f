-- ===== src/Builder/Steps/Safe.antt =====
-- On every page that can come about, what the handlers leave on the canvas, and where they return.
use de_pipeline_tool.Prelude.{◌≡◌, ◌⊎◌, done, state_of, Outcome}
use de_pipeline_tool.Builder.Model.{Scope}
use de_pipeline_tool.Builder.Steps.{Event, Fails}
use de_pipeline_tool.Builder.Steps.Order.{IsOrdered}

-- The handler returns, with the canvas in order.
abbrev pub EndsInOrder : Outcome Scope → Type 0
EndsInOrder m = (s' : Scope) × (m ≡ done s') × IsOrdered s'.state_objects

-- The handler ends with the canvas in order, and returns unless it fails.
abbrev pub Ends : Event → Scope → Outcome Scope → Type 0
Ends e s m = IsOrdered (state_of m).state_objects × ((m ≡ done (state_of m)) ⊎ Fails e s)
