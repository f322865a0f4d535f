-- ===== src/Drawing/Lines.antt =====
-- The directive `jsPlumbConnection` of directives.js: each connection of a source endpoint has one, which
-- draws its line behind a pause and takes it off when the page drops the connection.
pub mod Members
pub mod Law
mod Firing
mod Erasing
pub mod Drawn
use de_pipeline_tool.Prelude.{
  ℕ, Bool, true, false, not, ◌&&◌, List, [], ◌∷◌, ◌++◌, Option, none, some, if◌then◌else◌, eqb,
}

-- What the directive calls of the drawing library: `connect`, which answers a connection unless one of the
-- endpoints is missing, `detach`, and the test that a connection has its source and its target.
pub record Instance (D : Type 0) : Type 0 where
  pub connect : ℕ → ℕ → D → Option ℕ × D
  pub detach : ℕ → D → D
  pub has_ends : ℕ → D → Bool

-- The drawing, and of one endpoint `connectionObjects`, the targets of its directives, and the timers that
-- have not fired, which do so in their order.
pub record Lines (D : Type 0) : Type 0 where
  pub drawing : D
  pub connection_objects : ℕ → Option ℕ
  pub mounted : List ℕ
  pub timers : List ℕ

-- A directive is linked; the next timer fires; the directive is destroyed.
pub data LineEvent : Type 0 where
  linked : ℕ → LineEvent
  fired : LineEvent
  destroyed : ℕ → LineEvent

-- `connectionObjects[target] = o`
unfoldable pub put : ℕ → Option ℕ → (ℕ → Option ℕ) → ℕ → Option ℕ
put target o objects u = if eqb u target then o else objects u

abbrev pub is_in : ℕ → List ℕ → Bool
is_in t [] = false
is_in t (u ∷ us) = if eqb t u then true else is_in t us

abbrev pub without : ℕ → List ℕ → List ℕ
without t [] = []
without t (u ∷ us) = let rest = without t us in if eqb t u then rest else u ∷ rest

module _ {D : Type 0} (instance_of : Instance D) (source : ℕ) where
  -- The callback of the timer.
  unfoldable pub draw : ℕ → Lines D → Lines D
  draw target v = elim (v.connection_objects target) [
    | some line ↦ v
    | none ↦
        let (line, d) = instance_of.connect target source v.drawing in
        record v { drawing = d; connection_objects = put target line v.connection_objects }
  ]

  -- The listener of `$destroy`.
  unfoldable pub destroy : ℕ → Lines D → Lines D
  destroy target v = record v {
    drawing = elim (v.connection_objects target) [
      | none ↦ v.drawing
      | some line ↦
          if instance_of.has_ends line v.drawing
          then instance_of.detach line v.drawing
          else v.drawing
    ];
    connection_objects = put target none v.connection_objects;
  }

  unfoldable pub line_step : LineEvent → Lines D → Lines D
  line_step (linked t) v = record v { mounted = t ∷ v.mounted; timers = v.timers ++ t ∷ [] }
  line_step fired v = elim v.timers [ [] ↦ v | t ∷ ts ↦ draw t (record v { timers = ts }) ]
  line_step (destroyed t) v = destroy t (record v { mounted = without t v.mounted })

  unfoldable pub line_all : List LineEvent → Lines D → Lines D
  line_all [] v = v
  line_all (e ∷ es) v = line_all es (line_step e v)
