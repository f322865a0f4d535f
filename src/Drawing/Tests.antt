-- ===== src/Drawing/Tests.antt =====
-- The zoom on a few events, and the theorem on it there.
use de_pipeline_tool.Prelude.{List, [], ◌∷◌, false, ◌≡◌, refl, arith}
use de_pipeline_tool.Prelude.Integers.{pos, raise}
use de_pipeline_tool.Drawing.Zoom.{
  Zoom, ZoomEvent, wheel_up, rested, slide, placed, lower_fires, raise_fires, zoom_in, turn_up,
  drag_workaround, lower_timer, raise_timer, zoom_step, zoom_all,
}
use de_pipeline_tool.Drawing.Zoom.Level.{IsLevel, AllOffered, zoom_all-IsLevel}

abbrev resting : Zoom
resting = record { zoom = pos 80; zoom_busy = false; waiting = 0; lowered = 0 }

-- The second turn comes too early.
two_turns : (zoom_all (wheel_up ∷ wheel_up ∷ rested ∷ []) resting).zoom ≡ pos 85
unfolding zoom_all zoom_step turn_up zoom_in
two_turns = refl

abbrev highest : Zoom
highest = record resting { zoom = pos 90 }

-- A turn between the two timers of a placed operator passes the highest level.
turn_between : (zoom_all (placed ∷ lower_fires ∷ wheel_up ∷ raise_fires ∷ []) highest).zoom ≡ pos 95
unfolding zoom_all zoom_step turn_up zoom_in drag_workaround lower_timer raise_timer
turn_between = refl

-- Two operators are placed, and their timers fire one within the other.
abbrev placing : List ZoomEvent
placing =
    wheel_up
    ∷ placed
    ∷ placed
    ∷ lower_fires
    ∷ lower_fires
    ∷ raise_fires
    ∷ rested
    ∷ raise_fires
    ∷ slide 25
    ∷ wheel_up
    ∷ []

placing-AllOffered : AllOffered placing resting
unfolding zoom_step turn_up zoom_in drag_workaround lower_timer raise_timer
placing-AllOffered = (
  refl,
  (
    tt,
    (tt, (tt, (tt, (tt, (tt, (tt, ((refl, (5, refl, omega arith, omega arith)), (refl, tt)))))))),
  ),
)

zoom_all-IsLevel_example :
    IsLevel (raise (zoom_all placing resting).lowered (zoom_all placing resting).zoom)
zoom_all-IsLevel_example =
    zoom_all-IsLevel placing resting placing-AllOffered (16, refl, omega arith, omega arith)
