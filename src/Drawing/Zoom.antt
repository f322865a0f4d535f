-- ===== src/Drawing/Zoom.antt =====
-- The zoom of the canvas: `zoomIn`, `zoomOut` and the wheel in directives.js, the slider of
-- system-builder.html, and what system-builder.controller.js writes to it: `dragWorkaround`, `removeAll` and
-- `load`.
pub mod Level
use de_pipeline_tool.Prelude.{
  ℕ, zero, suc, ◌+◌, Bool, true, false, List, [], ◌∷◌, if◌then◌else◌, ltb,
}
use de_pipeline_tool.Prelude.Integers.{ℤ, pos, negsuc, up, down, raise, lower}

-- `waiting` and `lowered` count the timers of `dragWorkaround`: those that will lower the zoom by one, and
-- those that will raise it again.
pub record Zoom : Type 0 where
  pub zoom : ℤ
  pub zoom_busy : Bool
  pub waiting : ℕ
  pub lowered : ℕ

-- A turn of the wheel, up or down; the end of the pause that a change begins; a value that the slider
-- sets; an operator that is placed, and the two timers of its `dragWorkaround`; the canvas is cleared, and one
-- with a zoom of its own is loaded from the cache.
pub data ZoomEvent : Type 0 where
  wheel_up wheel_down rested : ZoomEvent
  slide : ℕ → ZoomEvent
  placed lower_fires raise_fires emptied : ZoomEvent
  cached : ℕ → ZoomEvent

unfoldable pub zoom_in : Zoom → Zoom
zoom_in z = if z.zoom_busy then z else record z { zoom = raise 5 z.zoom; zoom_busy = true }

unfoldable pub zoom_out : Zoom → Zoom
zoom_out z = if z.zoom_busy then z else record z { zoom = lower 5 z.zoom; zoom_busy = true }

-- `zoom < n`
abbrev pub is_below : ℕ → ℤ → Bool
is_below n (pos m) = ltb m n
is_below n (negsuc m) = true

-- `zoom > n`
abbrev pub is_above : ℕ → ℤ → Bool
is_above n (pos m) = ltb n m
is_above n (negsuc m) = false

-- The listener of `wheel`.
unfoldable pub turn_up : Zoom → Zoom
turn_up z = if is_below 90 z.zoom then zoom_in z else z

unfoldable pub turn_down : Zoom → Zoom
turn_down z = if is_above 20 z.zoom then zoom_out z else z

-- `dragWorkaround`, and its timers.
unfoldable pub drag_workaround : Zoom → Zoom
drag_workaround z = record z { waiting = z.waiting + 1 }

unfoldable pub lower_timer : Zoom → Zoom
lower_timer z = elim z.waiting [
  | zero ↦ z
  | suc n ↦ record z { waiting = n; lowered = suc z.lowered; zoom = down z.zoom }
]

unfoldable pub raise_timer : Zoom → Zoom
raise_timer z = elim z.lowered [ zero ↦ z | suc n ↦ record z { lowered = n; zoom = up z.zoom } ]

unfoldable pub zoom_step : ZoomEvent → Zoom → Zoom
zoom_step wheel_up z = turn_up z
zoom_step wheel_down z = turn_down z
zoom_step rested z = record z { zoom_busy = false }
zoom_step (slide n) z = record z { zoom = pos n }
zoom_step placed z = drag_workaround z
zoom_step lower_fires z = lower_timer z
zoom_step raise_fires z = raise_timer z
zoom_step emptied z = record z { zoom = pos 30 }
zoom_step (cached n) z = record z { zoom = pos n }

unfoldable pub zoom_all : List ZoomEvent → Zoom → Zoom
zoom_all [] z = z
zoom_all (e ∷ es) z = zoom_all es (zoom_step e z)
