-- ===== src/Drawing/Zoom/Level.antt =====
-- The levels of the zoom, whatever order the wheel, the slider and the timers of `dragWorkaround` come in.
use de_pipeline_tool.Prelude.{
  ℕ, zero, suc, ◌+◌, ◌-◌, ◌*◌, ◌≤◌, List, [], ◌∷◌, ◌≡◌, refl, sym, true, ap, ◌∙◌, subst, inl, inr,
  ltb, arith, Bool-cases,
}
use de_pipeline_tool.Prelude.Integers.{ℤ, pos, up, down, raise, lower, up-down}
use de_pipeline_tool.Drawing.Zoom.{
  is_below, is_above, Zoom, ZoomEvent, wheel_up, wheel_down, rested, slide, placed, lower_fires,
  raise_fires, emptied, cached, zoom_in, zoom_out, turn_up, turn_down, drag_workaround, lower_timer,
  raise_timer, zoom_step, zoom_all,
}

-- A level that the slider offers: from 20 to 90 in steps of 5.
abbrev pub IsLevel : ℤ → Type 0
IsLevel z = (k : ℕ) × (z ≡ pos (5 * k)) × (4 ≤ k) × (k ≤ 18)

-- The zoom is a level, but for the timers that will raise it again.
abbrev pub Steady : Zoom → Type 0
Steady z = IsLevel (raise z.lowered z.zoom)

-- The user turns, slides, clears and loads only where no timer is left that will raise the zoom; what is loaded
-- has a level.
abbrev pub Offered : ZoomEvent → Zoom → Type 0
Offered wheel_up z = z.lowered ≡ 0
Offered wheel_down z = z.lowered ≡ 0
Offered (slide n) z = (z.lowered ≡ 0) × IsLevel (pos n)
Offered emptied z = z.lowered ≡ 0
Offered (cached n) z = (z.lowered ≡ 0) × IsLevel (pos n)
Offered _ z = Unit

abbrev pub AllOffered : List ZoomEvent → Zoom → Type 0
AllOffered [] z = Unit
AllOffered (e ∷ es) z = Offered e z × AllOffered es (zoom_step e z)

resting : (z : Zoom) → z.lowered ≡ 0 → Steady z → IsLevel z.zoom
resting z h l = subst (λ n. IsLevel (raise n z.zoom)) h l

five_less : (k : ℕ) → 4 ≤ k → lower 5 (pos (5 * k)) ≡ pos (5 * (k - 1))
five_less k h =
    let e : 5 * k ≡ suc (suc (suc (suc (suc (5 * (k - 1)))))) = omega arith in
    ap (λ n. lower 5 (pos n)) e

turn_up-Steady : (z : Zoom) → z.lowered ≡ 0 → Steady z → Steady (turn_up z)
unfolding turn_up zoom_in
turn_up-Steady z h l =
    let (k, e, low, high) = resting z h l in
    elim (Bool-cases (is_below 90 z.zoom)) [
      | inr top ↦ rw top l
      | inl below ↦ elim (Bool-cases z.zoom_busy) [
        | inl busy ↦ rw (below, busy) l
        | inr idle ↦
            let b : ltb (5 * k) 90 ≡ true = ap (is_below 90) (sym e) ∙ below in
            rw (below, idle, h, e) (k + 1, ap pos (omega arith), omega arith, ground arith)
      ]
    ]

turn_down-Steady : (z : Zoom) → z.lowered ≡ 0 → Steady z → Steady (turn_down z)
unfolding turn_down zoom_out
turn_down-Steady z h l =
    let (k, e, low, high) = resting z h l in
    elim (Bool-cases (is_above 20 z.zoom)) [
      | inr bottom ↦ rw bottom l
      | inl above ↦ elim (Bool-cases z.zoom_busy) [
        | inl busy ↦ rw (above, busy) l
        | inr idle ↦
            let b : ltb 20 (5 * k) ≡ true = ap (is_above 20) (sym e) ∙ above in
            rw (above, idle, h, e) (k - 1, five_less k low, ground arith, omega arith)
      ]
    ]

timers-Steady : (z : Zoom) → Steady z → Steady (lower_timer z) × Steady (raise_timer z)
unfolding lower_timer raise_timer
timers-Steady z l = (lowers z.waiting, raises z.lowered refl)
  where
    lowers :
        (n : ℕ)
        → Steady (elim n [
          | zero ↦ z
          | suc n ↦ record z { waiting = n; lowered = suc z.lowered; zoom = down z.zoom }
        ])
    lowers zero = l
    lowers (suc n) = rw (up-down z.zoom) l

    raises :
        (n : ℕ)
        → z.lowered ≡ n
        → Steady (elim n [ zero ↦ z | suc n ↦ record z { lowered = n; zoom = up z.zoom } ])
    raises zero h = l
    raises (suc n) h = subst (λ m. IsLevel (raise m z.zoom)) h l

step-Steady : (e : ZoomEvent) (z : Zoom) → Offered e z → Steady z → Steady (zoom_step e z)
unfolding zoom_step drag_workaround
step-Steady wheel_up z h l = turn_up-Steady z h l
step-Steady wheel_down z h l = turn_down-Steady z h l
step-Steady rested z h l = l
step-Steady (slide n) z (h, o) l = rw h o
step-Steady placed z h l = l
step-Steady lower_fires z h l = (timers-Steady z l).0
step-Steady raise_fires z h l = (timers-Steady z l).1
step-Steady emptied z h l = rw h (6, refl, omega arith, omega arith)
step-Steady (cached n) z (h, o) l = rw h o

-- Whatever the user turns, slides, places, clears and loads, and in whatever order the timers of the placed
-- operators fire: as long as nobody turns, slides, clears or loads between the two timers of an operator, and the
-- cache has a level, the zoom plus the number of timers that will still raise it is a level of the slider.
-- So it is a level itself where none is left.
pub zoom_all-IsLevel :
    (es : List ZoomEvent) (z : Zoom)
    → AllOffered es z
    → IsLevel (raise z.lowered z.zoom)
    → IsLevel (raise (zoom_all es z).lowered (zoom_all es z).zoom)
unfolding zoom_all
zoom_all-IsLevel [] z h l = l
zoom_all-IsLevel (e ∷ es) z (o, h) l = zoom_all-IsLevel es (zoom_step e z) h (step-Steady e z o l)
