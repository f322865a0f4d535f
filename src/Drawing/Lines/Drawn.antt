-- ===== src/Drawing/Lines/Drawn.antt =====
-- What stands on the drawing behind any order of directives and timers.
use mathlib.Core.Option.{some-injective}
use de_pipeline_tool.Prelude.{
  ◌↔◌, ◌≢◌, ◌⊎◌, Bool-cases, ℕ, Bool, true, false, List, [], ◌∷◌, Option, none, some, ◌≡◌, sym, ◌∙◌,
  inl, inr, arith,
}
use de_pipeline_tool.Drawing.Lines.{
  Instance, Lines, LineEvent, linked, fired, destroyed, is_in, line_step, line_all,
}
use de_pipeline_tool.Drawing.Lines.Law.{Draws, AllSettled, IsDrawn}
use de_pipeline_tool.Drawing.Lines.Firing.{linked-IsDrawn, fired-IsDrawn}
use de_pipeline_tool.Drawing.Lines.Erasing.{destroyed-IsDrawn}

-- The endpoint as its controller makes it.
abbrev pub no_lines : {D : Type 0} → D → Lines D
no_lines d = record { drawing = d; connection_objects = λ t. none; mounted = []; timers = [] }

module _ {D : Type 0} (instance_of : Instance D) (ends : ℕ → D → Option (ℕ × ℕ))
    (has_endpoint : ℕ → D → Bool) (source : ℕ) (draws : Draws instance_of ends has_endpoint) where
  line_all-IsDrawn :
      (es : List LineEvent) (v : Lines D)
      → AllSettled instance_of ends has_endpoint source es v
      → IsDrawn ends has_endpoint source v
      → IsDrawn ends has_endpoint source (line_all instance_of source es v)
  unfolding line_all
  line_all-IsDrawn [] v h i = i
  line_all-IsDrawn (linked t ∷ es) v (o, h) i =
      line_all-IsDrawn es (line_step instance_of source (linked t) v) h
        (linked-IsDrawn instance_of ends has_endpoint source draws t v o i)
  line_all-IsDrawn (fired ∷ es) v (o, h) i =
      line_all-IsDrawn es (line_step instance_of source fired v) h
        (fired-IsDrawn instance_of ends has_endpoint source draws v i)
  line_all-IsDrawn (destroyed t ∷ es) v (o, h) i =
      line_all-IsDrawn es (line_step instance_of source (destroyed t) v) h
        (destroyed-IsDrawn instance_of ends has_endpoint source draws t v o i)

-- Whatever directives come and go and whenever their timers fire, if no two are linked to one target at once,
-- every target's endpoint is there, and none is destroyed before its timer: from the endpoint to a target for
-- which no timer is left leads exactly one line if the page has a directive for it, and none otherwise.
pub line_all-mounted :
    {D : Type 0} (instance_of : Instance D) (ends : ℕ → D → Option (ℕ × ℕ))
    (has_endpoint : ℕ → D → Bool) (source : ℕ)
    → Draws instance_of ends has_endpoint
    → (d : D) → ((l t : ℕ) → ends l d ≢ some (t, source))
    → has_endpoint source d ≡ true
    → (es : List LineEvent) → AllSettled instance_of ends has_endpoint source es (no_lines d)
    → (t : ℕ) → is_in t (line_all instance_of source es (no_lines d)).timers ≡ false
    → ((is_in t (line_all instance_of source es (no_lines d)).mounted ≡ true)
        × (l : ℕ) × ((m : ℕ)
            → (ends m (line_all instance_of source es (no_lines d)).drawing ≡ some (t, source))
              ↔ (m ≡ l)))
      ⊎ ((is_in t (line_all instance_of source es (no_lines d)).mounted ≡ false)
          × ((m : ℕ)
              → ends m (line_all instance_of source es (no_lines d)).drawing ≢ some (t, source)))
line_all-mounted instance_of ends has_endpoint source draws d empty there es h t free =
    let v = line_all instance_of source es (no_lines d) in
    let start : IsDrawn ends has_endpoint source (no_lines d) = record {
      kept = λ l u e. elim (empty l u e) [ ];
      drawn = λ l u e. ground arith;
      shown = λ l u e. ground arith;
      ready = λ u e k. ground arith;
      awaited = λ u e. ground arith;
      ended = (there, λ u e. ground arith);
    } in
    let i = line_all-IsDrawn instance_of ends has_endpoint source draws es (no_lines d) h start in
    elim (Bool-cases (is_in t v.mounted)) [
      | inl on ↦
          let (l, c) = i.ready t on free in
          inl (
            on,
            l,
            λ m.
                (λ e. some-injective m l (sym (i.kept m t e) ∙ c), λ same. rw same (i.drawn l t c)),
          )
      | inr off ↦ inr (off, λ m e. let on = i.shown m t (i.kept m t e) in ground arith)
    ]
