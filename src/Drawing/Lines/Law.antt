-- ===== src/Drawing/Lines/Law.antt =====
-- What the directive relies on, and what stands on the drawing where no timer is left to the dropped.
use de_pipeline_tool.Prelude.{
  ℕ, Bool, true, false, List, [], ◌∷◌, Option, none, some, ◌≡◌, eqb, if◌then◌else◌,
}
use de_pipeline_tool.Drawing.Lines.{
  Instance, Lines, LineEvent, linked, fired, destroyed, is_in, line_step,
}

-- What the code relies on. `ends line d` is the target and the source of a connection of the drawing `d`, and
-- `has_endpoint` tells the endpoints of the drawing.
pub record Draws {D : Type 0} (instance_of : Instance D) (ends : ℕ → D → Option (ℕ × ℕ))
    (has_endpoint : ℕ → D → Bool) : Type 0 where
  pub connects :
      (target source : ℕ) (d : D)
      → has_endpoint target d ≡ true
      → has_endpoint source d ≡ true
      → (line : ℕ) × ((instance_of.connect target source d).0 ≡ some line)
        × (ends line d ≡ none)
        × ((l : ℕ)
            → ends l (instance_of.connect target source d).1
              ≡ (if eqb l line then some (target, source) else ends l d))
  pub detaches :
      (line l : ℕ) (d : D)
      → ends l (instance_of.detach line d) ≡ (if eqb l line then none else ends l d)
  pub stays_connected :
      (target source e : ℕ) (d : D)
      → has_endpoint e (instance_of.connect target source d).1 ≡ has_endpoint e d
  pub stays_detached :
      (line e : ℕ) (d : D) → has_endpoint e (instance_of.detach line d) ≡ has_endpoint e d
  pub tells_ends :
      (line : ℕ) (e : ℕ × ℕ) (d : D) → ends line d ≡ some e → instance_of.has_ends line d ≡ true

module _ {D : Type 0} (instance_of : Instance D) (ends : ℕ → D → Option (ℕ × ℕ))
    (has_endpoint : ℕ → D → Bool) (source : ℕ) where
  -- The page links one directive for each target, to an endpoint that is there, and destroys none before its
  -- timer.
  abbrev pub Settled : LineEvent → Lines D → Type 0
  Settled (linked t) v = (is_in t v.mounted ≡ false) × (has_endpoint t v.drawing ≡ true)
  Settled fired v = Unit
  Settled (destroyed t) v = is_in t v.timers ≡ false

  abbrev pub AllSettled : List LineEvent → Lines D → Type 0
  AllSettled [] v = Unit
  AllSettled (e ∷ es) v = Settled e v × AllSettled es (line_step instance_of source e v)

module _ {D : Type 0} (ends : ℕ → D → Option (ℕ × ℕ)) (has_endpoint : ℕ → D → Bool)
    (source : ℕ) where
  pub record IsDrawn (v : Lines D) : Type 0 where
    pub kept : (l t : ℕ) → ends l v.drawing ≡ some (t, source) → v.connection_objects t ≡ some l
    pub drawn : (l t : ℕ) → v.connection_objects t ≡ some l → ends l v.drawing ≡ some (t, source)
    pub shown : (l t : ℕ) → v.connection_objects t ≡ some l → is_in t v.mounted ≡ true
    pub ready :
        (t : ℕ)
        → is_in t v.mounted ≡ true
        → is_in t v.timers ≡ false
        → (l : ℕ) × (v.connection_objects t ≡ some l)
    pub awaited : (t : ℕ) → is_in t v.timers ≡ true → is_in t v.mounted ≡ true
    pub ended :
        (has_endpoint source v.drawing ≡ true)
        × ((t : ℕ) → is_in t v.mounted ≡ true → has_endpoint t v.drawing ≡ true)
