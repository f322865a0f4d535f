-- ===== src/Drawing/LineTests.antt =====
-- A drawing with a slot for each connection, on which the directives are tried.
use de_pipeline_tool.Prelude.{
  ℕ, zero, suc, Bool, true, false, List, [], ◌∷◌, ◌++◌, Option, none, some, ◌≡◌, ◌≢◌, ◌↔◌, ◌⊎◌,
  refl, eqb, length, arith, is_some, if◌then◌else◌,
}
use de_pipeline_tool.Drawing.Lines.{
  Instance, LineEvent, linked, fired, destroyed, put, is_in, draw, destroy, line_step, line_all,
}
use de_pipeline_tool.Drawing.Lines.Law.{Draws, AllSettled}
use de_pipeline_tool.Drawing.Lines.Drawn.{no_lines, line_all-mounted}

abbrev Slots : Type 0
Slots = List (Option (ℕ × ℕ))

abbrev slot : ℕ → Slots → Option (ℕ × ℕ)
slot l [] = none
slot zero (x ∷ xs) = x
slot (suc l) (x ∷ xs) = slot l xs

abbrev cleared : ℕ → Slots → Slots
cleared l [] = []
cleared zero (x ∷ xs) = none ∷ xs
cleared (suc l) (x ∷ xs) = x ∷ cleared l xs

abbrev every_endpoint : ℕ → Slots → Bool
every_endpoint e d = true

abbrev slots : Instance Slots
slots = record {
  connect = λ target source d. (some (length d), d ++ some (target, source) ∷ []);
  detach = cleared;
  has_ends = λ l d. is_some (slot l d);
}

slot-length : (d : Slots) → slot (length d) d ≡ none
slot-length [] = refl
slot-length (x ∷ xs) = slot-length xs

slot-snoc :
    (l : ℕ) (e : ℕ × ℕ) (d : Slots)
    → slot l (d ++ some e ∷ []) ≡ (if eqb l (length d) then some e else slot l d)
slot-snoc zero e [] = ground arith
slot-snoc (suc l) e [] = ground arith
slot-snoc zero e (x ∷ xs) = ground arith
slot-snoc (suc l) e (x ∷ xs) = let rest = slot-snoc l e xs in ground arith

slot-cleared :
    (line l : ℕ) (d : Slots) → slot l (cleared line d) ≡ (if eqb l line then none else slot l d)
slot-cleared line l [] = ground arith
slot-cleared zero zero (x ∷ xs) = ground arith
slot-cleared zero (suc l) (x ∷ xs) = ground arith
slot-cleared (suc line) zero (x ∷ xs) = ground arith
slot-cleared (suc line) (suc l) (x ∷ xs) = let rest = slot-cleared line l xs in ground arith

slots-Draws : Draws slots slot every_endpoint
slots-Draws = record {
  connects =
      λ target source d h k. (length d, refl, slot-length d, λ l. slot-snoc l (target, source) d);
  detaches = slot-cleared;
  stays_connected = λ target source e d. refl;
  stays_detached = λ line e d. refl;
  tells_ends = λ line e d h. rw h refl;
}

-- A directive that is destroyed before its timer leaves a line behind.
late_timer :
    slot 0 (line_all slots 1 (linked 5 ∷ destroyed 5 ∷ fired ∷ []) (no_lines [])).drawing
    ≡ some (5, 1)
unfolding line_all line_step draw destroy put
late_timer = refl

abbrev two_targets : List LineEvent
two_targets = linked 5 ∷ linked 6 ∷ fired ∷ fired ∷ destroyed 5 ∷ []

two_targets-AllSettled : AllSettled slots slot every_endpoint 1 two_targets (no_lines [])
unfolding line_step draw destroy put
two_targets-AllSettled = ((refl, refl), ((refl, refl), (tt, (tt, (refl, tt)))))

no_timers : is_in 6 (line_all slots 1 two_targets (no_lines [])).timers ≡ false
unfolding line_all line_step draw destroy put
no_timers = refl

line_all-mounted_example :
    ((is_in 6 (line_all slots 1 two_targets (no_lines [])).mounted ≡ true)
      × (l : ℕ) × ((m : ℕ)
          → (slot m (line_all slots 1 two_targets (no_lines [])).drawing ≡ some (6, 1)) ↔ (m ≡ l)))
    ⊎ ((is_in 6 (line_all slots 1 two_targets (no_lines [])).mounted ≡ false)
        × ((m : ℕ) → slot m (line_all slots 1 two_targets (no_lines [])).drawing ≢ some (6, 1)))
line_all-mounted_example =
    line_all-mounted slots slot every_endpoint 1 slots-Draws [] (λ l t e. ground arith) refl
      two_targets two_targets-AllSettled 6 no_timers
