-- ===== src/Builder/Connect.antt =====
-- `onConnection` and `setUUID` of system-builder.controller.js: a connection that was drawn is added
-- to its source endpoint, and the numbers of endpoints stay ahead of those of a loaded system.
pub mod Fresh
pub mod Wiring
pub mod Written
pub mod Whole
use de_pipeline_tool.Prelude.{
  ℕ, ◌+◌, String, Bool, true, false, ◌||◌, List, [], ◌∷◌, ◌++◌, Option, none, some, ◌==◌,
  if◌then◌else◌, or_nil, eqb, leb, zero, suc, get_elem?, set, map, Outcome, done, thrown,
  ◌then_run◌,
}
use de_pipeline_tool.Builder.Model.{Connection, Source, Target, Operator, Scope}
use de_pipeline_tool.Builder.Canvas.{map_option}
use de_pipeline_tool.Builder.Streams.{update_connections}
use de_pipeline_tool.Builder.Check.{validate_all}

-- `connections.some(x => x.uuid === targetUUID)`
unfoldable pub has_connection : String → List Connection → Bool
has_connection uuid [] = false
has_connection uuid (c ∷ cs) = c.uuid == uuid || has_connection uuid cs

abbrev pub link : String → Connection
link uuid = record { uuid = uuid }

-- What the callback makes of a source endpoint, and whether it goes on to redraw: a connection that
-- is there already ends it, one that would close a circle is taken back.
unfoldable pub connect : Bool → String → Source → Source × Bool
connect cyclical uuid s =
    let cs = or_nil s.connections [] in
    if has_connection uuid cs
    then (record s { connections = some cs }, false)
    else (record s { connections = some (if cyclical then cs else cs ++ link uuid ∷ []) }, true)

-- The source endpoint number `j` of operator number `i`.
unfoldable pub source_at : List Operator → (i j : ℕ) → Option Source
source_at os i j = elim (get_elem? os i) [
  | none ↦ none
  | some o ↦ get_elem? (or_nil o.sources []) j
]

unfoldable pub set_source : List Operator → (i j : ℕ) → Source → List Operator
set_source [] i j src = []
set_source (o ∷ os) zero j src =
    record o { sources = map_option (λ ss. set ss j src) o.sources } ∷ os
set_source (o ∷ os) (suc i) j src = o ∷ set_source os i j src

-- Where the two loops pass: every source of every operator.
unfoldable pub places_in : (i j : ℕ) → List Source → List (ℕ × ℕ)
places_in i j [] = []
places_in i j (s ∷ ss) = (i, j) ∷ places_in i (j + 1) ss

unfoldable pub places : ℕ → List Operator → List (ℕ × ℕ)
places i [] = []
places i (o ∷ os) = places_in i 0 (or_nil o.sources []) ++ places (i + 1) os

-- `isCyclical` asks the drawing library, which holds the endpoints on the screen: it is a parameter, by the
-- operators at the time of the call. Without an answer it throws, as it does for an operator that has no
-- target endpoint (Builder.Cycles). The digest of `$apply`, which updates, is an event of its own.
module _ (is_cyclical : List Operator → Option Bool) (target : String) (number : ℕ) where
  -- The callback's state behind the push.
  unfoldable pub connected_at : (i j : ℕ) → Source → Scope → Scope
  connected_at i j src s = record s {
    state_objects = set_source s.state_objects i j (connect false target src).0;
  }

  -- The `pop` where a circle would close, and the redrawing.
  unfoldable pub answered_at : Option Bool → (i j : ℕ) → Source → Scope → Outcome Scope
  answered_at none i j src s = thrown (connected_at i j src s)
  answered_at (some cyclical) i j src s =
      update_connections (record s {
        state_objects = set_source s.state_objects i j (connect cyclical target src).0;
      })

  unfoldable pub visit : ℕ × ℕ → Scope → Outcome Scope
  visit (i, j) s = elim (source_at s.state_objects i j) [
    | none ↦ done s
    | some src ↦
        if eqb src.uuid number
        then (let pushed = connected_at i j src s in
            if (connect false target src).1
            then answered_at (is_cyclical pushed.state_objects) i j src s
            else done pushed)
        else done s
  ]

  unfoldable pub visit_all : List (ℕ × ℕ) → Scope → Outcome Scope
  visit_all [] s = done s
  visit_all (p ∷ ps) s = visit p s then_run visit_all ps

  -- `onConnection`, for the number that `+sourceUUID` gives.
  unfoldable pub on_connection : Scope → Outcome Scope
  on_connection s = visit_all (places 0 s.state_objects) s then_run validate_all

-- `setUUID` for the first endpoint of a list: an empty list throws.
unfoldable pub ahead_of : Option (List ℕ) → ℕ → Outcome ℕ
ahead_of none last = done last
ahead_of (some []) last = thrown last
ahead_of (some (n ∷ ns)) last = done (if leb last n then n + 1 else last)

abbrev pub source_numbers : Option (List Source) → Option (List ℕ)
source_numbers none = none
source_numbers (some ss) = some (map (λ e. e.uuid) ss)

abbrev pub target_numbers : Option (List Target) → Option (List ℕ)
target_numbers none = none
target_numbers (some ts) = some (map (λ e. e.uuid) ts)

unfoldable pub ahead_of_all : List Operator → ℕ → Outcome ℕ
ahead_of_all [] last = done last
ahead_of_all (o ∷ os) last =
    (ahead_of (source_numbers o.sources) last then_run ahead_of (target_numbers o.targets))
    then_run ahead_of_all os

abbrev pub with_last : Scope → ℕ → Scope
with_last s last = record s { storage = record s.storage { last_uuid = last } }

abbrev pub with_last_outcome : Scope → Outcome ℕ → Outcome Scope
with_last_outcome s (done n) = done (with_last s n)
with_last_outcome s (thrown n) = thrown (with_last s n)

unfoldable pub set_uuid : Scope → Outcome Scope
set_uuid s = with_last_outcome s (ahead_of_all s.state_objects s.storage.last_uuid)

-- `getStream.onMessage`, where the parsed operators, which are new objects, are named by the numbers that come with
-- them: the answer replaces `jsonConfig`, which then has no `systemDescriptor`; with
-- a state it becomes the system on the canvas.
unfoldable pub load_system : Option (List Operator) → String → Scope → Outcome Scope
load_system none name s = done (record s { descriptor = none })
load_system (some state) name s = set_uuid (record s {
  descriptor = none;
  state_objects = state;
  system_name = name;
  refreshing = true;
  pending_resets = s.pending_resets + 1;
})
