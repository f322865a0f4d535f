-- ===== src/Monitor/Start.antt =====
-- `start`: the timers of the last application are stopped, the data are cleared, and two timers for
-- the next application begin. Clearing leaves every array one entry longer than it was.
use de_pipeline_tool.Prelude.{
  ℕ, zero, suc, ◌+◌, ◌<◌, length, length-replicate, replicate, String, Bool, false, not, List, [],
  ◌∷◌, ◌++◌, Option, none, some, ◌≡◌, refl, ◌∙◌, if◌then◌else◌, arith, ◌==◌,
}
use de_pipeline_tool.Monitor.Apps.{System}
use de_pipeline_tool.Monitor.Window.{Array, Charts, IsWindow}
use de_pipeline_tool.Monitor.Cpu.{Bars, IsPaired}

pub record Descriptor : Type 0 where
  pub name : String
  pub uuid : String

-- A request on the websocket `ws`; the timers repeat one of the first two.
pub data Request : Type 0 where
  app_details cpu_usage : String → Request
  system_descriptors app_list : Request

-- The object `ret`, the timers, and what was sent.
pub record Monitor : Type 0 where
  pub app_id : String
  pub charts : Charts
  pub bars : Bars
  pub systems : Array System
  pub descriptors : Array Descriptor
  pub log_names : Array String
  pub desc_names : List String
  pub intervals : List Request
  pub sent : List Request
  pub refreshes : ℕ

-- An array whose first entry has a name is kept. Any other that is not empty is emptied, and then
-- `undefined` is pushed once more than it had entries, since the loop runs down to zero.
unfoldable pub clear : {A : Type 0} → (A → Bool) → Array A → Array A
clear has_name [] = []
clear has_name (none ∷ xs) = replicate (length xs + 2) none
clear has_name (some a ∷ xs) = if has_name a then some a ∷ xs else replicate (length xs + 2) none

abbrev pub nameless : {A : Type 0} → A → Bool
nameless a = false

unfoldable pub has_text : String → Bool
has_text s = not (s == "")

unfoldable pub clear_charts : Charts → Charts
clear_charts c = record {
  processed = clear nameless c.processed;
  emitted = clear nameless c.emitted;
  labels = clear nameless c.labels;
}

abbrev pub shift : {A : Type 0} → List A → List A
shift [] = []
shift (x ∷ xs) = xs

-- `while (cpuLabels.length > 0 && cpuLabels[0] === undefined)`
unfoldable pub strip : Array String → Array ℕ → Bars
strip [] values = record { labels = []; values = values }
strip (none ∷ labels) values = strip labels (shift values)
strip (some s ∷ labels) values = record { labels = some s ∷ labels; values = values }

unfoldable pub clear_bars : Bars → Bars
clear_bars b = strip (clear nameless b.labels) (clear nameless b.values)

abbrev requests : String → List Request
requests app = app_details app ∷ cpu_usage app ∷ []

-- `fill(ret.tupleLabels.fill, "")` writes to a function, and changes no array. A call without an id
-- of an application is read as one with the empty text, which starts no timer either.
unfoldable pub start : String → Monitor → Monitor
start app m = record m {
  app_id = app;
  charts = clear_charts m.charts;
  bars = clear_bars m.bars;
  systems = clear (λ s. has_text s.name) m.systems;
  descriptors = clear (λ d. has_text d.name) m.descriptors;
  log_names = clear nameless m.log_names;
  intervals = if has_text app then requests app else [];
  sent = if has_text app then m.sent ++ requests app else m.sent;
}

length-clear :
    {A : Type 0} (xs : Array A) → 0 < length xs → length (clear nameless xs) ≡ length xs + 1
unfolding clear
length-clear [] h = absurd (omega arith)
length-clear {A} (none ∷ xs) h = length-replicate {A = Option A} (length xs + 2) none ∙ omega arith
length-clear {A} (some a ∷ xs) h =
    length-replicate {A = Option A} (length xs + 2) none ∙ omega arith

strip-replicate :
    (n : ℕ) → strip (replicate n none) (replicate n none) ≡ record { labels = []; values = [] }
unfolding strip
strip-replicate zero = refl
strip-replicate (suc n) = strip-replicate n

-- What is left of an array of nameless entries depends on its length alone.
abbrev grown : {A : Type 0} → ℕ → Array A
grown zero = []
grown (suc n) = replicate (n + 2) none

clear-grown : {A : Type 0} (xs : Array A) → clear nameless xs ≡ grown (length xs)
unfolding clear
clear-grown [] = refl
clear-grown (none ∷ xs) = refl
clear-grown (some a ∷ xs) = refl

strip-grown : (n : ℕ) → strip (grown n) (grown n) ≡ record { labels = []; values = [] }
unfolding strip
strip-grown zero = refl
strip-grown (suc n) = strip-replicate (n + 2)

-- Where names and values have the same number, `start` takes all bars away.
pub clear_bars-nil : (b : Bars) → IsPaired b → clear_bars b ≡ record { labels = []; values = [] }
unfolding clear_bars
clear_bars-nil b h =
    rw (clear-grown b.labels, clear-grown b.values, h) (strip-grown (length b.labels))

-- The applications are monitored one after the other.
unfoldable pub start_each : List String → Monitor → Monitor
start_each [] m = m
start_each (app ∷ apps) m = start_each apps (start app m)

start-length :
    (app : String) (m : Monitor)
    → 0 < length m.charts.labels
    → length (start app m).charts.labels ≡ length m.charts.labels + 1
unfolding start clear_charts
start-length app m h = length-clear m.charts.labels h

-- Every `start` makes the window of statistics one entry longer: behind the starts for a list of
-- applications it has as many entries more.
pub start_each-length :
    (apps : List String) (m : Monitor)
    → 0 < length m.charts.labels
    → length (start_each apps m).charts.labels ≡ length m.charts.labels + length apps
unfolding start_each
start_each-length [] m h = omega arith
start_each-length (app ∷ apps) m h =
    let e = start-length app m h in
    omega (arith, start_each-length apps (start app m) (omega arith))

pub start-IsWindow :
    (app : String) (m : Monitor) → IsWindow m.charts → IsWindow (start app m).charts
unfolding start clear_charts
start-IsWindow app m h = omega (
  arith,
  length-clear m.charts.processed (omega arith),
  length-clear m.charts.emitted (omega arith),
  length-clear m.charts.labels (omega arith),
)

pub start-IsPaired : (app : String) (m : Monitor) → IsPaired m.bars → IsPaired (start app m).bars
unfolding start
start-IsPaired app m h = rw (clear_bars-nil m.bars h) refl
