-- ===== src/Monitor/Tests.antt =====
-- The monitor's data on small inputs, and the theorems at these.
use de_pipeline_tool.Prelude.{
  ℕ, ◌+◌, length, String, List, [], ◌∷◌, some, ◌≡◌, refl, arith, All, Any,
}
use de_pipeline_tool.Builder.Model.{lookup, insert}
use de_pipeline_tool.Monitor.Apps.{
  App, is_later, note_start, name_map, system_of, is_shown, shown, systems_of,
}
use de_pipeline_tool.Monitor.Apps.Latest.{IsCurrent, systems_of-IsCurrent}
use de_pipeline_tool.Monitor.Window.{Stats, IsWindow, add_stats, slid, add_stats-slide}
use de_pipeline_tool.Monitor.Cpu.{
  zeros, Usage, Bars, IsPaired, add_usages, bar, fill, index_of, put_usage, put_usages, reported,
  add_usages-bar,
}
use de_pipeline_tool.Monitor.Start.{start_each, start_each-length}
use de_pipeline_tool.Monitor.Socket.{
  Event, message, array, object, monitor, ask, fresh, IsDrawable, handle_all, handle_all-IsDrawable,
}

abbrev run : String → String → String → ℕ → App
run id name state started = record {
  id = id;
  name = name;
  state = state;
  started_time = started;
  finished_time = 0;
}

-- Two runs of one system, and a run of a system with no descriptor that has ended.
abbrev runs : List App
runs = run "a1" "etl" "FAILED" 10 ∷ run "a2" "etl" "FINISHED" 30 ∷ run "a3" "old" "KILLED" 20 ∷ []

shown_runs : systems_of ("etl" ∷ []) runs ≡ system_of (run "a2" "etl" "FINISHED" 30) ∷ []
unfolding systems_of shown is_shown name_map note_start is_later lookup insert
shown_runs = refl

systems_of-IsCurrent_example :
    All
      (λ x. Any (λ a. (x ≡ system_of a) × IsCurrent ("etl" ∷ []) runs a) runs)
      (systems_of ("etl" ∷ []) runs)
    × All
        (λ a.
          IsCurrent ("etl" ∷ []) runs a → Any (λ x. x ≡ system_of a) (systems_of ("etl" ∷ []) runs))
        runs
systems_of-IsCurrent_example = systems_of-IsCurrent ("etl" ∷ []) runs

abbrev stats : Stats
stats = record { processed = 7; emitted = 5 }

add_stats-slide_example :
    (add_stats stats "01:02" fresh.charts ≡ slid stats "01:02" fresh.charts)
    × IsWindow (add_stats stats "01:02" fresh.charts)
add_stats-slide_example = add_stats-slide stats "01:02" fresh.charts (omega arith)

abbrev use_of : String → ℕ → Usage
use_of name percentage = record { name = name; percentage = percentage }

abbrev two_bars : Bars
two_bars = record { labels = some "in" ∷ some "csv" ∷ []; values = some 9 ∷ some 8 ∷ [] }

abbrev reports : List Usage
reports = use_of "csv" 40 ∷ use_of "out" 3 ∷ []

reported_bars : add_usages reports two_bars ≡ record {
  labels = some "in" ∷ some "csv" ∷ some "out" ∷ [];
  values = some 0 ∷ some 40 ∷ some 3 ∷ [];
}
unfolding add_usages put_usages put_usage index_of fill
reported_bars = refl

add_usages-bar_example :
    IsPaired (add_usages reports two_bars)
    × ((name : String)
        → bar name (add_usages reports two_bars).labels (add_usages reports two_bars).values
          ≡ reported name reports (bar name two_bars.labels (zeros two_bars.values)))
add_usages-bar_example = add_usages-bar reports two_bars refl

-- Every `start` makes the window of statistics one entry longer.
three_starts :
    length (start_each ("a1" ∷ "" ∷ "a2" ∷ []) fresh).charts.labels ≡ length fresh.charts.labels + 3
three_starts = start_each-length ("a1" ∷ "" ∷ "a2" ∷ []) fresh (omega arith)

abbrev events : List Event
events =
    ask
    ∷ monitor "a2"
    ∷ message 1 2 (object (some stats) (some reports))
    ∷ message 1 3 (array [])
    ∷ []

handle_all-IsDrawable_example : IsDrawable (handle_all events fresh)
handle_all-IsDrawable_example =
    handle_all-IsDrawable events fresh (record { window = omega arith; paired = refl })
