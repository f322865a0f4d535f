-- ===== src/Builder/Session/Watch.antt =====
-- The watch on `stateObjects`, which updates behind every change of the canvas, and the flag `updating` that
-- keeps it from running within itself.
use de_pipeline_tool.Prelude.{
  Bool, true, false, List, [], ◌∷◌, ◌≡◌, refl, ap, ◌∙◌, if◌then◌else◌, Outcome, done, thrown,
  state_of,
}
use de_pipeline_tool.Builder.Model.{Scope}
use de_pipeline_tool.Builder.Session.{update}

pub record Watching : Type 0 where
  pub scope : Scope
  pub updating : Bool

-- Behind an update that throws the flag is not taken back.
unfoldable pub watched : Outcome Scope → Outcome Watching
watched (done s) = done (record { scope = s; updating = false })
watched (thrown s) = thrown (record { scope = s; updating = true })

-- The listener of the watch.
unfoldable pub objects_changed : Watching → Outcome Watching
objects_changed w = let run = watched (update w.scope) in if w.updating then done w else run

abbrev pub changed_by : (Scope → Scope) → Watching → Watching
changed_by f w = record w { scope = f w.scope }

-- Changes of the canvas, each followed by the watch; an exception in a listener ends there.
abbrev pub watch_all : List (Scope → Scope) → Watching → Watching
watch_all [] w = w
watch_all (f ∷ fs) w = watch_all fs (state_of (objects_changed (changed_by f w)))

abbrev pub changed_by_all : List (Scope → Scope) → Scope → Scope
changed_by_all [] s = s
changed_by_all (f ∷ fs) s = changed_by_all fs (f s)

deaf : (w : Watching) → w.updating ≡ true → objects_changed w ≡ done w
unfolding objects_changed
deaf w h = rw h refl

stays_deaf :
    (fs : List (Scope → Scope)) (s : Scope)
    → watch_all fs (record { scope = s; updating = true })
      ≡ record { scope = changed_by_all fs s; updating = true }
stays_deaf [] s = refl
stays_deaf (f ∷ fs) s =
    ap (λ m. watch_all fs (state_of m)) (deaf (record { scope = f s; updating = true }) refl)
    ∙ stays_deaf fs (f s)

-- Once an update throws in the watch, the watch is deaf: whatever changes from then on, the scope is what the
-- changes themselves make of it, and nothing is written to the descriptor or validated behind them. (What is
-- changed within the cached array itself shows in the cache.)
pub watch_all-deaf :
    (s s' : Scope) (fs : List (Scope → Scope))
    → update s ≡ thrown s'
    → watch_all fs (state_of (objects_changed (record { scope = s; updating = false })))
      ≡ record { scope = changed_by_all fs s'; updating = true }
unfolding objects_changed watched
watch_all-deaf s s' fs h = ap (λ m. watch_all fs (state_of (watched m))) h ∙ stays_deaf fs s'
