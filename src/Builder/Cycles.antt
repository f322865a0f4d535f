-- ===== src/Builder/Cycles.antt =====
-- `hasEventualTarget` and `isCyclical` of system-builder.controller.js: the walk over the endpoints on
-- the screen, which tells whether a connection closes a circle.
pub mod Reach
use de_pipeline_tool.Prelude.{
  ℕ, zero, suc, Bool, true, false, ◌||◌, List, [], ◌∷◌, Option, none, some, if◌then◌else◌, eqb,
}

-- What the drawing library holds, where endpoints are named by their numbers: for a source endpoint
-- the target endpoints among the ends of its connections; for a target endpoint the source endpoint
-- of its operator, if it has one; and for a source endpoint the target endpoint of its operator.
pub record Drawing : Type 0 where
  pub targets_of : ℕ → List ℕ
  pub source_beside : ℕ → Option ℕ
  pub target_beside : ℕ → Option ℕ

-- The walk has no bound in the code: `exhausted` is what the model says when the fuel runs out.
pub data Answer : Type 0 where
  exhausted fails : Answer
  says : Bool → Answer

-- `cyclical`, behind one end and behind the others.
abbrev pub either : Answer → Answer → Answer
either exhausted r = exhausted
either fails r = fails
either (says a) exhausted = exhausted
either (says a) fails = fails
either (says a) (says b) = says (a || b)

-- The body of the loop, where `walk` goes on from a source endpoint. Where there is no target,
-- `target._jsPlumb` throws.
unfoldable pub meet : (Option ℕ → Answer) → (ℕ → Option ℕ) → Option ℕ → ℕ → Answer
meet walk beside none e = fails
meet walk beside (some t) e =
    let further = walk (beside e) in if eqb e t then says true else further

-- The loop over the ends goes through all of them, also when the target was met.
unfoldable pub walk_ends : (Option ℕ → Answer) → (ℕ → Option ℕ) → Option ℕ → List ℕ → Answer
walk_ends walk beside target [] = says false
walk_ends walk beside target (e ∷ es) =
    either (meet walk beside target e) (walk_ends walk beside target es)

-- `hasEventualTarget`
unfoldable pub has_eventual_target : Drawing → ℕ → Option ℕ → Option ℕ → Answer
has_eventual_target g zero none target = says false
has_eventual_target g zero (some s) target = exhausted
has_eventual_target g (suc fuel) none target = says false
has_eventual_target g (suc fuel) (some s) target =
    walk_ends (λ next. has_eventual_target g fuel next target) g.source_beside target
      (g.targets_of s)

-- `isCyclical`, for the source endpoint that a connection was drawn from, if it is on the screen.
unfoldable pub is_cyclical : Drawing → ℕ → Option ℕ → Answer
is_cyclical g fuel none = says false
is_cyclical g fuel (some s) = has_eventual_target g fuel (some s) (g.target_beside s)
