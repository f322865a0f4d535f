-- ===== src/Builder/CanvasTests.antt =====
-- Canvases that are in order, and the theorems on handlers that return at these.
use de_pipeline_tool.Prelude.{
  All, List, Option, String, [], arith, done, eqb, if◌then◌else◌, inl, inr, leb, none, refl, some,
  subst, true, ℕ, ◌&&◌, ◌+◌, ◌-◌, ◌∷◌, ◌≡◌,
}
use de_pipeline_tool.Builder.Model.{OperatorType, Source, Target, Form, Scope, lookup}
use de_pipeline_tool.Builder.Forms.Ready.{IsReady, Covers}
use de_pipeline_tool.Builder.Cycles.{
  Drawing, says, meet, walk_ends, has_eventual_target, is_cyclical,
}
use de_pipeline_tool.Builder.Cycles.Reach.{Falls, Reaches, Tells, is_cyclical-Tells}
use de_pipeline_tool.Builder.Session.{update}
use de_pipeline_tool.Builder.Session.Returns.{IsWhole}
use de_pipeline_tool.Builder.Session.Whole.{plain_all, update-IsWhole}
use de_pipeline_tool.Builder.Samples.{program, pipeline, scope, operator, host, valid_form}

sample-IsReady :
    (ref : ℕ) (name : String) (type : OperatorType) (ss : Option (List Source))
    (ts : Option (List Target))
    → IsReady (operator ref name type ss ts)
unfolding lookup
sample-IsReady ref name type ss ts = record {
  validated = (refl, tt);
  covered = λ f e.
      let same : valid_form ≡ f = cc in
      subst (λ (g : Form). All (Covers g.fields) (host ∷ [])) same (refl, tt);
}

pipeline-IsWhole : IsWhole pipeline
unfolding program
pipeline-IsWhole = record {
  ready = (sample-IsReady _ _ _ _ _, (sample-IsReady _ _ _ _ _, (sample-IsReady _ _ _ _ _, tt)));
  wired = (((inr (inl (inl refl)), tt), tt), (((inr (inr (inl (inl refl))), tt), tt), (tt, tt)));
}

update-IsWhole_example :
    (s' : Scope) × (update (scope pipeline) ≡ done s')
    × (plain_all s'.state_objects ≡ plain_all pipeline)
    × IsWhole s'.state_objects
update-IsWhole_example = update-IsWhole (scope pipeline) pipeline-IsWhole

-- Three operators in a row, with sources 1, 2 and 3 and targets 11, 12 and 13, and a connection from
-- the last back to the first.
abbrev ring : Drawing
ring = record {
  targets_of = λ s.
      if eqb s 1 then 12 ∷ [] else if eqb s 2 then 13 ∷ [] else if eqb s 3 then 11 ∷ [] else [];
  source_beside = λ t. if leb 11 t && leb t 13 then some (t - 10) else none;
  target_beside = λ s. if leb 1 s && leb s 3 then some (s + 10) else none;
}

ring_closes : is_cyclical ring 5 (some 3) ≡ says true
unfolding is_cyclical has_eventual_target walk_ends meet
ring_closes = refl

abbrev ring_rank : ℕ → ℕ
ring_rank s = if eqb s 3 then 3 else if eqb s 1 then 2 else if eqb s 2 then 1 else 0

ring-Falls : Falls ring 13 ring_rank
ring-Falls s e r m miss on = ground arith

is_cyclical-Tells_example : Tells (is_cyclical ring 4 (some 3)) (Reaches ring 13 3)
is_cyclical-Tells_example = is_cyclical-Tells ring 3 13 ring_rank 4 refl ring-Falls (omega arith)
