-- ===== src/Builder/Steps/Removing.antt =====
-- `removeState` on a canvas that is in order.
use de_pipeline_tool.Prelude.{
  ℕ, true, List, [], ◌∷◌, Option, none, some, ◌≡◌, refl, sym, subst, arith, or_nil, eqb,
  if◌then◌else◌, inl, inr, ◌⊎◌, Bool-cases, Any, All, parses_to, done, is_done-eq-done,
}
use de_pipeline_tool.Builder.Model.{Connection, Target, Operator, Scope}
use de_pipeline_tool.Builder.Forms.Ready.{IsReady}
use de_pipeline_tool.Builder.Canvas.{is_hit, without, remove_state}
use de_pipeline_tool.Builder.Canvas.Sweeping.{
  IsTidy, AtMostOne, spared_operators, remove_all_connections-spared,
}
use de_pipeline_tool.Builder.Session.{connection_noticed}
use de_pipeline_tool.Builder.Session.Returns.{LeadsTo, AllSources, rewrite-is_done}
use de_pipeline_tool.Builder.Session.Saving.{rewritten}
use de_pipeline_tool.Builder.Steps.Sparing.{
  spared_source-All, spared_source-IsTidy, spared_operators-IsReady, spared_operators-LeadsTo,
  spared_operators-HasEnds, spared-EverySource,
}
use de_pipeline_tool.Builder.Steps.Order.{HasEnds, IsOrdered}

-- The object of that identity on the canvas.
abbrev pub object_at : ℕ → List Operator → Option Operator
object_at ref [] = none
object_at ref (o ∷ os) = let rest = object_at ref os in if eqb o.ref ref then some o else rest

-- If the operator is on the canvas, its object there has the same target endpoints.
abbrev pub IsCurrent : Operator → List Operator → Type 0
IsCurrent o os = (there : Operator) → object_at o.ref os ≡ some there → there.targets ≡ o.targets

-- The operators that stay.
without-All :
    (P : Operator → Type 0) (ref : ℕ) (os : List Operator) → All P os → All P (without ref os)
unfolding without
without-All P ref [] h = tt
without-All P ref (o ∷ os) (p, h) = elim (Bool-cases (eqb o.ref ref)) [
  | inl e ↦ rw (e, without) h
  | inr e ↦ rw (e, without) (p, without-All P ref os h)
]

hit_by_target :
    (ts : List Target) (c : Connection)
    → Any (λ t. parses_to c.uuid t.uuid ≡ true) ts
    → is_hit ts c ≡ true
unfolding is_hit
hit_by_target [] c h = absurd h
hit_by_target (t ∷ ts) c (inl here) = ground arith
hit_by_target (t ∷ ts) c (inr later) = let rest = hit_by_target ts c later in ground arith

-- A connection leads to an operator that stays, or to the one that goes.
LeadsTo-without :
    (o : Operator) (os : List Operator) (c : Connection)
    → IsCurrent o os
    → LeadsTo os c
    → LeadsTo (without o.ref os) c ⊎ (is_hit (or_nil o.targets []) c ≡ true)
unfolding without
LeadsTo-without o [] c k h = absurd h
LeadsTo-without o (x ∷ os) c k h = elim (Bool-cases (eqb x.ref o.ref)) [
  | inl e ↦ elim h [
    | inl here ↦
        let same : x.targets ≡ o.targets = k x (rw e refl) in
        inr (
          hit_by_target (or_nil o.targets []) c
            (subst (λ ts. Any (λ t. parses_to c.uuid t.uuid ≡ true) (or_nil ts [])) same here))
    | inr later ↦ inl (rw (e, without) later)
  ]
  | inr e ↦ elim h [
    | inl here ↦ inl (rw (e, without) (inl here))
    | inr later ↦ elim (LeadsTo-without o os c (λ there f. k there (rw e f)) later) [
      | inl stays ↦ inl (rw (e, without) (inr stays))
      | inr goes ↦ inr goes
    ]
  ]
]

-- The canvas without the operator, and without the connections that lead to it.
removed-IsOrdered :
    (o : Operator) (os : List Operator)
    → IsOrdered os
    → IsCurrent o os
    → IsOrdered (spared_operators (or_nil o.targets []) (without o.ref os))
removed-IsOrdered o os h k =
    let gone = or_nil o.targets [] in
    let rest = without o.ref os in
    let wired =
      without-All (λ x. AllSources (LeadsTo os) (or_nil x.sources [])) o.ref os h.whole.wired in
    record {
      whole = record {
        ready = spared_operators-IsReady gone rest (without-All IsReady o.ref os h.whole.ready);
        wired =
            spared-EverySource gone (λ x. All (LeadsTo os) (or_nil x.connections []))
              (λ x. All (LeadsTo (spared_operators gone rest)) (or_nil x.connections []))
              (λ x p.
                spared_source-All gone (LeadsTo os) (LeadsTo (spared_operators gone rest))
                  (λ c leads miss. elim (LeadsTo-without o os c k leads) [
                    | inl stays ↦ spared_operators-LeadsTo gone rest c stays
                    | inr goes ↦ cc
                  ])
                  x.connections p)
              rest wired;
      };
      kept = record {
        tidy =
            spared-EverySource gone IsTidy IsTidy (spared_source-IsTidy gone) rest
              (without-All (λ x. All IsTidy (or_nil x.sources [])) o.ref os h.kept.tidy);
        ended = spared_operators-HasEnds gone rest (without-All HasEnds o.ref os h.kept.ended);
      };
    }

-- Everything is written anew.
pub connection_noticed-IsOrdered :
    (s : Scope)
    → IsOrdered s.state_objects
    → (s' : Scope) × (connection_noticed s ≡ done s') × IsOrdered s'.state_objects
unfolding connection_noticed
connection_noticed-IsOrdered s h =
    let (s₂, run) = is_done-eq-done _ (rewrite-is_done s h.whole.ready) in
    let r = rewritten s s₂ run in
    (record s₂ { refreshing = true }, rw run refl, subst IsOrdered (sym r.same.objects) h)

-- On a canvas in order the removal of an operator throws nothing and leaves the canvas in order.
pub remove_state-IsOrdered :
    (o : Operator) (s : Scope)
    → IsOrdered s.state_objects
    → IsCurrent o s.state_objects
    → AtMostOne (or_nil o.targets [])
    → (s' : Scope) × (remove_state (some o) s ≡ done s') × IsOrdered s'.state_objects
unfolding remove_state connection_noticed
remove_state-IsOrdered o s h k one =
    let e =
      remove_all_connections-spared o (without o.ref s.state_objects) one
        (without-All (λ x. All IsTidy (or_nil x.sources [])) o.ref s.state_objects h.kept.tidy) in
    connection_noticed-IsOrdered _
      (subst IsOrdered (sym e) (removed-IsOrdered o s.state_objects h k))
