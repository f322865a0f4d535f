-- ===== src/Builder/Session/Returns.antt =====
-- `update` throws nothing on a canvas that is in order.
use de_pipeline_tool.Prelude.{
  ℕ, ◌+◌, String, true, List, [], ◌∷◌, ◌≡◌, refl, sym, subst, arith, or_nil, All, All_mono,
  All-append, Any, is_some, inl, inr, Bool-cases, contains, done, ◌then_run◌, is_done,
  is_done-eq-done, then_run-is_done,
}
use de_pipeline_tool.Builder.Model.{Operator, Source, Connection, Scope}
use de_pipeline_tool.Builder.Json.{finish_json, update_json}
use de_pipeline_tool.Builder.Json.Returns.{update_json-is_done}
use de_pipeline_tool.Builder.Streams.{sink_name, sinks_of, update_connections}
use de_pipeline_tool.Builder.Streams.Shape.{Wire, wires, source_wires, wire_of, numbered}
use de_pipeline_tool.Builder.Streams.Sinks.{TargetOf, sink_name-IsTarget}
use de_pipeline_tool.Builder.Forms.Ready.{IsReady}
use de_pipeline_tool.Builder.Check.{validate_all}
use de_pipeline_tool.Builder.Check.Returns.{IsNamed, Links, validate_all-is_done}
use de_pipeline_tool.Builder.Session.{cache, update}
use de_pipeline_tool.Builder.Session.Saving.{rewritten}

-- Some operator has the target endpoint that the connection names.
abbrev pub LeadsTo : List Operator → Connection → Type 0
LeadsTo os c = Any (TargetOf c.uuid) os

abbrev pub AllSources : (Connection → Type 0) → List Source → Type 0
AllSources P ss = All (λ x. All P (or_nil x.connections [])) ss

-- The operators are ready, and every connection leads to one of them.
pub record IsWhole (os : List Operator) : Type 0 where
  pub ready : All IsReady os
  pub wired : All (λ o. AllSources (LeadsTo os) (or_nil o.sources [])) os

-- A wire of the operators, whose connections lead to them.
abbrev IsWired : List Operator → Wire → Type 0
IsWired all w = IsNamed all w.owner × All (LeadsTo all) w.connections

wire_of-All :
    (all : List Operator) (owner : String) (cs : List Connection)
    → IsNamed all owner
    → All (LeadsTo all) cs
    → All (IsWired all) (wire_of owner cs)
wire_of-All all owner [] n h = tt
wire_of-All all owner (c ∷ cs) n h = ((n, h), tt)

source_wires-All :
    (all : List Operator) (owner : String) (ss : List Source)
    → IsNamed all owner
    → AllSources (LeadsTo all) ss
    → All (IsWired all) (source_wires owner ss)
source_wires-All all owner [] n h = tt
source_wires-All all owner (x ∷ ss) n (p, h) =
    All-append (IsWired all) (wire_of owner (or_nil x.connections [])) (source_wires owner ss)
      (wire_of-All all owner (or_nil x.connections []) n p) (source_wires-All all owner ss n h)

wires-All :
    (all os : List Operator)
    → All (λ o. IsNamed all o.name) os
    → All (λ o. AllSources (LeadsTo all) (or_nil o.sources [])) os
    → All (IsWired all) (wires os)
wires-All all [] n h = tt
wires-All all (o ∷ os) (m, n) (p, h) =
    All-append (IsWired all) (source_wires o.name (or_nil o.sources [])) (wires os)
      (source_wires-All all o.name (or_nil o.sources []) m p) (wires-All all os n h)

own_names : (os : List Operator) → All (λ o. IsNamed os o.name) os
own_names [] = tt
own_names (o ∷ os) = (inl refl, All_mono (λ p n. inr n) os (own_names os))

sink-IsNamed :
    (os : List Operator) (P : Operator → Type 0) (name : String)
    → Any (λ o. (name ≡ o.name) × P o) os
    → IsNamed os name
sink-IsNamed [] P name h = absurd h
sink-IsNamed (o ∷ os) P name (inl (e, _)) = inl e
sink-IsNamed (o ∷ os) P name (inr later) = inr (sink-IsNamed os P name later)

nowhere : (os : List Operator) (P : Operator → Type 0) → Any P os → All (λ o. ¬ P o) os → ⊥
nowhere [] P h k = h
nowhere (o ∷ os) P (inl p) (q, k) = q p
nowhere (o ∷ os) P (inr later) (q, k) = nowhere os P later k

sink_name-IsNamed :
    (os : List Operator) (c : Connection) → LeadsTo os c → IsNamed os (sink_name os c.uuid "")
sink_name-IsNamed os c h = elim (sink_name-IsTarget os c.uuid) [
  | inl found ↦ sink-IsNamed os (TargetOf c.uuid) (sink_name os c.uuid "") found
  | inr (_, missed) ↦ absurd (nowhere os (TargetOf c.uuid) h missed)
]

sinks_of-IsNamed :
    (all : List Operator) (cs : List Connection) (names : List String)
    → All (LeadsTo all) cs
    → All (IsNamed all) names
    → All (IsNamed all) (sinks_of all cs names)
unfolding sinks_of
sinks_of-IsNamed all [] names h n = n
sinks_of-IsNamed all (c ∷ cs) names (p, h) n =
    sinks_of-IsNamed all cs _ h (elim (Bool-cases (contains names (sink_name all c.uuid ""))) [
      | inl old ↦ rw old n
      | inr new ↦ rw new (
          All-append (IsNamed all) names (sink_name all c.uuid "" ∷ []) n
            (sink_name-IsNamed all c p, tt))
    ])

numbered-Links :
    (all : List Operator) (n : ℕ) (ws : List Wire)
    → All (IsWired all) ws
    → All (Links all) (numbered all n ws)
numbered-Links all n [] h = tt
numbered-Links all n (w ∷ ws) ((m, p), h) = (
  record { source = m; sinks = sinks_of-IsNamed all w.connections [] p tt },
  numbered-Links all (n + 1) ws h,
)

pub IsWhole-Links : (os : List Operator) → IsWhole os → All (Links os) (numbered os 1 (wires os))
IsWhole-Links os h = numbered-Links os 1 (wires os) (wires-All os os (own_names os) h.wired)

update_connections-is_done :
    (s : Scope) → is_some s.descriptor ≡ true → is_done (update_connections s) ≡ true
unfolding update_connections
update_connections-is_done s h = ground arith

update_json-descriptor : (s s' : Scope) → update_json s ≡ done s' → is_some s'.descriptor ≡ true
unfolding update_json finish_json
update_json-descriptor s s' h = ground arith

pub rewrite-is_done :
    (s : Scope)
    → All IsReady s.state_objects
    → is_done (update_json s then_run update_connections) ≡ true
rewrite-is_done s h =
    then_run-is_done (update_json s) update_connections
      (update_json-is_done s (All_mono (λ o r. r.validated) s.state_objects h))
      (λ t e. update_connections-is_done t (update_json-descriptor s t e))

rewritten-is_done :
    (s s' : Scope)
    → IsWhole s.state_objects
    → (update_json s then_run update_connections) ≡ done s'
    → is_done (validate_all s') ≡ true
rewritten-is_done s s' h e =
    let r = rewritten s s' e in
    let joins =
      subst (All (Links s.state_objects)) (sym r.describes.streams)
        (IsWhole-Links s.state_objects h) in
    validate_all-is_done s' r.descriptor r.there (subst (All IsReady) (sym r.same.objects) h.ready)
      (subst (λ l. All (Links l) r.descriptor.streams) (sym r.same.objects) joins)

-- On operators that are ready, whose connections all lead to operators on the canvas, `update` throws
-- nothing.
pub update-done : (s : Scope) → IsWhole s.state_objects → (s' : Scope) × (update s ≡ done s')
unfolding update cache
update-done s h = is_done-eq-done _ (
    then_run-is_done _ _
      (then_run-is_done _ validate_all (rewrite-is_done (cache s) h.ready)
        (λ t e. rewritten-is_done (cache s) t h e))
      (λ t e. refl))
