-- ===== src/Builder/Connect/Whole.antt =====
-- `onConnection` on a canvas that is in order, behind the notice of the connection that the drawing sends
-- first.
use de_pipeline_tool.Prelude.{
  ℕ, String, Bool, true, false, List, [], ◌∷◌, some, or_nil, All, All_mono, inl, inr, Bool-cases,
  Option-cases, ◌≡◌, refl, sym, subst, eqb, ◌⊎◌, Option, none, Outcome, done, thrown, state_of,
  ◌then_run◌, is_done-eq-done,
}
use de_pipeline_tool.Builder.Model.{Source, Operator, Descriptor, Scope}
use de_pipeline_tool.Builder.Streams.{update_connections}
use de_pipeline_tool.Builder.Streams.Shape.{numbered, wires, update_connections-numbered}
use de_pipeline_tool.Builder.Check.{validate_all}
use de_pipeline_tool.Builder.Check.Returns.{Links, validate_all-is_done}
use de_pipeline_tool.Builder.Session.Returns.{LeadsTo, IsWhole, IsWhole-Links, rewrite-is_done}
use de_pipeline_tool.Builder.Session.{connection_noticed}
use de_pipeline_tool.Builder.Session.Saving.{rewritten}
use de_pipeline_tool.Builder.Session.Whole.{validate_all-plain, IsWhole-same, plain_all}
use de_pipeline_tool.Builder.Connect.{
  link, connect, source_at, set_source, connected_at, answered_at, visit, visit_all, places,
  on_connection,
}
use de_pipeline_tool.Builder.Connect.Wiring.{
  EverySource, source_at-EverySource, set_source-LeadsTo, set_source-IsNamed,
}
use de_pipeline_tool.Builder.Connect.Written.{connect-All, set_source-IsWhole}

-- How the drawing of a connection ends: it returns, or `isCyclical` throws at some operators; behind it the
-- canvas is in order, and `J` holds of it.
pub record Drawn (is_cyclical : List Operator → Option Bool) (J : List Operator → Type 0)
    (m : Outcome Scope) : Type 0 where
  pub whole : IsWhole (state_of m).state_objects
  pub kept : J (state_of m).state_objects
  pub ends : (m ≡ done (state_of m)) ⊎ ((os : List Operator) × (is_cyclical os ≡ none))

-- The streams of the descriptor lead between operators.
abbrev pub IsLinked : Scope → Type 0
IsLinked s = (d : Descriptor) × (s.descriptor ≡ some d) × All (Links s.state_objects) d.streams

Links-set_source :
    (os : List Operator) (i j : ℕ) (src : Source) (d : Descriptor)
    → All (Links os) d.streams
    → All (Links (set_source os i j src)) d.streams
Links-set_source os i j src d h =
    All_mono
      (λ t l. record {
        source = set_source-IsNamed os i j src t.source l.source;
        sinks = All_mono (set_source-IsNamed os i j src) t.sinks l.sinks;
      })
      d.streams h

-- What the loop keeps, besides `J`: the operators are in order, an operator has the endpoint that the
-- new connection leads to, and the streams lead between operators.
module _ (target : String) (J : List Operator → Type 0)
    (keep : (os : List Operator) (i j : ℕ) (src : Source) (cyclical : Bool)
      → source_at os i j ≡ some src
      → J os
      → J (set_source os i j (connect cyclical target src).0))
    (same : (os os' : List Operator) → plain_all os' ≡ plain_all os → J os → J os') where
  record IsJoinable (s : Scope) : Type 0 where
    whole : IsWhole s.state_objects
    kept : J s.state_objects
    leads : LeadsTo s.state_objects (link target)
    linked : IsLinked s

  -- `updateConnections` between the writes.
  relinked :
      (s : Scope) → IsJoinable s → (s' : Scope) × (update_connections s ≡ done s') × IsJoinable s'
  relinked s k =
      let (d, e, _) = k.linked in
      (
        record s {
          descriptor =
              some (record d { streams = numbered s.state_objects 1 (wires s.state_objects) });
        },
        update_connections-numbered s d e,
        record {
          whole = k.whole;
          kept = k.kept;
          leads = k.leads;
          linked = (
            record d { streams = numbered s.state_objects 1 (wires s.state_objects) },
            refl,
            IsWhole-Links s.state_objects k.whole,
          );
        },
      )

  -- The notice writes the descriptor anew, so that its streams lead between operators.
  noticed-IsJoinable :
      (s : Scope)
      → IsWhole s.state_objects
      → J s.state_objects
      → LeadsTo s.state_objects (link target)
      → (s' : Scope) × (connection_noticed s ≡ done s') × IsJoinable s'
  unfolding connection_noticed
  noticed-IsJoinable s whole kept leads =
      let (s₁, e) = is_done-eq-done _ (rewrite-is_done s whole.ready) in
      let r = rewritten s s₁ e in
      let objects : s.state_objects ≡ s₁.state_objects = sym r.same.objects in
      (
        record s₁ { refreshing = true },
        rw e refl,
        record {
          whole = subst IsWhole objects whole;
          kept = subst J objects kept;
          leads = subst (λ l. LeadsTo l (link target)) objects leads;
          linked = (
            r.descriptor,
            r.there,
            subst (λ l. All (Links l) r.descriptor.streams) objects
                (subst (All (Links s.state_objects)) (sym r.describes.streams)
                  (IsWhole-Links s.state_objects whole)),
          );
        },
      )

  module _ (is_cyclical : List Operator → Option Bool) (number : ℕ) where
    -- The write at a source endpoint.
    written-IsJoinable :
        (s : Scope) (i j : ℕ) (src : Source) (cyclical : Bool)
        → source_at s.state_objects i j ≡ some src
        → IsJoinable s
        → IsJoinable (record s {
          state_objects = set_source s.state_objects i j (connect cyclical target src).0;
        })
    written-IsJoinable s i j src cyclical e k =
        let src' = (connect cyclical target src).0 in
        let (d, there, links) = k.linked in
        record {
          whole = set_source-IsWhole s.state_objects i j src' k.whole (
              connect-All (LeadsTo s.state_objects) cyclical target src
                (source_at-EverySource
                  (λ x. All (LeadsTo s.state_objects) (or_nil x.connections [])) s.state_objects i j
                  src e k.whole.wired)
                k.leads);
          kept = keep s.state_objects i j src cyclical e k.kept;
          leads = set_source-LeadsTo s.state_objects i j src' (link target) k.leads;
          linked = (d, there, Links-set_source s.state_objects i j src' d links);
        }

    -- It returns, or `isCyclical` throws; either way the canvas is in order behind it.
    record Passes (m : Outcome Scope) : Type 0 where
      joinable : IsJoinable (state_of m)
      ends : (m ≡ done (state_of m)) ⊎ ((os : List Operator) × (is_cyclical os ≡ none))

    returns : (s : Scope) → IsJoinable s → Passes (done s)
    returns s k = record { joinable = k; ends = inl refl }

    answered-Passes :
        (s : Scope) (i j : ℕ) (src : Source)
        → source_at s.state_objects i j ≡ some src
        → IsJoinable s
        → (os : List Operator) (answer : Option Bool) → is_cyclical os ≡ answer
        → Passes (answered_at is_cyclical target number answer i j src s)
    unfolding answered_at connected_at
    answered-Passes s i j src e k os none h = record {
      joinable = written-IsJoinable s i j src false e k;
      ends = inr (os, h);
    }
    answered-Passes s i j src e k os (some cyclical) h =
        let (s', u, k') = relinked _ (written-IsJoinable s i j src cyclical e k) in
        rw u (returns s' k')

    visit-Passes :
        (p : ℕ × ℕ) (s : Scope) → IsJoinable s → Passes (visit is_cyclical target number p s)
    unfolding visit connected_at
    visit-Passes (i, j) s k = elim (Option-cases (source_at s.state_objects i j)) [
      | inl e ↦ rw (e, visit) (returns s k)
      | inr (src, e) ↦ elim (Bool-cases (eqb src.uuid number)) [
        | inr other ↦ rw (e, other, visit) (returns s k)
        | inl hit ↦ elim (Bool-cases (connect false target src).1) [
          | inr over ↦ rw (e, hit, over, visit) (returns _ (written-IsJoinable s i j src false e k))
          | inl on ↦ rw (e, hit, on, visit) (answered-Passes s i j src e k _ _ refl)
        ]
      ]
    ]

    then-Passes :
        (m : Outcome Scope) (f : Scope → Outcome Scope)
        → Passes m
        → ((s : Scope) → IsJoinable s → Passes (f s))
        → Passes (m then_run f)
    then-Passes (done s) f p h = h s p.joinable
    then-Passes (thrown s) f p h = p

    visit_all-Passes :
        (ps : List (ℕ × ℕ)) (s : Scope)
        → IsJoinable s
        → Passes (visit_all is_cyclical target number ps s)
    unfolding visit_all
    visit_all-Passes [] s k = returns s k
    visit_all-Passes (p ∷ ps) s k =
        then-Passes (visit is_cyclical target number p s) (visit_all is_cyclical target number ps)
          (visit-Passes p s k) (visit_all-Passes ps)

    judged-Drawn : (m : Outcome Scope) → Passes m → Drawn is_cyclical J (m then_run validate_all)
    judged-Drawn (thrown s) p = record {
      whole = p.joinable.whole;
      kept = p.joinable.kept;
      ends = p.ends;
    }
    judged-Drawn (done s) p =
        let k = p.joinable in
        let (d, there, links) = k.linked in
        let (s', judged) = is_done-eq-done _ (validate_all-is_done s d there k.whole.ready links) in
        let alike = validate_all-plain s s' judged in
        rw judged (record {
          whole = IsWhole-same s.state_objects s'.state_objects alike k.whole;
          kept = same s.state_objects s'.state_objects alike k.kept;
          ends = inl refl;
        })

    pub on_connection_keeps :
        (s : Scope)
        → IsWhole s.state_objects
        → J s.state_objects
        → LeadsTo s.state_objects (link target)
        → Drawn is_cyclical J
            (connection_noticed s then_run on_connection is_cyclical target number)
    unfolding on_connection
    on_connection_keeps s whole kept leads =
        let (s₁, noticed, k₁) = noticed-IsJoinable s whole kept leads in
        let visited = visit_all-Passes (places 0 s₁.state_objects) s₁ k₁ in
        rw noticed (judged-Drawn _ visited)

EverySource-plain :
    (Q : Source → Type 0) (os : List Operator) → EverySource Q os → EverySource Q (plain_all os)
EverySource-plain Q [] h = tt
EverySource-plain Q (o ∷ os) (p, h) = (p, EverySource-plain Q os h)

EverySource-of_plain :
    (Q : Source → Type 0) (os : List Operator) → EverySource Q (plain_all os) → EverySource Q os
EverySource-of_plain Q [] h = tt
EverySource-of_plain Q (o ∷ os) (p, h) = (p, EverySource-of_plain Q os h)

pub EverySource-same :
    (Q : Source → Type 0) (os os' : List Operator)
    → plain_all os' ≡ plain_all os
    → EverySource Q os
    → EverySource Q os'
EverySource-same Q os os' e h =
    EverySource-of_plain Q os' (subst (EverySource Q) (sym e) (EverySource-plain Q os h))
