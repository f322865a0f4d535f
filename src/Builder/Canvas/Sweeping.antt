-- ===== src/Builder/Canvas/Sweeping.antt =====
-- `removeAllConnections` on connections as the drawing makes them: which of them it takes off.
use de_pipeline_tool.Prelude.{
  ℕ, true, false, List, [], ◌∷◌, Option, none, some, ◌≡◌, refl, sym, ap, ◌∙◌, arith, or_nil, eqb,
  if◌then◌else◌, inl, inr, Bool-cases, All, to_string, parses_to, eq_iff,
}
use de_pipeline_tool.Prelude.Texts.Numerals.{parse_int-to_string}
use de_pipeline_tool.Builder.Model.{Connection, Source, Target, Operator}
use de_pipeline_tool.Builder.Canvas.{
  is_hit, sweep, map_option, sweep_sources, sweep_operators, remove_all_connections,
}
use de_pipeline_tool.Builder.Connect.{has_connection}
use de_pipeline_tool.Builder.Connect.Wiring.{IsSingle, EverySource}

-- A connection as the drawing makes it: its text is the number of an endpoint.
abbrev pub IsNumbered : Connection → Type 0
IsNumbered c = (n : ℕ) × (c.uuid ≡ to_string n)

abbrev pub AtMostOne : List Target → Type 0
AtMostOne [] = Unit
AtMostOne (t ∷ []) = Unit
AtMostOne (t ∷ u ∷ ts) = ⊥

pub parses_to-to_string : (n k : ℕ) → parses_to (to_string n) k ≡ eqb n k
unfolding parses_to
parses_to-to_string n k = rw (parse_int-to_string n, parses_to) refl

same_number :
    (c d : Connection) (k : ℕ)
    → IsNumbered c
    → IsNumbered d
    → parses_to c.uuid k ≡ true
    → parses_to d.uuid k ≡ true
    → c.uuid ≡ d.uuid
same_number c d k (m, e) (n, f) p q =
    let first : eqb m k ≡ true = sym (ap (λ u. parses_to u k) e ∙ parses_to-to_string m k) ∙ p in
    let second : eqb n k ≡ true = sym (ap (λ u. parses_to u k) f ∙ parses_to-to_string n k) ∙ q in
    let same : m ≡ n = ground arith in e ∙ ap to_string same ∙ sym f

-- One target endpoint is hit by one text only.
hit_once :
    (gone : List Target) (c d : Connection)
    → AtMostOne gone
    → IsNumbered c
    → IsNumbered d
    → is_hit gone c ≡ true
    → is_hit gone d ≡ true
    → c.uuid ≡ d.uuid
unfolding is_hit
hit_once [] c d one m n p q = cc
hit_once (t ∷ []) c d one m n p q = same_number c d t.uuid m n (ground arith) (ground arith)
hit_once (t ∷ u ∷ ts) c d one m n p q = absurd one

abbrev pub IsSpared : List Target → Connection → Type 0
IsSpared gone c = is_hit gone c ≡ false

-- Behind a connection that is hit none is.
behind_hit :
    (gone : List Target) (c : Connection) (cs : List Connection)
    → AtMostOne gone
    → IsNumbered c
    → is_hit gone c ≡ true
    → has_connection c.uuid cs ≡ false
    → All IsNumbered cs
    → All (IsSpared gone) cs
unfolding has_connection
behind_hit gone c [] one m p h n = tt
behind_hit gone c (d ∷ cs) one m p h (k, n) = (
  elim (Bool-cases (is_hit gone d)) [
    | inr miss ↦ miss
    | inl hit ↦
        let same = hit_once gone c d one m k p hit in
        absurd (ground (arith, same, eq_iff d.uuid c.uuid))
  ],
  behind_hit gone c cs one m p (ground arith) n,
)

-- The connections that lead to none of the endpoints.
abbrev pub spared : List Target → List Connection → List Connection
spared gone [] = []
spared gone (c ∷ cs) = let rest = spared gone cs in if is_hit gone c then rest else c ∷ rest

spared-same :
    (gone : List Target) (cs : List Connection) → All (IsSpared gone) cs → spared gone cs ≡ cs
spared-same gone [] h = refl
spared-same gone (c ∷ cs) (p, h) = rw p (ap (λ l. c ∷ l) (spared-same gone cs h))

sweep-same :
    (gone : List Target) (cs : List Connection) → All (IsSpared gone) cs → sweep gone cs ≡ cs
unfolding sweep
sweep-same gone [] h = refl
sweep-same gone (c ∷ []) (p, h) = rw p refl
sweep-same gone (c ∷ d ∷ cs) (p, h) = rw p (ap (λ l. c ∷ l) (sweep-same gone (d ∷ cs) h))

-- The loop takes off just the connections that are hit.
sweep-spared :
    (gone : List Target) (cs : List Connection)
    → AtMostOne gone
    → IsSingle cs
    → All IsNumbered cs
    → sweep gone cs ≡ spared gone cs
unfolding sweep
sweep-spared gone [] one s n = refl
sweep-spared gone (c ∷ []) one s n = refl
sweep-spared gone (c ∷ d ∷ cs) one (p, s) (m, n) = elim (Bool-cases (is_hit gone c)) [
  | inr miss ↦ rw miss (ap (λ l. c ∷ l) (sweep-spared gone (d ∷ cs) one s n))
  | inl hit ↦
      let rest = behind_hit gone c (d ∷ cs) one m hit p n in
      rw (hit, spared-same gone (d ∷ cs) rest) (ap (λ l. d ∷ l) (sweep-same gone cs rest.1))
]

-- A source endpoint as the drawing leaves it: no two connections to the same endpoint.
pub record IsTidy (src : Source) : Type 0 where
  pub single : IsSingle (or_nil src.connections [])
  pub numbered : All IsNumbered (or_nil src.connections [])

abbrev pub spared_sources : List Target → List Source → List Source
spared_sources gone [] = []
spared_sources gone (s ∷ ss) =
    record s { connections = map_option (spared gone) s.connections } ∷ spared_sources gone ss

-- The operators without the connections that lead to the endpoints.
abbrev pub spared_operators : List Target → List Operator → List Operator
spared_operators gone [] = []
spared_operators gone (o ∷ os) =
    record o { sources = map_option (spared_sources gone) o.sources } ∷ spared_operators gone os

sweep_source-spared :
    (gone : List Target) (cs : Option (List Connection))
    → AtMostOne gone
    → IsSingle (or_nil cs [])
    → All IsNumbered (or_nil cs [])
    → map_option (sweep gone) cs ≡ map_option (spared gone) cs
sweep_source-spared gone none one s n = refl
sweep_source-spared gone (some cs) one s n = ap some (sweep-spared gone cs one s n)

sweep_sources-spared :
    (gone : List Target) (ss : List Source)
    → AtMostOne gone
    → All IsTidy ss
    → sweep_sources gone ss ≡ spared_sources gone ss
unfolding sweep_sources
sweep_sources-spared gone [] one h = refl
sweep_sources-spared gone (s ∷ ss) one (t, h) =
    rw (sweep_source-spared gone s.connections one t.single t.numbered) (
      ap (λ l. record s { connections = map_option (spared gone) s.connections } ∷ l)
        (sweep_sources-spared gone ss one h))

sweep_operator-spared :
    (gone : List Target) (ss : Option (List Source))
    → AtMostOne gone
    → All IsTidy (or_nil ss [])
    → map_option (sweep_sources gone) ss ≡ map_option (spared_sources gone) ss
sweep_operator-spared gone none one h = refl
sweep_operator-spared gone (some ss) one h = ap some (sweep_sources-spared gone ss one h)

sweep_operators-spared :
    (gone : List Target) (os : List Operator)
    → AtMostOne gone
    → EverySource IsTidy os
    → sweep_operators gone os ≡ spared_operators gone os
unfolding sweep_operators
sweep_operators-spared gone [] one h = refl
sweep_operators-spared gone (o ∷ os) one (t, h) = rw (sweep_operator-spared gone o.sources one t) (
    ap (λ l. record o { sources = map_option (spared_sources gone) o.sources } ∷ l)
      (sweep_operators-spared gone os one h))

-- `removeAllConnections`, which removes in the arrays that it walks over, takes off exactly the
-- connections that lead to the operator, where the operator has one target endpoint at most, no source
-- endpoint has two connections to the same endpoint, and connections name endpoints by their numbers.
pub remove_all_connections-spared :
    (removed : Operator) (os : List Operator)
    → AtMostOne (or_nil removed.targets [])
    → EverySource IsTidy os
    → remove_all_connections removed os ≡ spared_operators (or_nil removed.targets []) os
unfolding remove_all_connections
remove_all_connections-spared removed os one h =
    sweep_operators-spared (or_nil removed.targets []) os one h
