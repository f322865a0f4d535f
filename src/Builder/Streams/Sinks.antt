-- ===== src/Builder/Streams/Sinks.antt =====
-- The sinks that `updateConnections` finds for the connections of a source endpoint.
use de_pipeline_tool.Prelude.{
  String, Option, none, some, Bool, true, false, ◌||◌, List, [], ◌∷◌, ◌++◌, ◌≡◌, refl, ◌∙◌, ◌⊎◌,
  inl, inr, if◌then◌else◌, or_nil, ◌==◌, eq_iff, contains, contains-append, All, Any, IsDistinct,
  IsDistinct-snoc, Bool-cases, parses_to, arith,
}
use de_pipeline_tool.Builder.Model.{Operator, Target, Connection}
use de_pipeline_tool.Builder.Streams.{sink_among, sink_name, sinks_of}

-- Some target endpoint of the operator has the number that the text stands for.
abbrev pub TargetOf : String → Operator → Type 0
TargetOf uuid o = Any (λ t. parses_to uuid t.uuid ≡ true) (or_nil o.targets [])

not-Any :
    (uuid : String) (ts : List Target)
    → All (λ t. parses_to uuid t.uuid ≡ false) ts
    → ¬ Any (λ t. parses_to uuid t.uuid ≡ true) ts
not-Any uuid [] h k = k
not-Any uuid (t ∷ ts) (p, h) (inl q) = cc
not-Any uuid (t ∷ ts) (p, h) (inr later) = not-Any uuid ts h later

sink_among-cases :
    (uuid owner : String) (ts : List Target) (found : String)
    → ((sink_among uuid owner ts found ≡ owner) × Any (λ t. parses_to uuid t.uuid ≡ true) ts)
      ⊎ ((sink_among uuid owner ts found ≡ found) × All (λ t. parses_to uuid t.uuid ≡ false) ts)
unfolding sink_among
sink_among-cases uuid owner [] found = inr (refl, tt)
sink_among-cases uuid owner (t ∷ ts) found = elim (Bool-cases (parses_to uuid t.uuid)) [
  | inl hit ↦ elim (sink_among-cases uuid owner ts owner) [
    | inl (e, later) ↦ inl (rw hit e, inr later)
    | inr (e, _) ↦ inl (rw hit e, inl hit)
  ]
  | inr miss ↦ elim (sink_among-cases uuid owner ts found) [
    | inl (e, later) ↦ inl (rw miss e, inr later)
    | inr (e, rest) ↦ inr (rw miss e, (miss, rest))
  ]
]

sink_name-cases :
    (os : List Operator) (uuid found : String)
    → Any (λ o. (sink_name os uuid found ≡ o.name) × TargetOf uuid o) os
      ⊎ ((sink_name os uuid found ≡ found) × All (λ o. ¬ TargetOf uuid o) os)
unfolding sink_name
sink_name-cases [] uuid found = inr (refl, tt)
sink_name-cases (o ∷ os) uuid found =
    let here = sink_among uuid o.name (or_nil o.targets []) found in
    elim (sink_name-cases os uuid here) [
      | inl later ↦ inl (inr later)
      | inr (e, rest) ↦ elim (sink_among-cases uuid o.name (or_nil o.targets []) found) [
        | inl (named, hit) ↦ inl (inl (e ∙ named, hit))
        | inr (kept, missed) ↦ inr (e ∙ kept, (not-Any uuid (or_nil o.targets []) missed, rest))
      ]
    ]

-- The sink of a connection is the name of an operator that has the connection's target endpoint, or
-- the empty text where no operator on the canvas has it.
pub sink_name-IsTarget :
    (os : List Operator) (uuid : String)
    → Any (λ o. (sink_name os uuid "" ≡ o.name) × TargetOf uuid o) os
      ⊎ ((sink_name os uuid "" ≡ "") × All (λ o. ¬ TargetOf uuid o) os)
sink_name-IsTarget os uuid = sink_name-cases os uuid ""

sinks_of_step :
    (all : List Operator) (c : Connection) (names : List String)
    → IsDistinct names
    → IsDistinct (
        if contains names (sink_name all c.uuid "")
        then names
        else names ++ sink_name all c.uuid "" ∷ [])
sinks_of_step all c names d = elim (Bool-cases (contains names (sink_name all c.uuid ""))) [
  | inl old ↦ rw old d
  | inr new ↦ rw new (IsDistinct-snoc names (sink_name all c.uuid "") d new)
]

pub sinks_of-IsDistinct :
    (all : List Operator) (cs : List Connection) (names : List String)
    → IsDistinct names
    → IsDistinct (sinks_of all cs names)
unfolding sinks_of
sinks_of-IsDistinct all [] names d = d
sinks_of-IsDistinct all (c ∷ cs) names d =
    sinks_of-IsDistinct all cs _ (sinks_of_step all c names d)

-- The operator has a target endpoint of the number.
abbrev pub has_target : String → List Target → Bool
has_target uuid [] = false
has_target uuid (t ∷ ts) = parses_to uuid t.uuid || has_target uuid ts

-- The name of the operator that has the target endpoint: of several the last.
abbrev pub owner_of : List Operator → String → Option String
owner_of [] uuid = none
owner_of (o ∷ os) uuid = elim (owner_of os uuid) [
  | some name ↦ some name
  | none ↦ if has_target uuid (or_nil o.targets []) then some o.name else none
]

sink_among-has_target :
    (uuid owner : String) (ts : List Target) (found : String)
    → sink_among uuid owner ts found ≡ (if has_target uuid ts then owner else found)
unfolding sink_among
sink_among-has_target uuid owner [] found = refl
sink_among-has_target uuid owner (t ∷ ts) found =
    ground
      (arith, sink_among-has_target uuid owner ts owner, sink_among-has_target uuid owner ts found)

sink_name-owner_of :
    (os : List Operator) (uuid found : String)
    → sink_name os uuid found ≡ or_nil (owner_of os uuid) found
unfolding sink_name
sink_name-owner_of [] uuid found = refl
sink_name-owner_of (o ∷ os) uuid found = ground (
  arith,
  sink_name-owner_of os uuid (sink_among uuid o.name (or_nil o.targets []) found),
  sink_among-has_target uuid o.name (or_nil o.targets []) found,
)

-- One of the connections leads to an operator of the name, or to none where the name is empty.
abbrev pub is_sink : List Operator → List Connection → String → Bool
is_sink all [] name = false
is_sink all (c ∷ cs) name = or_nil (owner_of all c.uuid) "" == name || is_sink all cs name

contains_step :
    (name sink : String) (names : List String)
    → contains (if contains names sink then names else names ++ sink ∷ []) name
      ≡ (contains names name || sink == name)
contains_step name sink names =
    ground (arith, contains-append name names (sink ∷ []), eq_iff sink name)

-- Exactly the sinks of the connections are listed, behind those that were there.
pub contains-sinks_of :
    (all : List Operator) (cs : List Connection) (names : List String) (name : String)
    → contains (sinks_of all cs names) name ≡ (contains names name || is_sink all cs name)
unfolding sinks_of
contains-sinks_of all [] names name = ground arith
contains-sinks_of all (c ∷ cs) names name = ground (
  arith,
  contains-sinks_of all cs
      (if contains names (sink_name all c.uuid "")
        then names
        else names ++ sink_name all c.uuid "" ∷ [])
      name,
  contains_step name (sink_name all c.uuid "") names,
  sink_name-owner_of all c.uuid "",
)

-- The sinks of a stream are the names of the operators that have the target endpoints of its connections, of
-- several that have one the last, and the empty text where none has it; each is listed once.
pub sinks_of-exact :
    (all : List Operator) (cs : List Connection)
    → IsDistinct (sinks_of all cs [])
      × ((name : String) → contains (sinks_of all cs []) name ≡ is_sink all cs name)
sinks_of-exact all cs = (sinks_of-IsDistinct all cs [] tt, λ name. contains-sinks_of all cs [] name)
