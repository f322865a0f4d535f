-- ===== src/Builder/Streams.antt =====
-- `updateConnections` of system-builder.controller.js: the streams of the descriptor, one for each
-- source endpoint that has a connection.
pub mod Shape
pub mod Sinks
use de_pipeline_tool.Prelude.{
  ℕ, ◌+◌, length, String, Bool, List, [], ◌∷◌, ◌++◌, Option, none, some, ◌==◌, if◌then◌else◌,
  or_nil, ◌⁺◌, contains, to_string, parses_to, Outcome, done, thrown,
}
use de_pipeline_tool.Builder.Model.{Operator, Source, Target, Connection, Stream, Descriptor, Scope}

-- The two loops that look for the target: each match overwrites the name, so the last one stays.
unfoldable pub sink_among : String → String → List Target → String → String
sink_among uuid owner [] found = found
sink_among uuid owner (t ∷ ts) found =
    sink_among uuid owner ts (if parses_to uuid t.uuid then owner else found)

unfoldable pub sink_name : List Operator → String → String → String
sink_name [] uuid found = found
sink_name (o ∷ os) uuid found =
    sink_name os uuid (sink_among uuid o.name (or_nil o.targets []) found)

-- The sinks of a source: `operatorNames` and `sinks` grow together, so one list stands for both.
unfoldable pub sinks_of : List Operator → List Connection → List String → List String
sinks_of all [] names = names
sinks_of all (c ∷ cs) names =
    let name = sink_name all c.uuid "" in
    sinks_of all cs (if contains names name then names else names ++ name ∷ [])

abbrev stream_of : List Operator → String → List Connection → ℕ → Stream
stream_of all owner cs number = record {
  name = "Stream " ⁺ to_string number;
  source = owner;
  sinks = sinks_of all cs [];
}

-- A stream is pushed for a source that has connections. `streamNum`, which starts at one and grows
-- with each push, is the number of streams pushed before, and one.
unfoldable pub push_stream : List Operator → String → List Connection → List Stream → List Stream
push_stream all owner [] streams = streams
push_stream all owner (c ∷ cs) streams =
    streams ++ stream_of all owner (c ∷ cs) (length streams + 1) ∷ []

unfoldable pub source_streams : List Operator → String → List Source → List Stream → List Stream
source_streams all owner [] streams = streams
source_streams all owner (s ∷ ss) streams =
    source_streams all owner ss (push_stream all owner (or_nil s.connections []) streams)

unfoldable pub streams_of : List Operator → List Operator → List Stream → List Stream
streams_of all [] streams = streams
streams_of all (o ∷ os) streams =
    streams_of all os (source_streams all o.name (or_nil o.sources []) streams)

-- `jsonConfig` has no `systemDescriptor` after `removeAll` and after a system was loaded, until
-- `updateJSON` runs: the assignment to its streams throws.
unfoldable pub update_connections : Scope → Outcome Scope
update_connections s = elim s.descriptor [
  | none ↦ thrown s
  | some d ↦ done (record s {
    descriptor = some (record d { streams = streams_of s.state_objects s.state_objects [] });
  })
]
