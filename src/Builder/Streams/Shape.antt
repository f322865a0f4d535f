-- ===== src/Builder/Streams/Shape.antt =====
-- What `updateConnections` writes, described without its loops: the wires of the operators, each
-- numbered, and the sinks of a wire.
use de_pipeline_tool.Prelude.{
  ℕ, ◌+◌, suc, length, String, List, [], ◌∷◌, ◌++◌, some, ◌≡◌, refl, sym, ap, ◌∙◌, append_assoc,
  append-nil, or_nil, done, arith, length-append,
}
use de_pipeline_tool.Builder.Model.{Operator, Source, Connection, Stream, Descriptor, Scope}
use de_pipeline_tool.Builder.Streams.{
  stream_of, push_stream, source_streams, streams_of, update_connections,
}

-- A source endpoint with connections: the name of its operator, and the connections.
pub record Wire : Type 0 where
  pub owner : String
  pub connections : List Connection

abbrev pub wire_of : String → List Connection → List Wire
wire_of owner [] = []
wire_of owner (c ∷ cs) = record { owner = owner; connections = c ∷ cs } ∷ []

abbrev pub source_wires : String → List Source → List Wire
source_wires owner [] = []
source_wires owner (s ∷ ss) = wire_of owner (or_nil s.connections []) ++ source_wires owner ss

-- The wires of the operators, in their order.
abbrev pub wires : List Operator → List Wire
wires [] = []
wires (o ∷ os) = source_wires o.name (or_nil o.sources []) ++ wires os

-- The streams for a list of wires, from a number on.
abbrev pub numbered : List Operator → ℕ → List Wire → List Stream
numbered all n [] = []
numbered all n (w ∷ ws) = stream_of all w.owner w.connections n ∷ numbered all (n + 1) ws

numbered-append :
    (all : List Operator) (n : ℕ) (xs ys : List Wire)
    → numbered all n (xs ++ ys) ≡ numbered all n xs ++ numbered all (n + length xs) ys
numbered-append all n [] ys = ap (λ k. numbered all k ys) (omega arith)
numbered-append all n (x ∷ xs) ys =
    let e : n + 1 + length xs ≡ n + length (x ∷ xs) = omega arith in
    rw (← e)
      (ap (λ l. stream_of all x.owner x.connections n ∷ l) (numbered-append all (n + 1) xs ys))

length-numbered :
    (all : List Operator) (n : ℕ) (xs : List Wire) → length (numbered all n xs) ≡ length xs
length-numbered all n [] = refl
length-numbered all n (x ∷ xs) = ap suc (length-numbered all (n + 1) xs)

push_stream-numbered :
    (all : List Operator) (owner : String) (cs : List Connection) (acc : List Stream)
    → push_stream all owner cs acc ≡ acc ++ numbered all (length acc + 1) (wire_of owner cs)
unfolding push_stream
push_stream-numbered all owner [] acc = sym (append-nil acc)
push_stream-numbered all owner (c ∷ cs) acc = refl

-- Appending the streams of one list of wires and then those of another.
numbered_step :
    (all : List Operator) (xs ys : List Wire) (acc : List Stream)
    → (acc ++ numbered all (length acc + 1) xs)
        ++ numbered all (length (acc ++ numbered all (length acc + 1) xs) + 1) ys
      ≡ acc ++ numbered all (length acc + 1) (xs ++ ys)
numbered_step all xs ys acc =
    let n = length acc + 1 in
    let e : length (acc ++ numbered all n xs) + 1 ≡ n + length xs =
      omega (arith, length-append acc (numbered all n xs), length-numbered all n xs) in
    rw (e, append_assoc, numbered-append)

source_streams-numbered :
    (all : List Operator) (owner : String) (ss : List Source) (acc : List Stream)
    → source_streams all owner ss acc ≡ acc ++ numbered all (length acc + 1) (source_wires owner ss)
unfolding source_streams
source_streams-numbered all owner [] acc = sym (append-nil acc)
source_streams-numbered all owner (s ∷ ss) acc =
    let cs = or_nil s.connections [] in
    source_streams-numbered all owner ss (push_stream all owner cs acc)
    ∙ rw (push_stream-numbered all owner cs acc)
        (numbered_step all (wire_of owner cs) (source_wires owner ss) acc)

streams_of-numbered :
    (all os : List Operator) (acc : List Stream)
    → streams_of all os acc ≡ acc ++ numbered all (length acc + 1) (wires os)
unfolding streams_of
streams_of-numbered all [] acc = sym (append-nil acc)
streams_of-numbered all (o ∷ os) acc =
    let ss = or_nil o.sources [] in
    streams_of-numbered all os (source_streams all o.name ss acc)
    ∙ rw (source_streams-numbered all o.name ss acc)
        (numbered_step all (source_wires o.name ss) (wires os) acc)

-- Where there is a descriptor, `updateConnections` returns, and it writes one stream for each source endpoint that has a connection, in the order of the canvas, numbered from one, and
-- changes nothing else.
pub update_connections-numbered :
    (s : Scope) (d : Descriptor)
    → s.descriptor ≡ some d
    → update_connections s
      ≡ done (record s {
        descriptor =
            some (record d { streams = numbered s.state_objects 1 (wires s.state_objects) });
      })
unfolding update_connections
update_connections-numbered s d h = rw (h, streams_of-numbered s.state_objects s.state_objects [])
