-- ===== src/Builder/Check/Balance.antt =====
-- The accounts that the loop over the streams in `validateAll` keeps: what each operator still needs
-- before and after the loop, and how often it gives and takes a stream between.
use de_pipeline_tool.Prelude.{
  ℕ, ◌+◌, ◌≤◌, String, true, List, [], ◌∷◌, ◌++◌, some, ◌≡◌, refl, if◌then◌else◌, ◌⁺◌, done, arith,
  ◌==◌, count, count-append, count-remove, All, snoc-ne-nil, subst,
}
use de_pipeline_tool.Builder.Model.{OperatorType, message, Stream, lookup}
use de_pipeline_tool.Builder.Scan.{Entry}
use de_pipeline_tool.Builder.Check.{
  Uses, use_source, use_sink, can_connect, check_types, check_sinks, check_stream, check_streams,
}

-- Between `u` and `u'`, `a` gave `given` streams and took `taken`, and nothing was complained of.
pub record Spends (a : String) (given taken : ℕ) (u u' : Uses) : Type 0 where
  pub before : u.invalid ≡ []
  pub inputs : count a u.inputs ≤ count a u'.inputs + given
  pub outputs : count a u.outputs ≤ count a u'.outputs + taken
  pub total :
      count a u.inputs + count a u.outputs + count a u.middle
      ≤ count a u'.inputs + count a u'.outputs + count a u'.middle + given + taken
  pub limit : count a u'.outputs + count a u'.middle + taken ≤ count a u.outputs + count a u.middle

abbrev pub occurs : String → String → ℕ
occurs a b = if b == a then 1 else 0

Spends-trans :
    {a : String} {g g' t t' : ℕ} {u v w : Uses}
    → Spends a g t u v
    → Spends a g' t' v w
    → Spends a (g + g') (t + t') u w
Spends-trans p q = ground arith

use_source-Spends :
    (a name : String) (u : Uses)
    → (use_source name u).invalid ≡ []
    → Spends a (occurs a name) 0 u (use_source name u)
unfolding use_source
use_source-Spends a name u h =
    ground (arith, count-remove a name u.inputs, count-remove a name u.middle)

use_sink-Spends :
    (a name : String) (u : Uses)
    → (use_sink name u).invalid ≡ []
    → Spends a 0 (occurs a name) u (use_sink name u)
unfolding use_sink
use_sink-Spends a name u h = ground (
  arith,
  count-remove a name u.outputs,
  count-remove a name u.middle,
  snoc-ne-nil u.invalid (message (name ⁺ " has too many inputs")),
)

check_types_clean :
    (source sink : String) (from to : OperatorType) (u : Uses)
    → (check_types source sink from to u).invalid ≡ []
    → (can_connect from to ≡ true) × (check_types source sink from to u ≡ u)
unfolding check_types
check_types_clean source sink from to u h = ground (
  arith,
  snoc-ne-nil u.invalid (message (source ⁺ " operator can't connect with " ⁺ sink ⁺ " operator")),
)

-- The sink names an operator of a type that `from` may be connected to.
abbrev pub Fits : List (String × Entry) → OperatorType → String → Type 0
Fits table from sink =
    (to : Entry) × (lookup sink table ≡ some to) × (can_connect from to.type ≡ true)

pub record SinksPass (table : List (String × Entry)) (from : OperatorType) (sinks : List String)
    (u u' : Uses) : Type 0 where
  pub spends : (a : String) → Spends a 0 (count a sinks) u u'
  pub fits : All (Fits table from) sinks

check_sinks-eq-done :
    (table : List (String × Entry)) (source : String) (from : OperatorType) (sink : String)
    (sinks : List String) (u u' : Uses)
    → check_sinks table source from (sink ∷ sinks) u ≡ done u'
    → (to : Entry) × (lookup sink table ≡ some to)
      × (check_sinks table source from sinks
            (check_types source sink from to.type (use_sink sink u))
          ≡ done u')
unfolding check_sinks
check_sinks-eq-done table source from sink sinks u u' h = ground arith

check_sinks-SinksPass :
    (table : List (String × Entry)) (source : String) (from : OperatorType) (sinks : List String)
    (u u' : Uses)
    → check_sinks table source from sinks u ≡ done u'
    → u'.invalid ≡ []
    → SinksPass table from sinks u u'
unfolding check_sinks
check_sinks-SinksPass table source from [] u u' h k = record {
  spends = λ a. ground arith;
  fits = tt;
}
check_sinks-SinksPass table source from (sink ∷ sinks) u u' h k =
    let (to, found, rest) = check_sinks-eq-done table source from sink sinks u u' h in
    let u₁ = check_types source sink from to.type (use_sink sink u) in
    let passed = check_sinks-SinksPass table source from sinks u₁ u' rest k in
    let (fit, same) =
      check_types_clean source sink from to.type (use_sink sink u) (passed.spends sink).before in
    record {
      spends = λ a.
          let later : Spends a 0 (count a sinks) (use_sink sink u) u' =
            subst (λ v. Spends a 0 (count a sinks) v u') same (passed.spends a) in
          Spends-trans (use_sink-Spends a sink u later.before) later;
      fits = ((to, found, fit), passed.fits);
    }

-- `u` lets the streams pass, and each of them connects operators whose types fit.
abbrev pub StreamFits : List (String × Entry) → Stream → Type 0
StreamFits table stream =
    (from : Entry) × (lookup stream.source table ≡ some from)
    × All (Fits table from.type) stream.sinks

abbrev pub sources_in : List Stream → List String
sources_in [] = []
sources_in (s ∷ ss) = s.source ∷ sources_in ss

abbrev pub sinks_in : List Stream → List String
sinks_in [] = []
sinks_in (s ∷ ss) = s.sinks ++ sinks_in ss

pub record StreamsPass (table : List (String × Entry)) (streams : List Stream) (u u' : Uses)
    : Type 0 where
  pub spends :
      (a : String) → Spends a (count a (sources_in streams)) (count a (sinks_in streams)) u u'
  pub fits : All (StreamFits table) streams

check_stream-eq-done :
    (table : List (String × Entry)) (s : Stream) (u u' : Uses)
    → check_stream table s u ≡ done u'
    → (from : Entry) × (lookup s.source table ≡ some from)
      × (check_sinks table s.source from.type s.sinks (use_source s.source u) ≡ done u')
unfolding check_stream
check_stream-eq-done table s u u' h = ground arith

check_streams-eq-done :
    (table : List (String × Entry)) (s : Stream) (ss : List Stream) (u u' : Uses)
    → check_streams table (s ∷ ss) u ≡ done u'
    → (u₁ : Uses) × (check_stream table s u ≡ done u₁) × (check_streams table ss u₁ ≡ done u')
unfolding check_streams
check_streams-eq-done table s ss u u' h = ground arith

Spends-stream :
    {a : String} {g' t' : ℕ} (s : Stream) (ss : List Stream) {u u' : Uses}
    → Spends a (occurs a s.source + (0 + g')) (0 + (count a s.sinks + t')) u u'
    → g' ≡ count a (sources_in ss)
    → t' ≡ count a (sinks_in ss)
    → Spends a (count a (sources_in (s ∷ ss))) (count a (sinks_in (s ∷ ss))) u u'
Spends-stream {a} s ss p e f = ground (arith, count-append a s.sinks (sinks_in ss))

pub check_streams-StreamsPass :
    (table : List (String × Entry)) (ss : List Stream) (u u' : Uses)
    → check_streams table ss u ≡ done u'
    → u'.invalid ≡ []
    → StreamsPass table ss u u'
unfolding check_streams
check_streams-StreamsPass table [] u u' h k = record { spends = λ a. ground arith; fits = tt }
check_streams-StreamsPass table (s ∷ ss) u u' h k =
    let (u₁, first, rest) = check_streams-eq-done table s ss u u' h in
    let (from, found, sinks) = check_stream-eq-done table s u u₁ first in
    let later = check_streams-StreamsPass table ss u₁ u' rest k in
    let now =
      check_sinks-SinksPass table s.source from.type s.sinks (use_source s.source u) u₁ sinks
        (later.spends s.source).before in
    record {
      spends = λ a.
          Spends-stream s ss
            (Spends-trans (use_source-Spends a s.source u (now.spends a).before)
              (Spends-trans (now.spends a) (later.spends a)))
            refl refl;
      fits = ((from, found, now.fits), later.fits);
    }
