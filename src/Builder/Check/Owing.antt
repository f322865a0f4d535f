-- ===== src/Builder/Check/Owing.antt =====
-- What the loop over the streams in `validateAll` still has to find of each operator, so that it ends without
-- a complaint.
use de_pipeline_tool.Prelude.{
  ℕ, ◌+◌, ◌≤◌, String, true, List, [], ◌∷◌, ◌≡◌, refl, subst, ◌∙◌, ◌⊎◌, done, arith, eq_iff,
  eq_refl, count, count-append, count-remove, contains-false→count, contains→count, All,
}
use de_pipeline_tool.Builder.Model.{OperatorType, Stream}
use de_pipeline_tool.Builder.Scan.{Entry}
use de_pipeline_tool.Builder.Check.{
  Uses, use_source, use_sink, can_connect, check_types, check_sinks, check_stream, check_streams,
}
use de_pipeline_tool.Builder.Check.Balance.{occurs, Fits, StreamFits, sources_in, sinks_in}

-- By the operator's name on the three lists: it is an input and stands there at most as often as it still
-- gives a stream; it is an output and stands there as often as it still takes one; or it is another, and
-- stands there as often as it still does either.
abbrev pub Owes : (given taken inputs outputs middle : ℕ) → Type 0
Owes given taken inputs outputs middle =
    ((taken ≡ 0) × (inputs ≤ given) × (outputs ≡ 0) × (middle ≡ 0))
    ⊎ ((inputs ≡ 0) × (outputs ≡ taken) × (middle ≡ 0))
    ⊎ ((inputs ≡ 0) × (outputs ≡ 0) × (middle ≡ given + taken))

abbrev pub OwesOf : String → (given taken : ℕ) → Uses → Type 0
OwesOf a given taken u = Owes given taken (count a u.inputs) (count a u.outputs) (count a u.middle)

use_source-OwesOf :
    (a name : String) (given taken : ℕ) (u : Uses)
    → OwesOf a (occurs a name + given) taken u
    → OwesOf a given taken (use_source name u)
unfolding use_source
use_source-OwesOf a name given taken u h = ground (
  arith,
  count-remove a name u.inputs,
  count-remove a name u.middle,
  contains-false→count a u.inputs,
  contains-false→count a u.middle,
  contains→count a u.inputs,
  contains→count a u.middle,
  eq_iff name a,
)

use_sink-OwesOf :
    (a name : String) (given taken : ℕ) (u : Uses)
    → OwesOf a given (occurs a name + taken) u
    → OwesOf a given taken (use_sink name u)
unfolding use_sink
use_sink-OwesOf a name given taken u h = ground (
  arith,
  count-remove a name u.outputs,
  count-remove a name u.middle,
  contains-false→count a u.outputs,
  contains-false→count a u.middle,
  contains→count a u.outputs,
  contains→count a u.middle,
  eq_iff name a,
)

-- An operator that still takes a stream is not complained of.
use_sink-quiet :
    (name : String) (given taken : ℕ) (u : Uses)
    → OwesOf name given (1 + taken) u
    → (use_sink name u).invalid ≡ u.invalid
unfolding use_sink
use_sink-quiet name given taken u h =
    ground (arith, contains-false→count name u.outputs, contains-false→count name u.middle)

use_source-quiet : (name : String) (u : Uses) → (use_source name u).invalid ≡ u.invalid
unfolding use_source
use_source-quiet name u = ground arith

check_types-same :
    (source sink : String) (from to : OperatorType) (u : Uses)
    → can_connect from to ≡ true
    → check_types source sink from to u ≡ u
unfolding check_types
check_types-same source sink from to u h = rw h refl

-- The loop ends without a complaint, and what is owed then is what the streams have not paid.
record IsQuiet (given taken : String → ℕ) (u : Uses) : Type 0 where
  none_said : u.invalid ≡ []
  owes : (a : String) → OwesOf a (given a) (taken a) u

check_sinks-IsQuiet :
    (table : List (String × Entry)) (source : String) (from : OperatorType) (sinks : List String)
    (given taken : String → ℕ) (u : Uses)
    → All (Fits table from) sinks
    → IsQuiet given (λ a. count a sinks + taken a) u
    → (u' : Uses) × (check_sinks table source from sinks u ≡ done u') × IsQuiet given taken u'
unfolding check_sinks
check_sinks-IsQuiet table source from [] given taken u h q = (
  u,
  refl,
  record {
    none_said = q.none_said;
    owes = λ a.
        let e : 0 + taken a ≡ taken a = omega arith in
        subst (λ n. OwesOf a (given a) n u) e (q.owes a);
  },
)
check_sinks-IsQuiet table source from (sink ∷ sinks) given taken u ((to, found, fit), h) q =
    let same = check_types-same source sink from to.type (use_sink sink u) fit in
    let split = λ (a : String).
      let e : count a (sink ∷ sinks) + taken a ≡ occurs a sink + (count a sinks + taken a) =
        omega arith in
      subst (λ n. OwesOf a (given a) n u) e (q.owes a) in
    let one : occurs sink sink + (count sink sinks + taken sink)
        ≡ 1 + (count sink sinks + taken sink) =
      rw (eq_refl sink) refl in
    let quiet =
      use_sink-quiet sink (given sink) (count sink sinks + taken sink) u
        (subst (λ n. OwesOf sink (given sink) n u) one (split sink)) in
    let (u', run, q') =
      check_sinks-IsQuiet table source from sinks given taken (use_sink sink u) h (record {
        none_said = quiet ∙ q.none_said;
        owes = λ a. use_sink-OwesOf a sink (given a) (count a sinks + taken a) u (split a);
      }) in
    (u', rw (found, same, check_sinks) run, q')

check_stream-IsQuiet :
    (table : List (String × Entry)) (s : Stream) (given taken : String → ℕ) (u : Uses)
    → StreamFits table s
    → IsQuiet (λ a. occurs a s.source + given a) (λ a. count a s.sinks + taken a) u
    → (u' : Uses) × (check_stream table s u ≡ done u') × IsQuiet given taken u'
unfolding check_stream
check_stream-IsQuiet table s given taken u (from, found, fits) q =
    let (u', run, q') =
      check_sinks-IsQuiet table s.source from.type s.sinks given taken (use_source s.source u) fits
        (record {
          none_said = use_source-quiet s.source u ∙ q.none_said;
          owes =
              λ a. use_source-OwesOf a s.source (given a) (count a s.sinks + taken a) u (q.owes a);
        }) in
    (u', rw (found, check_stream) run, q')

check_streams-IsQuiet :
    (table : List (String × Entry)) (ss : List Stream) (u : Uses)
    → All (StreamFits table) ss
    → IsQuiet (λ a. count a (sources_in ss)) (λ a. count a (sinks_in ss)) u
    → (u' : Uses) × (check_streams table ss u ≡ done u') × IsQuiet (λ a. 0) (λ a. 0) u'
unfolding check_streams
check_streams-IsQuiet table [] u h q = (u, refl, q)
check_streams-IsQuiet table (s ∷ ss) u (f, h) q =
    let (u₁, first, q₁) =
      check_stream-IsQuiet table s (λ a. count a (sources_in ss)) (λ a. count a (sinks_in ss)) u f
        (record {
          none_said = q.none_said;
          owes = λ a.
              subst (λ n. OwesOf a (count a (sources_in (s ∷ ss))) n u)
                (count-append a s.sinks (sinks_in ss)) (q.owes a);
        }) in
    let (u₂, rest, q₂) = check_streams-IsQuiet table ss u₁ h q₁ in
    (u₂, rw (first, check_streams) rest, q₂)

nil_of_counts : (xs : List String) → ((a : String) → count a xs ≡ 0) → xs ≡ []
nil_of_counts [] h = refl
nil_of_counts (x ∷ xs) h = absurd (ground (arith, h x, eq_refl x))

-- Where nothing is owed behind the loop, the lists are empty.
pub check_streams-passes :
    (table : List (String × Entry)) (ss : List Stream) (u : Uses)
    → u.invalid ≡ []
    → All (StreamFits table) ss
    → ((a : String) → OwesOf a (count a (sources_in ss)) (count a (sinks_in ss)) u)
    → (u' : Uses) × (check_streams table ss u ≡ done u')
      × (u'.invalid ≡ [])
      × (u'.inputs ≡ [])
      × (u'.outputs ≡ [])
      × (u'.middle ≡ [])
check_streams-passes table ss u quiet fits owes =
    let (u', run, q) =
      check_streams-IsQuiet table ss u fits (record { none_said = quiet; owes = owes }) in
    (
      u',
      run,
      q.none_said,
      nil_of_counts u'.inputs (λ a. ground (arith, q.owes a)),
      nil_of_counts u'.outputs (λ a. ground (arith, q.owes a)),
      nil_of_counts u'.middle (λ a. ground (arith, q.owes a)),
    )
