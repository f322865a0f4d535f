-- ===== src/Builder/Check/Start.antt =====
-- What the loop over the streams in `validateAll` has to find, for a system that obeys the rules.
use de_pipeline_tool.Prelude.{
  ℕ, ◌+◌, String, true, false, ◌||◌, List, [], ◌∷◌, ◌≡◌, refl, sym, ◌∙◌, subst, inl, inr, arith,
  ◌==◌, eq_iff, eq_refl, contains, count, count-append, All, All_mono, IsDistinct, Bool-cases,
}
use de_pipeline_tool.Builder.Model.{
  OperatorType, input, output, binary_input, binary_output, Operator, Stream,
}
use de_pipeline_tool.Builder.Scan.{is_input, is_output}
use de_pipeline_tool.Builder.Scan.Lists.{input_name, output_name, middle_name, names_by}
use de_pipeline_tool.Builder.Scan.Clean.{names_of, HasType}
use de_pipeline_tool.Builder.Check.{can_connect}
use de_pipeline_tool.Builder.Check.Balance.{sources_in, sinks_in}
use de_pipeline_tool.Builder.Check.Owing.{Owes}
use de_pipeline_tool.Builder.Check.Rules.{
  IsConnected, Joins, IsBuildable, input_name-IsOwn, output_name-IsOwn, middle_name-IsOwn,
  CountsAlone, counts_alone, count-absent,
}

-- An operator that is neither input nor output gives and takes two streams in all.
abbrev pub HasTwo : List Stream → Operator → Type 0
HasTwo ss o =
    (is_input o.type || is_output o.type) ≡ false
    → count o.name (sources_in ss) + count o.name (sinks_in ss) ≡ 2

pub absent_name :
    (os : List Operator) (a : String) (type : OperatorType)
    → contains (names_of os) a ≡ false
    → HasType os a type
    → ⊥
absent_name [] a type h t = t
absent_name (o ∷ os) a type h (inl (e, _)) = ground (arith, eq_iff o.name a)
absent_name (o ∷ os) a type h (inr later) = absent_name os a type (ground arith) later

-- Where the names are distinct, a name has one type.
pub HasType-unique :
    (os : List Operator) (a : String) (t u : OperatorType)
    → IsDistinct (names_of os)
    → HasType os a t
    → HasType os a u
    → t ≡ u
HasType-unique [] a t u d p q = absurd p
HasType-unique (o ∷ os) a t u (n, d) (inl (e, k)) (inl (f, l)) = sym k ∙ l
HasType-unique (o ∷ os) a t u (n, d) (inl (e, k)) (inr q) =
    absurd (absent_name os o.name u n (subst (λ x. HasType os x u) (sym e) q))
HasType-unique (o ∷ os) a t u (n, d) (inr p) (inl (f, l)) =
    absurd (absent_name os o.name t n (subst (λ x. HasType os x t) (sym f) p))
HasType-unique (o ∷ os) a t u (n, d) (inr p) (inr q) = HasType-unique os a t u d p q

-- A name that no sink may have, by its type or because no operator has it.
sinks-count :
    (os : List Operator) (a : String)
    → ((from to : OperatorType) → HasType os a to → can_connect from to ≡ true → ⊥)
    → (from : OperatorType) (sinks : List String)
    → All (λ sink. (to : OperatorType) × HasType os sink to × (can_connect from to ≡ true)) sinks
    → count a sinks ≡ 0
sinks-count os a never from [] h = refl
sinks-count os a never from (x ∷ sinks) ((to, has, fit), h) = elim (Bool-cases (x == a)) [
  | inl e ↦ absurd (never from to (subst (λ n. HasType os n to) ((eq_iff x a).0 e) has) fit)
  | inr e ↦ ground (arith, e, sinks-count os a never from sinks h)
]

sinks_in-count :
    (os : List Operator) (a : String)
    → ((from to : OperatorType) → HasType os a to → can_connect from to ≡ true → ⊥)
    → (ss : List Stream) → All (Joins os) ss
    → count a (sinks_in ss) ≡ 0
sinks_in-count os a never [] h = refl
sinks_in-count os a never (s ∷ ss) ((from, _, sinks), h) = ground (
  arith,
  count-append a s.sinks (sinks_in ss),
  sinks-count os a never from s.sinks sinks,
  sinks_in-count os a never ss h,
)

no_connection_to_input :
    (from to : OperatorType) → is_input to ≡ true → can_connect from to ≡ true → ⊥
unfolding can_connect
no_connection_to_input from to h k = ground arith

Owes-by_type :
    (name : String) (type : OperatorType) (given taken inputs outputs middle : ℕ)
    → IsConnected type given taken
    → ((is_input type || is_output type) ≡ false → given + taken ≡ 2)
    → (is_input type ≡ true → taken ≡ 0)
    → inputs ≡ count name (input_name name type)
    → outputs ≡ count name (output_name name type)
    → middle ≡ count name (middle_name name type)
    → Owes given taken inputs outputs middle
Owes-by_type name input given taken i o m c two none_in ei eo em =
    inl (none_in refl, ground (arith, eq_refl name), ground arith, ground arith)
Owes-by_type name binary_input given taken i o m c two none_in ei eo em =
    inl (none_in refl, ground (arith, eq_refl name), ground arith, ground arith)
Owes-by_type name output given taken i o m c two none_in ei eo em =
    inr (inl (ground arith, ground (arith, eq_refl name), ground arith))
Owes-by_type name binary_output given taken i o m c two none_in ei eo em =
    inr (inl (ground arith, ground (arith, eq_refl name), ground arith))
Owes-by_type name _ given taken i o m c two none_in ei eo em =
    inr (inr (ground arith, ground arith, ground (arith, eq_refl name, two refl)))

module _ (all : List Operator) (ss : List Stream) where
  -- What the lists hold of a name before the loop over the streams.
  abbrev pub IsOwed : String → Type 0
  IsOwed a =
      Owes (count a (sources_in ss)) (count a (sinks_in ss)) (count a (names_by input_name all))
        (count a (names_by output_name all)) (count a (names_by middle_name all))

  IsOwed-all :
      (os : List Operator)
      → All (λ o. IsConnected o.type (count o.name (sources_in ss)) (count o.name (sinks_in ss))) os
      → All (HasTwo ss) os
      → All (λ o. is_input o.type ≡ true → count o.name (sinks_in ss) ≡ 0) os
      → All (CountsAlone input_name input_name-IsOwn all) os
      → All (CountsAlone output_name output_name-IsOwn all) os
      → All (CountsAlone middle_name middle_name-IsOwn all) os
      → All (λ o. IsOwed o.name) os
  IsOwed-all [] c two none_in i o m = tt
  IsOwed-all (x ∷ os) (c, cs) (two, twos) (n, ns) (i, is) (o, os_out) (m, ms) =
      (Owes-by_type x.name x.type _ _ _ _ _ c two n i o m, IsOwed-all os cs twos ns is os_out ms)

by_name :
    (P : String → Type 0) (os : List Operator) (a : String)
    → contains (names_of os) a ≡ true
    → All (λ o. P o.name) os
    → P a
by_name P [] a h k = cc
by_name P (o ∷ os) a h (p, k) = elim (Bool-cases (o.name == a)) [
  | inl e ↦ subst P ((eq_iff o.name a).0 e) p
  | inr e ↦ by_name P os a (ground arith) k
]

own_types : (os : List Operator) → All (λ o. HasType os o.name o.type) os
own_types [] = tt
own_types (o ∷ os) = (inl (refl, refl), All_mono (λ p h. inr h) os (own_types os))

module _ (os : List Operator) (ss : List Stream) (b : IsBuildable os ss)
    (two : All (HasTwo ss) os) where
  no_sink_input :
      (o : Operator)
      → HasType os o.name o.type
      → is_input o.type ≡ true
      → count o.name (sinks_in ss) ≡ 0
  no_sink_input o has e =
      sinks_in-count os o.name
        (λ from to h fit.
          let same : to ≡ o.type = HasType-unique os o.name to o.type b.distinct h has in
          no_connection_to_input from to (subst (λ t. is_input t ≡ true) (sym same) e) fit)
        ss b.joined

  pub IsOwed-start : (a : String) → IsOwed os ss a
  IsOwed-start a = elim (Bool-cases (contains (names_of os) a)) [
    | inl known ↦ by_name (IsOwed os ss) os a known (
        IsOwed-all os ss os b.connected two (All_mono no_sink_input os (own_types os))
          (counts_alone input_name input_name-IsOwn os b.distinct)
          (counts_alone output_name output_name-IsOwn os b.distinct)
          (counts_alone middle_name middle_name-IsOwn os b.distinct))
    | inr new ↦ inl (
      sinks_in-count os a (λ from to h fit. absent_name os a to new h) ss b.joined,
      ground (arith, count-absent input_name input_name-IsOwn os a new),
      count-absent output_name output_name-IsOwn os a new,
      count-absent middle_name middle_name-IsOwn os a new,
    )
  ]
