-- ===== src/Builder/Check/Returns.antt =====
-- `validateAll` throws nothing where the operators are ready and the streams join operators on the
-- canvas.
use de_pipeline_tool.Prelude.{
  String, true, List, [], ◌∷◌, some, ◌≡◌, refl, sym, subst, arith, All, All_mono, Any, inl, inr,
  Option-cases, List-cases, Outcome, done, is_done, is_done-eq-done,
}
use de_pipeline_tool.Builder.Model.{
  OperatorType, Operator, Complaint, Stream, Descriptor, Scope, lookup,
}
use de_pipeline_tool.Builder.Forms.Ready.{IsReady}
use de_pipeline_tool.Builder.Scan.{Scan, Entry, name_complaints, scan_operators, start}
use de_pipeline_tool.Builder.Scan.Keys.{
  HasKey, IsKeyed, scan_operators-HasKey, scan_operators-is_done,
}
use de_pipeline_tool.Builder.Check.{
  Uses, uses_of, check_sinks, check_stream, check_streams, check_system, judge_operators,
  validate_all,
}

-- The name is that of an operator.
abbrev pub IsNamed : List Operator → String → Type 0
IsNamed os name = Any (λ o. name ≡ o.name) os

-- The stream leads from an operator to operators.
pub record Links (os : List Operator) (t : Stream) : Type 0 where
  pub source : IsNamed os t.source
  pub sinks : All (IsNamed os) t.sinks

HasKey-IsNamed :
    (table : List (String × Entry)) (os : List Operator) (name : String)
    → All (λ o. HasKey table o.name) os
    → IsNamed os name
    → HasKey table name
HasKey-IsNamed table [] name h k = absurd k
HasKey-IsNamed table (o ∷ os) name (p, h) (inl e) = rw e p
HasKey-IsNamed table (o ∷ os) name (p, h) (inr later) = HasKey-IsNamed table os name h later

check_sinks-is_done :
    (table : List (String × Entry)) (source : String) (from : OperatorType) (sinks : List String)
    (u : Uses)
    → All (HasKey table) sinks
    → is_done (check_sinks table source from sinks u) ≡ true
unfolding check_sinks
check_sinks-is_done table source from [] u h = refl
check_sinks-is_done table source from (sink ∷ sinks) u (k, h) =
    elim (Option-cases (lookup sink table)) [
      | inl e ↦ ground (arith, k)
      | inr (t, e) ↦ rw (e, check_sinks) (check_sinks-is_done table source from sinks _ h)
    ]

check_stream-is_done :
    (table : List (String × Entry)) (os : List Operator) (t : Stream) (u : Uses)
    → All (λ o. HasKey table o.name) os
    → Links os t
    → is_done (check_stream table t u) ≡ true
unfolding check_stream
check_stream-is_done table os t u h j =
    let k = HasKey-IsNamed table os t.source h j.source in
    elim (Option-cases (lookup t.source table)) [
      | inl e ↦ ground (arith, k)
      | inr (x, e) ↦
          rw (e, check_stream)
            (check_sinks-is_done table t.source x.type t.sinks _
              (All_mono (λ name n. HasKey-IsNamed table os name h n) t.sinks j.sinks))
    ]

check_streams-is_done :
    (table : List (String × Entry)) (os : List Operator) (ts : List Stream) (u : Uses)
    → All (λ o. HasKey table o.name) os
    → All (Links os) ts
    → is_done (check_streams table ts u) ≡ true
unfolding check_streams
check_streams-is_done table os [] u h k = refl
check_streams-is_done table os (t ∷ ts) u h (j, k) =
    let (u', e) = is_done-eq-done _ (check_stream-is_done table os t u h j) in
    rw (e, check_streams) (check_streams-is_done table os ts u' h k)

check_system-is_done :
    (w : Scan) (os : List Operator) (d : Descriptor)
    → All (λ o. HasKey w.table o.name) os
    → All (Links os) d.streams
    → is_done (check_system w (some d)) ≡ true
unfolding check_system
check_system-is_done w os d h k =
    let (u, e) = is_done-eq-done _ (check_streams-is_done w.table os d.streams (uses_of w) h k) in
    rw e refl

pub start-IsKeyed : (cs : List Complaint) → IsKeyed (start cs)
unfolding IsKeyed
start-IsKeyed cs = λ a h. cc

judge_operators-is_done :
    (s : Scope) (r : Outcome Scan) (w : Scan)
    → r ≡ done w
    → is_done (check_system w s.descriptor) ≡ true
    → is_done (judge_operators s r) ≡ true
unfolding judge_operators
judge_operators-is_done s r w e h = rw e (ground (arith, h))

judge-is_done :
    (s : Scope) (os : List Operator) (d : Descriptor)
    → s.descriptor ≡ some d
    → All IsReady os
    → All (Links os) d.streams
    → is_done (judge_operators s (scan_operators os (start (name_complaints s)))) ≡ true
judge-is_done s os d e ready joins =
    let (w, scanned) =
      is_done-eq-done _ (scan_operators-is_done os (start (name_complaints s)) ready) in
    let keys = (scan_operators-HasKey os _ w (start-IsKeyed (name_complaints s)) scanned).1 in
    judge_operators-is_done s _ w scanned (
      subst (λ o. is_done (check_system w o) ≡ true) (sym e)
        (check_system-is_done w os d keys joins))

pub validate_all-is_done :
    (s : Scope) (d : Descriptor)
    → s.descriptor ≡ some d
    → All IsReady s.state_objects
    → All (Links s.state_objects) d.streams
    → is_done (validate_all s) ≡ true
unfolding validate_all
validate_all-is_done s d e ready joins = elim (List-cases s.state_objects) [
  | inl f ↦ rw f refl
  | inr (o, os, f) ↦ rw f (
      judge-is_done (record s { state_objects = o ∷ os }) (o ∷ os) d e (subst (All IsReady) f ready)
        (subst (λ l. All (Links l) d.streams) f joins))
]
