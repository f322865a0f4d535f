-- ===== src/Builder/Check/Sound.antt =====
-- `validateAll` finds nothing to complain of only in a system that obeys the rules.
use de_pipeline_tool.Prelude.{
  String, true, false, List, [], ◌∷◌, ◌++◌, Option, none, some, ◌≡◌, refl, sym, subst, ◌∙◌,
  List-cases, Outcome, done, thrown, arith, count, snoc-ne-nil, All, inl, inr, ◌⊎◌, All_mono,
}
use de_pipeline_tool.Builder.Model.{Operator, Complaint, message, Stream, Descriptor, Scope}
use de_pipeline_tool.Builder.Forms.{is_nonempty}
use de_pipeline_tool.Builder.Scan.{
  Scan, is_system_name, is_taken, name_complaints, scan_operators, start,
}
use de_pipeline_tool.Builder.Scan.Lists.{
  input_name, output_name, middle_name, names_by, scan_operators-Collects,
}
use de_pipeline_tool.Builder.Scan.Clean.{IsClean, scan_operators-IsClean}
use de_pipeline_tool.Builder.Check.{
  Uses, missing_complaints, uses_of, check_streams, finish_uses, check_system, check_end, judged,
  judge_operators, validate_all,
}
use de_pipeline_tool.Builder.Check.Balance.{
  Spends, StreamFits, sources_in, sinks_in, check_streams-StreamsPass,
}
use de_pipeline_tool.Builder.Check.Rules.{
  IsConnected, Joins, IsBuildable, input_name-IsOwn, output_name-IsOwn, middle_name-IsOwn,
  CountsAlone, counts_alone, finish_uses_clean, IsConnected-of,
}

IsConnected-all :
    (all : List Operator) (ss : List Stream) (u u' : Uses)
    → ((a : String) → Spends a (count a (sources_in ss)) (count a (sinks_in ss)) u u')
    → (u'.inputs ≡ []) × (u'.outputs ≡ []) × (u'.middle ≡ [])
    → (u.inputs ≡ names_by input_name all)
      × (u.outputs ≡ names_by output_name all)
      × (u.middle ≡ names_by middle_name all)
    → (os : List Operator) → All (CountsAlone input_name input_name-IsOwn all) os
    → All (CountsAlone output_name output_name-IsOwn all) os
    → All (CountsAlone middle_name middle_name-IsOwn all) os
    → All (λ o. IsConnected o.type (count o.name (sources_in ss)) (count o.name (sinks_in ss))) os
IsConnected-all all ss u u' p e lists [] i o m = tt
IsConnected-all all ss u u' p e lists (x ∷ os) (i, is) (o, os_out) (m, ms) = (
  IsConnected-of x.name x.type (count x.name (sources_in ss)) (count x.name (sinks_in ss)) u u'
      (p x.name) e (rw lists.0 i) (rw lists.1 o) (rw lists.2 m),
  IsConnected-all all ss u u' p e lists os is os_out ms,
)

-- The table of operators gives the types.
joined_of :
    (os : List Operator) (w : Scan)
    → IsClean os w
    → (s : Stream) → StreamFits w.table s
    → Joins os s
joined_of os w c s (from, found, fits) = (
  from.type,
  c.typed s.source from found,
  All_mono (λ sink (to, at, fit). (to.type, c.typed sink to at, fit)) s.sinks fits,
)

missing_clean :
    (w : Scan)
    → missing_complaints w ≡ []
    → (w.no_input ≡ false)
      × ((w.no_parser ≡ false) ⊎ (w.has_binary_input ≡ true))
      × (w.no_output ≡ false)
unfolding missing_complaints
missing_clean w h = ground arith

append-eq-nil {ℓ} : {A : Type ℓ} (xs ys : List A) → xs ++ ys ≡ [] → (xs ≡ []) × (ys ≡ [])
append-eq-nil [] ys h = (refl, h)
append-eq-nil (x ∷ xs) ys h = cc

-- From the parts of a run that complains of nothing.
IsBuildable-of :
    (os : List Operator) (cs : List Complaint) (ss : List Stream) (w : Scan) (u : Uses)
    → scan_operators os (start cs) ≡ done w
    → check_streams w.table ss (uses_of w) ≡ done u
    → finish_uses u ≡ []
    → (cs ≡ []) × (w.objects ≡ os) × IsBuildable os ss
IsBuildable-of os cs ss w u scanned checked h =
    let (no_more, inputs, outputs, middle) = finish_uses_clean u h in
    let pass = check_streams-StreamsPass w.table ss (uses_of w) u checked no_more in
    let (none_before, present) =
      append-eq-nil w.invalid (missing_complaints w) (pass.spends "").before in
    let (started, c) = scan_operators-IsClean os cs w scanned none_before in
    let lists = scan_operators-Collects os (start cs) w scanned in
    let missing = missing_clean w present in
    (
      started,
      c.unchanged,
      record {
        formed = c.formed;
        distinct = c.distinct;
        has_input = ground arith;
        has_parser = ground arith;
        has_output = ground arith;
        connected =
            IsConnected-all os ss (uses_of w) u pass.spends (inputs, outputs, middle)
              (lists.inputs, lists.outputs, lists.middle) os
              (counts_alone input_name input_name-IsOwn os c.distinct)
              (counts_alone output_name output_name-IsOwn os c.distinct)
              (counts_alone middle_name middle_name-IsOwn os c.distinct);
        joined = All_mono (joined_of os w c) ss pass.fits;
      },
    )

check_system-eq-done :
    (w : Scan) (d : Option Descriptor) (cs : List Complaint)
    → check_system w d ≡ done cs
    → (given : Descriptor) × (u : Uses) × (d ≡ some given)
      × (check_streams w.table given.streams (uses_of w) ≡ done u)
      × (finish_uses u ≡ cs)
unfolding check_system
check_system-eq-done w none cs h = cc
check_system-eq-done w (some d) cs h =
    go (check_streams w.table d.streams (uses_of w)) refl (ground arith)
  where
    go :
        (r : Outcome Uses)
        → check_streams w.table d.streams (uses_of w) ≡ r
        → check_end r ≡ done cs
        → (given : Descriptor) × (u : Uses) × (some d ≡ some given)
          × (check_streams w.table given.streams (uses_of w) ≡ done u)
          × (finish_uses u ≡ cs)
    go (thrown u) e k = cc
    go (done u) e k = (d, u, refl, e, cc)

name_complaints_clean :
    (s : Scope)
    → name_complaints s ≡ []
    → (is_system_name s.system_name ≡ true)
      × (is_taken s.system_names_ids s.system_name s.id ≡ false)
unfolding name_complaints
name_complaints_clean s h = ground arith

is_nonempty-false {ℓ} : {A : Type ℓ} (xs : List A) → is_nonempty xs ≡ false → xs ≡ []
is_nonempty-false [] h = refl
is_nonempty-false (x ∷ xs) h = cc

-- What the verdict "valid" says of the scope that was judged.
pub record IsAccepted (s s' : Scope) : Type 0 where
  pub descriptor : Descriptor
  pub read : s.descriptor ≡ some descriptor
  pub well_named : is_system_name s.system_name ≡ true
  pub unclaimed : is_taken s.system_names_ids s.system_name s.id ≡ false
  pub unchanged : s'.state_objects ≡ s.state_objects
  pub buildable : IsBuildable s.state_objects descriptor.streams

judged-eq-done :
    (s s' : Scope) (w : Scan)
    → judge_operators s (done w) ≡ done s'
    → (cs : List Complaint) × (check_system w s.descriptor ≡ done cs) × (s' ≡ judged s w.objects cs)
unfolding judge_operators
judged-eq-done s s' w h = ground arith

judge_operators-IsAccepted :
    (s s' : Scope) (os : List Operator) (r : Outcome Scan)
    → s.state_objects ≡ os
    → scan_operators os (start (name_complaints s)) ≡ r
    → judge_operators s r ≡ done s'
    → s'.build_invalid ≡ false
    → IsAccepted s s'
unfolding judge_operators
judge_operators-IsAccepted s s' os (thrown w) same scanned h k = cc
judge_operators-IsAccepted s s' os (done w) same scanned h k =
    let (cs, judged_by, e) = judged-eq-done s s' w h in
    let (d, u, read, checked, ended) = check_system-eq-done w s.descriptor cs judged_by in
    let clean = is_nonempty-false cs (ground arith) in
    let (named, objects, b) =
      IsBuildable-of os (name_complaints s) d.streams w u scanned checked (ended ∙ clean) in
    let (well, free) = name_complaints_clean s named in
    record {
      descriptor = d;
      read = read;
      well_named = well;
      unclaimed = free;
      unchanged = ground arith;
      buildable = subst (λ l. IsBuildable l d.streams) (sym same) b;
    }

-- When `validateAll` returns and leaves `buildInvalid` false, the system's name is well formed and
-- belongs to no other system, no operator was changed, every form is valid, the operators' names are
-- distinct, there are an input, an output, and a parser or a binary input, every stream joins types
-- that may be connected, every input gives a stream, every output takes exactly one, and every other
-- operator gives and takes two or more in all and takes at most two.
pub validate_all-IsAccepted :
    (s s' : Scope) → validate_all s ≡ done s' → s'.build_invalid ≡ false → IsAccepted s s'
unfolding validate_all
validate_all-IsAccepted s s' h k = elim (List-cases s.state_objects) [
  | inl none_there ↦
      absurd (ground (arith, snoc-ne-nil (name_complaints s) (message "No operators are present")))
  | inr (o, os, some_there) ↦
      judge_operators-IsAccepted s s' (o ∷ os) (scan_operators (o ∷ os) (start (name_complaints s)))
        some_there refl (ground arith) k
]
