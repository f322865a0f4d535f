-- ===== src/Builder/Check/Complete.antt =====
-- `validateAll` accepts every system that obeys the rules, where the operators between inputs and outputs have
-- two connections each.
use de_pipeline_tool.Prelude.{
  String, true, false, List, [], ◌∷◌, some, ◌≡◌, refl, ap, ◌∙◌, subst, ◌↔◌, inl, inr, arith, count,
  All, All_mono, IsDistinct, Option-cases, done,
}
use de_pipeline_tool.Builder.Model.{OperatorType, Operator, Stream, Descriptor, Scope, lookup}
use de_pipeline_tool.Builder.Scan.{
  Scan, Entry, is_system_name, is_taken, name_complaints, scan_operators, start,
}
use de_pipeline_tool.Builder.Scan.Lists.{Collects, scan_operators-Collects}
use de_pipeline_tool.Builder.Scan.Clean.{names_of, HasType, IsClean, scan_operators-IsClean}
use de_pipeline_tool.Builder.Scan.Keys.{HasKey, scan_operators-HasKey}
use de_pipeline_tool.Builder.Scan.Passes.{scan_operators-passes}
use de_pipeline_tool.Builder.Check.{
  Uses, missing_complaints, uses_of, can_connect, finish_uses, check_system, judged,
  judge_operators, validate_all,
}
use de_pipeline_tool.Builder.Check.Balance.{StreamFits, sources_in, sinks_in}
use de_pipeline_tool.Builder.Check.Owing.{OwesOf, check_streams-passes}
use de_pipeline_tool.Builder.Check.Start.{HasTwo, HasType-unique, IsOwed-start}
use de_pipeline_tool.Builder.Check.Rules.{Joins, IsBuildable}
use de_pipeline_tool.Builder.Check.Returns.{start-IsKeyed}
use de_pipeline_tool.Builder.Check.Sound.{validate_all-IsAccepted}

-- The table has an entry of its type for every name of an operator.
key_of :
    (table : List (String × Entry)) (os : List Operator) (name : String) (t : OperatorType)
    → All (λ o. HasKey table o.name) os
    → HasType os name t
    → HasKey table name
key_of table [] name t h k = absurd k
key_of table (o ∷ os) name t (p, h) (inl (e, _)) = subst (HasKey table) e p
key_of table (o ∷ os) name t (p, h) (inr later) = key_of table os name t h later

entry_typed :
    (os : List Operator) (w : Scan)
    → IsDistinct (names_of os)
    → IsClean os w
    → All (λ o. HasKey w.table o.name) os
    → (name : String) (t : OperatorType) → HasType os name t
    → (e : Entry) × (lookup name w.table ≡ some e) × (e.type ≡ t)
entry_typed os w d c keys name t h = elim (Option-cases (lookup name w.table)) [
  | inl e ↦ absurd (ground (arith, key_of w.table os name t keys h, e))
  | inr (e, found) ↦ (e, found, HasType-unique os name e.type t d (c.typed name e found) h)
]

StreamFits-of :
    (os : List Operator) (w : Scan)
    → IsDistinct (names_of os)
    → IsClean os w
    → All (λ o. HasKey w.table o.name) os
    → (s : Stream) → Joins os s
    → StreamFits w.table s
StreamFits-of os w d c keys s (from, has, sinks) =
    let (e, found, same) = entry_typed os w d c keys s.source from has in
    (
      e,
      found,
      All_mono
          (λ sink (to, at, fit).
            let (x, there, alike) = entry_typed os w d c keys sink to at in
            let fits : can_connect e.type x.type ≡ true = rw (same, alike) fit in (x, there, fits))
          s.sinks sinks,
    )

missing-nothing :
    (os : List Operator) (w : Scan) (ss : List Stream)
    → IsBuildable os ss
    → Collects (start []) w os
    → missing_complaints w ≡ []
unfolding missing_complaints
missing-nothing os w ss b c = ground (
  arith, b.has_input, b.has_parser, b.has_output, c.no_input, c.no_output, c.no_parser,
  c.has_binary_input,
)

finish_uses-quiet :
    (u : Uses)
    → (u.invalid ≡ []) × (u.inputs ≡ []) × (u.outputs ≡ []) × (u.middle ≡ [])
    → finish_uses u ≡ []
unfolding finish_uses
finish_uses-quiet u (i, a, b, c) = rw (i, a, b, c) refl

-- The two loops complain of nothing.
check_system-accepts :
    (os : List Operator) (d : Descriptor)
    → IsBuildable os d.streams
    → All (HasTwo d.streams) os
    → (w : Scan) × (scan_operators os (start []) ≡ done w) × (check_system w (some d) ≡ done [])
unfolding check_system
check_system-accepts os d b two =
    let (w, scanned, quiet) = scan_operators-passes os (start []) b.formed b.distinct refl in
    let (_, clean) = scan_operators-IsClean os [] w scanned quiet in
    let lists = scan_operators-Collects os (start []) w scanned in
    let keys = (scan_operators-HasKey os (start []) w (start-IsKeyed []) scanned).1 in
    let fits = All_mono (StreamFits-of os w b.distinct clean keys) d.streams b.joined in
    let none_missing = missing-nothing os w d.streams b lists in
    let said : (uses_of w).invalid ≡ [] = rw (quiet, none_missing) refl in
    let owed : (a : String)
        → OwesOf a (count a (sources_in d.streams)) (count a (sinks_in d.streams)) (uses_of w) =
      λ a. rw (lists.inputs, lists.outputs, lists.middle) (IsOwed-start os d.streams b two a) in
    let (u, run, i, a, b', c) = check_streams-passes w.table d.streams (uses_of w) said fits owed in
    (w, scanned, rw run (ap done (finish_uses-quiet u (i, a, b', c))))

name_complaints-none :
    (s : Scope)
    → is_system_name s.system_name ≡ true
    → is_taken s.system_names_ids s.system_name s.id ≡ false
    → name_complaints s ≡ []
unfolding name_complaints
name_complaints-none s well free = rw (well, free) refl

judge_operators-accepts :
    (s : Scope) (w : Scan)
    → check_system w s.descriptor ≡ done []
    → judge_operators s (done w) ≡ done (judged s w.objects [])
unfolding judge_operators
judge_operators-accepts s w h = rw (h, judge_operators) refl

-- The rules for a scope.
pub record IsInOrder (s : Scope) (d : Descriptor) : Type 0 where
  pub well_named : is_system_name s.system_name ≡ true
  pub unclaimed : is_taken s.system_names_ids s.system_name s.id ≡ false
  pub buildable : IsBuildable s.state_objects d.streams

accepted :
    (s : Scope) (d : Descriptor) (os : List Operator)
    → s.state_objects ≡ os
    → s.descriptor ≡ some d
    → All (HasTwo d.streams) os
    → is_system_name s.system_name ≡ true
    → is_taken s.system_names_ids s.system_name s.id ≡ false
    → IsBuildable os d.streams
    → (s' : Scope) × (validate_all s ≡ done s') × (s'.build_invalid ≡ false)
unfolding validate_all
accepted s d [] there read two well free b = absurd (ground (arith, b.has_input))
accepted s d (o ∷ os) there read two well free b =
    let (w, scanned, ended) = check_system-accepts (o ∷ os) d b two in
    let run : judge_operators s (scan_operators (o ∷ os) (start (name_complaints s)))
        ≡ done (judged s w.objects []) =
      ap (λ cs. judge_operators s (scan_operators (o ∷ os) (start cs)))
        (name_complaints-none s well free)
      ∙ ap (judge_operators s) scanned
      ∙ judge_operators-accepts s w (ap (check_system w) read ∙ ended) in
    (judged s w.objects [], rw (there, validate_all) run, refl)

-- Where every operator that is neither input nor output gives and takes two streams in all, `validateAll`
-- returns with `buildInvalid` false exactly if the system obeys the rules.
pub validate_all-IsInOrder :
    (s : Scope) (d : Descriptor)
    → s.descriptor ≡ some d
    → All (HasTwo d.streams) s.state_objects
    → ((s' : Scope) × (validate_all s ≡ done s') × (s'.build_invalid ≡ false)) ↔ IsInOrder s d
validate_all-IsInOrder s d read two = (
  λ h.
      let (s', run, valid) = h in
      let a = validate_all-IsAccepted s s' run valid in
      let same : a.descriptor ≡ d = cc (a.read, read) in
      record {
        well_named = a.well_named;
        unclaimed = a.unclaimed;
        buildable =
            subst (λ (e : Descriptor). IsBuildable s.state_objects e.streams) same a.buildable;
      },
  λ r. accepted s d s.state_objects refl read two r.well_named r.unclaimed r.buildable,
)
