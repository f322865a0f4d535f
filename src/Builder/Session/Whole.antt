-- ===== src/Builder/Session/Whole.antt =====
-- A canvas that is in order stays so behind `update`, which may set the flags of forms and nothing else
-- of the operators.
use de_pipeline_tool.Prelude.{
  String, true, false, List, [], ◌∷◌, ◌++◌, Option, none, some, ◌≡◌, refl, sym, subst, ap, ◌∙◌,
  arith, or_nil, All, All_mono, append_assoc, append-nil, inl, inr, Bool-cases, Option-cases,
  List-cases, Outcome, done, thrown,
}
use de_pipeline_tool.Builder.Model.{Operator, Form, Property, Connection, Source, Scope}
use de_pipeline_tool.Builder.Forms.{validate_state, parse_invalid_text}
use de_pipeline_tool.Builder.Forms.Ready.{IsReady, Covers}
use de_pipeline_tool.Builder.Scan.{
  Scan, start, name_complaints, scan_invalid, scan_form, scan_name, scan_type, scan_flags,
  scan_operators,
}
use de_pipeline_tool.Builder.Scan.Lists.{scan_operator-eq-done, scan_operators-eq-done}
use de_pipeline_tool.Builder.Check.{judge_operators, validate_all}
use de_pipeline_tool.Builder.Session.{cache, update}
use de_pipeline_tool.Builder.Session.Saving.{update-IsUpdated}
use de_pipeline_tool.Builder.Session.Returns.{LeadsTo, AllSources, IsWhole, update-done}

abbrev unflagged : Option Form → Option Form
unflagged none = none
unflagged (some f) = some (record f { invalid = false })

-- The operator without the flag of its form.
abbrev pub plain : Operator → Operator
plain o = record o { form = unflagged o.form }

abbrev pub plain_all : List Operator → List Operator
plain_all [] = []
plain_all (o ∷ os) = plain o ∷ plain_all os

plain_all-append : (xs ys : List Operator) → plain_all (xs ++ ys) ≡ plain_all xs ++ plain_all ys
plain_all-append [] ys = refl
plain_all-append (x ∷ xs) ys = ap (λ l. plain x ∷ l) (plain_all-append xs ys)

validate_state-flag :
    (f g : Form) (ps : List Property) (keys : List String)
    → validate_state f ps ≡ done (g, keys)
    → record g { invalid = false } ≡ record f { invalid = false }
unfolding validate_state
validate_state-flag f g ps keys h = ground arith

-- The object that the loop keeps for an operator.
kept_object :
    (o : Operator) (w w' : Scan)
    → scan_form o w ≡ done w'
    → (o' : Operator) × (w'.objects ≡ w.objects ++ o' ∷ []) × (plain o' ≡ plain o)
unfolding scan_form scan_invalid
kept_object o w w' h = elim (Option-cases o.form) [
  | inl e ↦ (o, ground arith, refl)
  | inr (f, e) ↦ elim (Bool-cases f.invalid) [
    | inr valid ↦ (o, ground arith, refl)
    | inl invalid ↦ judged_object f e invalid (validate_state f o.properties) refl
  ]
]
  where
    judged_object :
        (f : Form)
        → o.form ≡ some f
        → f.invalid ≡ true
        → (r : Outcome (Form × List String)) → validate_state f o.properties ≡ r
        → (o' : Operator) × (w'.objects ≡ w.objects ++ o' ∷ []) × (plain o' ≡ plain o)
    judged_object f e invalid (thrown r) k = absurd (ground (arith, k))
    judged_object f e invalid (done (g, keys)) k = (
      record o { form = some g },
      ground (arith, k),
      ground (arith, validate_state-flag f g o.properties keys k),
    )

scan_form-plain :
    (o : Operator) (w w' : Scan)
    → scan_form o w ≡ done w'
    → plain_all w'.objects ≡ plain_all w.objects ++ plain o ∷ []
scan_form-plain o w w' h =
    let (o', e, f) = kept_object o w w' h in
    ap plain_all e
    ∙ plain_all-append w.objects (o' ∷ [])
    ∙ ap (λ x. plain_all w.objects ++ x ∷ []) f

scan_rest-objects :
    (o : Operator) (w : Scan)
    → (scan_flags o.type (scan_type o.name o.type (scan_name o w))).objects ≡ w.objects
unfolding scan_name scan_type scan_flags
scan_rest-objects o w = ground arith

scan_operators-plain :
    (os : List Operator) (w w' : Scan)
    → scan_operators os w ≡ done w'
    → plain_all w'.objects ≡ plain_all w.objects ++ plain_all os
unfolding scan_operators
scan_operators-plain [] w w' h = ground (arith, append-nil (plain_all w.objects))
scan_operators-plain (o ∷ os) w w' h =
    let (w₁, first, rest) = scan_operators-eq-done o os w w' h in
    let (w₂, formed, e) = scan_operator-eq-done o w w₁ first in
    let a = scan_form-plain o w w₂ formed in
    let b : w₁.objects ≡ w₂.objects = rw e (scan_rest-objects o w₂) in
    scan_operators-plain os w₁ w' rest
    ∙ rw (b, a) (append_assoc (plain_all w.objects) (plain o ∷ []) (plain_all os))

judge_operators-objects :
    (s s' : Scope) (r : Outcome Scan)
    → judge_operators s r ≡ done s'
    → (w : Scan) × (r ≡ done w) × (s'.state_objects ≡ w.objects)
unfolding judge_operators
judge_operators-objects s s' (thrown w) h = cc
judge_operators-objects s s' (done w) h = (w, refl, ground arith)

pub validate_all-plain :
    (s s' : Scope)
    → validate_all s ≡ done s'
    → plain_all s'.state_objects ≡ plain_all s.state_objects
unfolding validate_all
validate_all-plain s s' h = elim (List-cases s.state_objects) [
  | inl e ↦ ground arith
  | inr (o, os, e) ↦
      let (w, scanned, f) =
        judge_operators-objects s s' (scan_operators (o ∷ os) (start (name_complaints s)))
          (ground arith) in
      ap plain_all f
      ∙ scan_operators-plain (o ∷ os) (start (name_complaints s)) w scanned
      ∙ ap plain_all (sym e)
]

IsReady-plain : (o : Operator) → IsReady o → IsReady (plain o)
IsReady-plain o r = record {
  validated = r.validated;
  covered = λ g e. elim (Option-cases o.form) [
    | inl none_there ↦ cc
    | inr (f, there) ↦
        let same : g.fields ≡ f.fields = ground (arith, e) in
        subst (λ fs. All (Covers fs) o.properties) (sym same) (r.covered f there)
  ];
}

IsReady-of_plain : (o : Operator) → IsReady (plain o) → IsReady o
IsReady-of_plain o r = record {
  validated = r.validated;
  covered = λ f e. r.covered (record f { invalid = false }) (ap unflagged e);
}

All-plain :
    (P Q : Operator → Type 0)
    → ((o : Operator) → P o → Q (plain o))
    → (os : List Operator) → All P os
    → All Q (plain_all os)
All-plain P Q k [] h = tt
All-plain P Q k (o ∷ os) (p, h) = (k o p, All-plain P Q k os h)

All-of_plain :
    (P Q : Operator → Type 0)
    → ((o : Operator) → P (plain o) → Q o)
    → (os : List Operator) → All P (plain_all os)
    → All Q os
All-of_plain P Q k [] h = tt
All-of_plain P Q k (o ∷ os) (p, h) = (k o p, All-of_plain P Q k os h)

LeadsTo-plain : (os : List Operator) (c : Connection) → LeadsTo os c → LeadsTo (plain_all os) c
LeadsTo-plain [] c h = absurd h
LeadsTo-plain (o ∷ os) c (inl here) = inl here
LeadsTo-plain (o ∷ os) c (inr later) = inr (LeadsTo-plain os c later)

LeadsTo-of_plain : (os : List Operator) (c : Connection) → LeadsTo (plain_all os) c → LeadsTo os c
LeadsTo-of_plain [] c h = absurd h
LeadsTo-of_plain (o ∷ os) c (inl here) = inl here
LeadsTo-of_plain (o ∷ os) c (inr later) = inr (LeadsTo-of_plain os c later)

pub AllSources_mono :
    {P Q : Connection → Type 0}
    → ((c : Connection) → P c → Q c)
    → (ss : List Source) → AllSources P ss
    → AllSources Q ss
AllSources_mono k [] h = tt
AllSources_mono k (x ∷ ss) (p, h) = (All_mono k (or_nil x.connections []) p, AllSources_mono k ss h)

-- Whether a canvas is in order does not depend on the flags of forms.
pub IsWhole-same :
    (os os' : List Operator) → plain_all os' ≡ plain_all os → IsWhole os → IsWhole os'
IsWhole-same os os' e h =
    let ready = subst (All IsReady) (sym e) (All-plain IsReady IsReady IsReady-plain os h.ready) in
    let wired =
      All-plain (λ o. AllSources (LeadsTo os) (or_nil o.sources []))
        (λ o. AllSources (LeadsTo (plain_all os)) (or_nil o.sources []))
        (λ o w. AllSources_mono (LeadsTo-plain os) (or_nil o.sources []) w) os h.wired in
    let wired' =
      subst (λ l. All (λ o. AllSources (LeadsTo l) (or_nil o.sources [])) l) (sym e) wired in
    record {
      ready = All-of_plain IsReady IsReady IsReady-of_plain os' ready;
      wired =
          All-of_plain (λ o. AllSources (LeadsTo (plain_all os')) (or_nil o.sources []))
            (λ o. AllSources (LeadsTo os') (or_nil o.sources []))
            (λ o w. AllSources_mono (LeadsTo-of_plain os') (or_nil o.sources []) w) os' wired';
    }

update-plain :
    (s s' : Scope) → update s ≡ done s' → plain_all s'.state_objects ≡ plain_all s.state_objects
unfolding parse_invalid_text cache
update-plain s s' h =
    let u = update-IsUpdated s s' h in
    ap (λ (t : Scope). plain_all t.state_objects) u.worded
    ∙ validate_all-plain u.written u.verdict u.judged
    ∙ ap plain_all u.rewritten.same.objects

-- On operators that are ready, whose connections all lead to operators on the canvas, `update` throws
-- nothing; it changes at most the flags of forms, and the canvas stays in order.
pub update-IsWhole :
    (s : Scope)
    → IsWhole s.state_objects
    → (s' : Scope) × (update s ≡ done s')
      × (plain_all s'.state_objects ≡ plain_all s.state_objects)
      × IsWhole s'.state_objects
update-IsWhole s h =
    let (s', e) = update-done s h in
    let same = update-plain s s' e in
    (s', e, same, IsWhole-same s.state_objects s'.state_objects same h)
