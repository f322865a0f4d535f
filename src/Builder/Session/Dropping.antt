-- ===== src/Builder/Session/Dropping.antt =====
-- Dropping an operator onto a canvas that is in order throws nothing, and leaves it in order.
use de_pipeline_tool.Prelude.{
  ℕ, String, true, false, List, [], ◌∷◌, ◌++◌, Option, none, some, ◌≡◌, refl, sym, subst, ap, ◌∙◌,
  arith, or_nil, All, All_mono, All-append, is_some, inl, inr, Bool-cases, Option-cases, Outcome,
  done, thrown, ◌then_run◌, is_done-eq-done,
}
use de_pipeline_tool.Builder.Model.{
  Operator, Property, Field, Storage, Connection, Descriptor, Scope,
}
use de_pipeline_tool.Builder.Json.{update_json}
use de_pipeline_tool.Builder.Json.Returns.{update_json-is_done}
use de_pipeline_tool.Builder.Forms.Ready.{IsReady}
use de_pipeline_tool.Builder.Scan.{is_input, is_output}
use de_pipeline_tool.Builder.Check.{validate_all}
use de_pipeline_tool.Builder.Check.Returns.{validate_all-is_done}
use de_pipeline_tool.Builder.Canvas.{
  drop_properties, with_endpoints, dropped, add_operator, drop, next_uuid,
}
use de_pipeline_tool.Builder.Canvas.Dropping.{Dressed, drop_properties-Dressed}
use de_pipeline_tool.Builder.Session.Saving.{finish_json-eq-done}
use de_pipeline_tool.Builder.Session.Returns.{LeadsTo, AllSources, IsWhole}
use de_pipeline_tool.Builder.Session.Whole.{AllSources_mono, validate_all-plain, IsWhole-same}

LeadsTo-append :
    (os : List Operator) (o : Operator) (c : Connection) → LeadsTo os c → LeadsTo (os ++ o ∷ []) c
LeadsTo-append [] o c h = absurd h
LeadsTo-append (x ∷ os) o c (inl here) = inl here
LeadsTo-append (x ∷ os) o c (inr later) = inr (LeadsTo-append os o c later)

IsWhole-snoc :
    (os : List Operator) (o : Operator)
    → IsWhole os
    → IsReady o
    → AllSources (LeadsTo os) (or_nil o.sources [])
    → IsWhole (os ++ o ∷ [])
IsWhole-snoc os o h r w =
    let more = λ (x : Operator) (k : AllSources (LeadsTo os) (or_nil x.sources [])).
      AllSources_mono (LeadsTo-append os o) (or_nil x.sources []) k in
    record {
      ready = All-append IsReady os (o ∷ []) h.ready (r, tt);
      wired =
          All-append (λ x. AllSources (LeadsTo (os ++ o ∷ [])) (or_nil x.sources [])) os (o ∷ [])
            (All_mono more os h.wired) (more o w, tt);
    }

-- The endpoints are new, and so have no connections, but for the sources of an output.
with_endpoints_keeps :
    (st : Storage) (o : Operator) (P : Connection → Type 0)
    → (is_output o.type ≡ true → AllSources P (or_nil o.sources []))
    → ((with_endpoints st o).1.properties ≡ o.properties)
      × ((with_endpoints st o).1.form ≡ o.form)
      × AllSources P (or_nil (with_endpoints st o).1.sources [])
unfolding with_endpoints next_uuid
with_endpoints_keeps st o P h = elim (Bool-cases (is_input o.type)) [
  | inl i ↦ simp i (refl, refl, (tt, tt))
  | inr i ↦ elim (Bool-cases (is_output o.type)) [
    | inl t ↦ simp (i, t) (refl, refl, h t)
    | inr t ↦ simp (i, t) (refl, refl, (tt, tt))
  ]
]

pub update_json-eq-done :
    (s s' : Scope)
    → update_json s ≡ done s'
    → (d : Descriptor) × (s'.descriptor ≡ some d)
      × (d.streams ≡ [])
      × (s'.state_objects ≡ s.state_objects)
unfolding update_json
update_json-eq-done s s' h =
    let (w, _, e) = finish_json-eq-done s s' _ h in
    (_, ap (λ (t : Scope). t.descriptor) e, refl, ap (λ (t : Scope). t.state_objects) e)

judged-IsWhole :
    (s : Scope)
    → IsWhole s.state_objects
    → (s' : Scope) × ((update_json s then_run validate_all) ≡ done s') × IsWhole s'.state_objects
judged-IsWhole s h =
    let (t, json) =
      is_done-eq-done _
        (update_json-is_done s (All_mono (λ o r. r.validated) s.state_objects h.ready)) in
    let (d, there, empty, objects) = update_json-eq-done s t json in
    let whole : IsWhole t.state_objects = subst IsWhole (sym objects) h in
    let (s', judged) =
      is_done-eq-done _
        (validate_all-is_done t d there whole.ready (subst (All _) (sym empty) tt)) in
    (
      s',
      ap (λ m. m then_run validate_all) json ∙ judged,
      IsWhole-same t.state_objects s'.state_objects (validate_all-plain t s' judged) whole,
    )

dropped-IsWhole :
    (s : Scope) (x y : ℕ) (item : Operator) (ps : List Property) (fs : List (String × Field))
    → IsWhole s.state_objects
    → Dressed [] fs ps
    → (is_output item.type ≡ true → AllSources (LeadsTo s.state_objects) (or_nil item.sources []))
    → IsWhole (add_operator s (dropped s x y item ps fs)).state_objects
unfolding add_operator dropped
dropped-IsWhole s x y item ps fs h d out =
    let (properties, form, sources) =
      with_endpoints_keeps s.storage
        (record item {
          ref = s.next_ref;
          properties = ps;
          x = x;
          y = y;
          form = some (record { invalid = true; operator_name_invalid = false; fields = fs });
        })
        (LeadsTo s.state_objects) out in
    let ready : IsReady (dropped s x y item ps fs).1 = record {
      validated = rw properties d.validated;
      covered = λ f e.
          let same : f.fields ≡ fs = ground (arith, e, form) in rw (properties, same) d.covers;
    } in
    IsWhole-snoc s.state_objects (dropped s x y item ps fs).1 h ready sources

-- On a canvas that is in order, an item whose properties are all of known kinds can be dropped: `drop`
-- throws nothing and leaves the canvas in order. (An item with the type of an
-- output keeps its source endpoints, if it has any; their connections must lead to operators.)
pub drop-IsWhole :
    (x y : ℕ) (item : Operator) (s : Scope)
    → IsWhole s.state_objects
    → is_some (drop_properties s.storage item.properties []) ≡ true
    → (is_output item.type ≡ true → AllSources (LeadsTo s.state_objects) (or_nil item.sources []))
    → (s' : Scope) × (drop x y (some item) s ≡ done s') × IsWhole s'.state_objects
unfolding drop
drop-IsWhole x y item s h known out =
    elim (Option-cases (drop_properties s.storage item.properties [])) [
      | inl e ↦ absurd (ground (arith, e))
      | inr ((ps, fs), e) ↦
          let d = drop_properties-Dressed s.storage item.properties [] ps fs e in
          let (s', run, whole) =
            judged-IsWhole (add_operator s (dropped s x y item ps fs))
              (dropped-IsWhole s x y item ps fs h d out) in
          (s', ap (dropping s) e ∙ run, whole)
    ]
  where
    dropping : Scope → Option (List Property × List (String × Field)) → Outcome Scope
    dropping t none = thrown t
    dropping t (some (ps, fs)) =
        update_json (add_operator t (dropped t x y item ps fs)) then_run validate_all
