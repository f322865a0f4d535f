-- ===== src/Builder/Steps/Adding.antt =====
-- `drop` and the loading of a system, on canvases that are in order.
use de_pipeline_tool.Prelude.{
  ℕ, String, true, List, [], ◌∷◌, Option, none, some, ◌≡◌, refl, sym, subst, ap, ◌∙◌, arith, or_nil,
  All, is_some, inl, inr, Bool-cases, Option-cases, done, ◌+◌, leb, if◌then◌else◌,
}
use de_pipeline_tool.Builder.Model.{Operator, Source, Target, Property, Field, Storage, Scope}
use de_pipeline_tool.Builder.Json.{update_json}
use de_pipeline_tool.Builder.Scan.{is_input, is_output}
use de_pipeline_tool.Builder.Check.{validate_all}
use de_pipeline_tool.Builder.Canvas.{
  next_uuid, drop_properties, with_endpoints, dropped, add_operator, drop,
}
use de_pipeline_tool.Builder.Canvas.Sweeping.{IsTidy, AtMostOne}
use de_pipeline_tool.Builder.Connect.{
  ahead_of, ahead_of_all, source_numbers, target_numbers, with_last, with_last_outcome, set_uuid,
  load_system,
}
use de_pipeline_tool.Builder.Session.Returns.{LeadsTo, AllSources}
use de_pipeline_tool.Builder.Session.Saving.{then_run-eq-done}
use de_pipeline_tool.Builder.Session.Whole.{plain_all, validate_all-plain}
use de_pipeline_tool.Builder.Session.Dropping.{update_json-eq-done, drop-IsWhole}
use de_pipeline_tool.Builder.Steps.Order.{
  IsFilled, HasEnds, IsKept, IsKept-snoc, IsKept-same, IsOrdered,
}

-- An item of the library has no endpoints of a kind that its type does not have.
pub record IsItem (o : Operator) : Type 0 where
  pub no_targets : is_input o.type ≡ true → o.targets ≡ none
  pub no_sources : is_output o.type ≡ true → o.sources ≡ none

-- The endpoints of an item that was dropped.
record Ended (o : Operator) : Type 0 where
  ends : HasEnds o
  tidy : All IsTidy (or_nil o.sources [])

fresh_source : (n : ℕ) → IsTidy (record { uuid = n; connections = none })
fresh_source n = record { single = tt; numbered = tt }

Ended-by :
    (sources : Option (List Source)) (targets : Option (List Target)) (o : Operator)
    → o.sources ≡ sources
    → o.targets ≡ targets
    → HasEnds (record o { sources = sources; targets = targets })
    → All IsTidy (or_nil sources [])
    → Ended o
Ended-by sources targets o e f h t = record {
  ends = record {
    sourced = subst IsFilled (sym e) h.sourced;
    targeted = subst IsFilled (sym f) h.targeted;
    one = subst (λ ts. AtMostOne (or_nil ts [])) (sym f) h.one;
    formed = h.formed;
  };
  tidy = subst (λ ss. All IsTidy (or_nil ss [])) (sym e) t;
}

with_endpoints-form : (st : Storage) (o : Operator) → (with_endpoints st o).1.form ≡ o.form
unfolding with_endpoints next_uuid
with_endpoints-form st o = elim (Bool-cases (is_input o.type)) [
  | inl i ↦ rw i refl
  | inr i ↦ elim (Bool-cases (is_output o.type)) [ inl t ↦ rw (i, t) refl | inr t ↦ rw (i, t) refl ]
]

with_endpoints-Ended :
    (st : Storage) (o : Operator) → IsItem o → is_some o.form ≡ true → Ended (with_endpoints st o).1
unfolding with_endpoints next_uuid
with_endpoints-Ended st o item there =
    let k = ap is_some (with_endpoints-form st o) ∙ there in
    elim (Bool-cases (is_input o.type)) [
      | inl i ↦
          Ended-by (some (record { uuid = st.last_uuid + 1; connections = none } ∷ [])) none _
            (rw i refl) (rw i (item.no_targets i))
            (record { sourced = tt; targeted = tt; one = tt; formed = k }) (fresh_source _, tt)
      | inr i ↦ elim (Bool-cases (is_output o.type)) [
        | inl t ↦
            Ended-by none (some (record { uuid = st.last_uuid + 1 } ∷ [])) _
              (rw (i, t) (item.no_sources t)) (rw (i, t) refl)
              (record { sourced = tt; targeted = tt; one = tt; formed = k }) tt
        | inr t ↦
            Ended-by (some (record { uuid = st.last_uuid + 1; connections = none } ∷ []))
              (some (record { uuid = st.last_uuid + 1 + 1 } ∷ [])) _ (rw (i, t) refl)
              (rw (i, t) refl) (record { sourced = tt; targeted = tt; one = tt; formed = k })
              (fresh_source _, tt)
      ]
    ]

dropped-Ended :
    (s : Scope) (x y : ℕ) (item : Operator) (ps : List Property) (fs : List (String × Field))
    → IsItem item
    → Ended (dropped s x y item ps fs).1
unfolding dropped
dropped-Ended s x y item ps fs h =
    with_endpoints-Ended s.storage _
      (record { no_targets = h.no_targets; no_sources = h.no_sources }) refl

added-IsKept :
    (s : Scope) (x y : ℕ) (item : Operator) (ps : List Property) (fs : List (String × Field))
    → IsItem item
    → IsKept s.state_objects
    → IsKept (add_operator s (dropped s x y item ps fs)).state_objects
unfolding add_operator
added-IsKept s x y item ps fs h k =
    let e = dropped-Ended s x y item ps fs h in
    IsKept-snoc s.state_objects (dropped s x y item ps fs).1 k e.ends e.tidy

-- What a drop that returns has put on the canvas.
drop-plain :
    (x y : ℕ) (item : Operator) (s s' : Scope) (ps : List Property) (fs : List (String × Field))
    → drop_properties s.storage item.properties [] ≡ some (ps, fs)
    → drop x y (some item) s ≡ done s'
    → plain_all s'.state_objects
      ≡ plain_all (add_operator s (dropped s x y item ps fs)).state_objects
unfolding drop
drop-plain x y item s s' ps fs e h =
    let added = add_operator s (dropped s x y item ps fs) in
    let (t, json, judged) =
      then_run-eq-done (update_json added) validate_all s' (rw (e, drop) at h) in
    let (d, there, empty, objects) = update_json-eq-done added t json in
    validate_all-plain t s' judged ∙ ap plain_all objects

-- Dropping an item of known kinds on a canvas in order throws nothing and leaves it in order.
pub drop-IsOrdered :
    (x y : ℕ) (item : Operator) (s : Scope)
    → IsOrdered s.state_objects
    → is_some (drop_properties s.storage item.properties []) ≡ true
    → IsItem item
    → (s' : Scope) × (drop x y (some item) s ≡ done s') × IsOrdered s'.state_objects
drop-IsOrdered x y item s h known k =
    let no_wires = λ (e : is_output item.type ≡ true).
      subst (λ ss. AllSources (LeadsTo s.state_objects) (or_nil ss [])) (sym (k.no_sources e)) tt in
    let (s', run, whole) = drop-IsWhole x y item s h.whole known no_wires in
    elim (Option-cases (drop_properties s.storage item.properties [])) [
      | inl e ↦ absurd (ground (arith, e))
      | inr ((ps, fs), e) ↦ (
        s',
        run,
        record {
          whole = whole;
          kept =
              IsKept-same (add_operator s (dropped s x y item ps fs)).state_objects s'.state_objects
                (drop-plain x y item s s' ps fs e run) (added-IsKept s x y item ps fs k h.kept);
        },
      )
    ]

-- `setUUID` reads the first endpoint of each list, and there is one.
ahead_of-done :
    (ns : Option (List ℕ)) (last : ℕ) → IsFilled ns → (n : ℕ) × (ahead_of ns last ≡ done n)
unfolding ahead_of
ahead_of-done none last h = (last, refl)
ahead_of-done (some []) last h = absurd h
ahead_of-done (some (n ∷ ns)) last h = (if leb last n then n + 1 else last, refl)

source_numbers-IsFilled : (ss : Option (List Source)) → IsFilled ss → IsFilled (source_numbers ss)
source_numbers-IsFilled none h = tt
source_numbers-IsFilled (some []) h = h
source_numbers-IsFilled (some (s ∷ ss)) h = tt

target_numbers-IsFilled : (ts : Option (List Target)) → IsFilled ts → IsFilled (target_numbers ts)
target_numbers-IsFilled none h = tt
target_numbers-IsFilled (some []) h = h
target_numbers-IsFilled (some (t ∷ ts)) h = tt

ahead_of_all-done :
    (os : List Operator) (last : ℕ) → All HasEnds os → (n : ℕ) × (ahead_of_all os last ≡ done n)
unfolding ahead_of_all
ahead_of_all-done [] last h = (last, refl)
ahead_of_all-done (o ∷ os) last (p, h) =
    let (m, first) =
      ahead_of-done (source_numbers o.sources) last (source_numbers-IsFilled o.sources p.sourced) in
    let (n, second) =
      ahead_of-done (target_numbers o.targets) m (target_numbers-IsFilled o.targets p.targeted) in
    let (k, rest) = ahead_of_all-done os n h in (k, rw (first, second, ahead_of_all) rest)

-- A system that is in order can be loaded.
pub load_system-IsOrdered :
    (state : List Operator) (name : String) (s : Scope)
    → IsOrdered state
    → (s' : Scope) × (load_system (some state) name s ≡ done s') × IsOrdered s'.state_objects
unfolding load_system set_uuid
load_system-IsOrdered state name s h =
    let s₁ : Scope = record s {
      descriptor = none;
      state_objects = state;
      system_name = name;
      refreshing = true;
      pending_resets = s.pending_resets + 1;
    } in
    let (n, e) = ahead_of_all-done state s.storage.last_uuid h.kept.ended in
    (with_last s₁ n, ap (with_last_outcome s₁) e, h)
