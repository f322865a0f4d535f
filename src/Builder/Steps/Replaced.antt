-- ===== src/Builder/Steps/Replaced.antt =====
-- An operator on a canvas in order is edited where it stands.
use de_pipeline_tool.Prelude.{
  ℕ, true, List, [], ◌∷◌, some, ◌≡◌, refl, sym, ap, subst, arith, or_nil, eqb, inl, inr, Bool-cases,
  Option-cases, Any, All, All_mono, is_some, parses_to, done,
}
use de_pipeline_tool.Builder.Model.{Form, Connection, Source, Operator}
use de_pipeline_tool.Builder.Forms.Ready.{IsReady, Covers}
use de_pipeline_tool.Builder.Canvas.Sweeping.{IsTidy, AtMostOne}
use de_pipeline_tool.Builder.Connect.Wiring.{EverySource}
use de_pipeline_tool.Builder.Session.Returns.{LeadsTo}
use de_pipeline_tool.Builder.Session.Whole.{AllSources_mono}
use de_pipeline_tool.Builder.Steps.Order.{IsFilled, HasEnds, IsOrdered}
use de_pipeline_tool.Builder.Steps.Removing.{object_at}
use de_pipeline_tool.Builder.Steps.Editing.{
  Edit, edited_name, edited, edit_operator, edit_at, in_place, behind_one, IsEditable,
}
use de_pipeline_tool.Builder.Steps.Edited.{edit_form-StaysCovered}

-- The operator with the same endpoints, and again in order.
record IsEditOf (o o' : Operator) : Type 0 where
  sources : o'.sources ≡ o.sources
  targets : o'.targets ≡ o.targets
  ready : IsReady o'
  formed : is_some o'.form ≡ true

abbrev AreEditsOf : List Operator → List Operator → Type 0
AreEditsOf [] [] = Unit
AreEditsOf [] (o' ∷ os') = ⊥
AreEditsOf (o ∷ os) [] = ⊥
AreEditsOf (o ∷ os) (o' ∷ os') = IsEditOf o o' × AreEditsOf os os'

IsEditOf-self : (o : Operator) → IsReady o → HasEnds o → IsEditOf o o
IsEditOf-self o r h = record { sources = refl; targets = refl; ready = r; formed = h.formed }

AreEditsOf-self : (os : List Operator) → All IsReady os → All HasEnds os → AreEditsOf os os
AreEditsOf-self [] r h = tt
AreEditsOf-self (o ∷ os) (p, r) (q, h) = (IsEditOf-self o p q, AreEditsOf-self os r h)

edit_operator-IsEditOf :
    (e : Edit) (o : Operator)
    → IsReady o
    → is_some o.form ≡ true
    → IsEditable e o.properties
    → (o' : Operator) × (edit_operator e o ≡ done o') × IsEditOf o o'
unfolding edit_operator
edit_operator-IsEditOf e o r there k = elim (Option-cases o.form) [
  | inl f ↦ absurd (ground (arith, there, f))
  | inr (form, f) ↦
      let (form', ps', run, covers, rules) =
        edit_form-StaysCovered form o.properties (r.covered form f) r.validated e k in
      let o' : Operator = record o {
        name = edited_name e o.name;
        form = some form';
        properties = ps';
      } in
      (
        o',
        rw (f, edit_operator) (ap (edited (record o { name = edited_name e o.name })) run),
        record {
          sources = refl;
          targets = refl;
          ready = record {
            validated = rules;
            covered = λ g h.
                let same : form' ≡ g = cc in
                subst (λ (x : Form). All (Covers x.fields) ps') same covers;
          };
          formed = refl;
        },
      )
]

edit_at-AreEditsOf :
    (ref : ℕ) (e : Edit) (os : List Operator) (o : Operator)
    → All IsReady os
    → All HasEnds os
    → object_at ref os ≡ some o
    → IsEditable e o.properties
    → (os' : List Operator) × (edit_at ref e os ≡ done os') × AreEditsOf os os'
unfolding edit_at
edit_at-AreEditsOf ref e [] o r h found k = cc
edit_at-AreEditsOf ref e (x ∷ os) o (p, r) (q, h) found k = elim (Bool-cases (eqb x.ref ref)) [
  | inl here ↦
      let same : o ≡ x = ground (arith, found, here) in
      let (x', run, edit) =
        edit_operator-IsEditOf e x p q.formed
          (subst (λ (y : Operator). IsEditable e y.properties) same k) in
      (x' ∷ os, rw (here, edit_at) (ap (in_place os) run), (edit, AreEditsOf-self os r h))
  | inr further ↦
      let (os', run, edits) = edit_at-AreEditsOf ref e os o r h (rw further at found) k in
      (x ∷ os', rw (further, edit_at) (ap (behind_one x) run), (IsEditOf-self x p q, edits))
]

AreEditsOf-LeadsTo :
    (os os' : List Operator) (c : Connection) → AreEditsOf os os' → LeadsTo os c → LeadsTo os' c
AreEditsOf-LeadsTo [] os' c h k = absurd k
AreEditsOf-LeadsTo (o ∷ os) [] c h k = absurd h
AreEditsOf-LeadsTo (o ∷ os) (o' ∷ os') c (e, h) (inl here) =
    inl
      (subst (λ ts. Any (λ t. parses_to c.uuid t.uuid ≡ true) (or_nil ts [])) (sym e.targets) here)
AreEditsOf-LeadsTo (o ∷ os) (o' ∷ os') c (e, h) (inr later) =
    inr (AreEditsOf-LeadsTo os os' c h later)

AreEditsOf-EverySource :
    (Q : Source → Type 0) (os os' : List Operator)
    → AreEditsOf os os'
    → EverySource Q os
    → EverySource Q os'
AreEditsOf-EverySource Q [] [] h k = tt
AreEditsOf-EverySource Q [] (o' ∷ os') h k = absurd h
AreEditsOf-EverySource Q (o ∷ os) [] h k = absurd h
AreEditsOf-EverySource Q (o ∷ os) (o' ∷ os') (e, h) (p, k) =
    (subst (λ ss. All Q (or_nil ss [])) (sym e.sources) p, AreEditsOf-EverySource Q os os' h k)

AreEditsOf-IsReady : (os os' : List Operator) → AreEditsOf os os' → All IsReady os'
AreEditsOf-IsReady [] [] h = tt
AreEditsOf-IsReady [] (o' ∷ os') h = absurd h
AreEditsOf-IsReady (o ∷ os) [] h = absurd h
AreEditsOf-IsReady (o ∷ os) (o' ∷ os') (e, h) = (e.ready, AreEditsOf-IsReady os os' h)

AreEditsOf-HasEnds : (os os' : List Operator) → AreEditsOf os os' → All HasEnds os → All HasEnds os'
AreEditsOf-HasEnds [] [] h k = tt
AreEditsOf-HasEnds [] (o' ∷ os') h k = absurd h
AreEditsOf-HasEnds (o ∷ os) [] h k = absurd h
AreEditsOf-HasEnds (o ∷ os) (o' ∷ os') (e, h) (p, k) = (
  record {
    sourced = subst IsFilled (sym e.sources) p.sourced;
    targeted = subst IsFilled (sym e.targets) p.targeted;
    one = subst (λ ts. AtMostOne (or_nil ts [])) (sym e.targets) p.one;
    formed = e.formed;
  },
  AreEditsOf-HasEnds os os' h k,
)

pub edit_at-IsOrdered :
    (ref : ℕ) (e : Edit) (os : List Operator) (o : Operator)
    → IsOrdered os
    → object_at ref os ≡ some o
    → IsEditable e o.properties
    → (os' : List Operator) × (edit_at ref e os ≡ done os') × IsOrdered os'
edit_at-IsOrdered ref e os o h found k =
    let (os', run, edits) = edit_at-AreEditsOf ref e os o h.whole.ready h.kept.ended found k in
    let wired =
      AreEditsOf-EverySource (λ x. All (LeadsTo os) (or_nil x.connections [])) os os' edits
        h.whole.wired in
    (
      os',
      run,
      record {
        whole = record {
          ready = AreEditsOf-IsReady os os' edits;
          wired =
              All_mono
                (λ x w.
                  AllSources_mono (λ c. AreEditsOf-LeadsTo os os' c edits) (or_nil x.sources []) w)
                os' wired;
        };
        kept = record {
          tidy = AreEditsOf-EverySource IsTidy os os' edits h.kept.tidy;
          ended = AreEditsOf-HasEnds os os' edits h.kept.ended;
        };
      },
    )
