-- ===== src/Builder/Session/Saving.antt =====
-- What `saveToManager` sends: the system on the canvas, and only one that obeys the rules.
use de_pipeline_tool.Prelude.{
  String, Option, none, Option-cases, true, false, List, [], ◌∷◌, ◌++◌, some, ◌≡◌, refl, sym, ap,
  ◌∙◌, ◌⊎◌, inl, inr, Outcome, done, thrown, state_of, ◌then_run◌, arith, Bool-cases,
}
use mathlib.Core.Path.{subst₂}
use de_pipeline_tool.Builder.Json.Pictured.{IsPictured, write_operators-IsPictured}
use de_pipeline_tool.Builder.Model.{lookup, Operator, Descriptor, Scope}
use de_pipeline_tool.Builder.Json.{Written, with_written, finish_json, update_json}
use de_pipeline_tool.Builder.Streams.{update_connections}
use de_pipeline_tool.Builder.Streams.Shape.{wires, numbered, update_connections-numbered}
use de_pipeline_tool.Builder.Forms.{parse_invalid_text}
use de_pipeline_tool.Builder.Scan.{is_id, is_system_name, is_taken}
use de_pipeline_tool.Builder.Check.{judge_operators, validate_all}
use de_pipeline_tool.Builder.Check.Rules.{IsBuildable}
use de_pipeline_tool.Builder.Check.Sound.{validate_all-IsAccepted}
use de_pipeline_tool.Builder.Session.{cache, update, may_save, send, save_to_manager}

pub then_run-eq-done {ℓ} :
    {S : Type ℓ} (m : Outcome S) (f : S → Outcome S) (t : S)
    → (m then_run f) ≡ done t
    → (s : S) × (m ≡ done s) × (f s ≡ done t)
then_run-eq-done (done s) f t h = (s, refl, h)
then_run-eq-done (thrown s) f t h = cc

-- The descriptor stands for the scope: its name, its id, its operators with their settings and files, and the
-- streams of its wires.
pub record Describes (s : Scope) (d : Descriptor) : Type 0 where
  pub name : d.name ≡ s.system_name
  pub id : d.id ≡ s.id
  pub state : d.state ≡ s.state_objects
  pub pictured : IsPictured s.state_objects d.operators d.operator_files
  pub streams : d.streams ≡ numbered s.state_objects 1 (wires s.state_objects)

-- The scopes differ at most in their descriptors.
pub record SameBut (s s' : Scope) : Type 0 where
  pub objects : s'.state_objects ≡ s.state_objects
  pub name : s'.system_name ≡ s.system_name
  pub id : s'.id ≡ s.id
  pub sent : s'.sent ≡ s.sent

-- The scope behind `updateJSON` and `updateConnections`.
pub record IsRewritten (s s' : Scope) : Type 0 where
  pub same : SameBut s s'
  pub descriptor : Descriptor
  pub there : s'.descriptor ≡ some descriptor
  pub describes : Describes s descriptor

json_descriptor : Scope → Written → Descriptor
json_descriptor s w = record {
  state = s.state_objects;
  name = s.system_name;
  id = s.id;
  operators = w.operators;
  streams = [];
  operator_files = w.files;
}

pub finish_json-eq-done :
    (s s' : Scope) (r : Outcome Written)
    → finish_json s r ≡ done s'
    → (w : Written) × (r ≡ done w) × (s' ≡ with_written s w.operators w.files)
unfolding finish_json
finish_json-eq-done s s' (done w) h = (w, refl, ap state_of (sym h))
finish_json-eq-done s s' (thrown w) h = cc

pub rewritten :
    (s s' : Scope) → (update_json s then_run update_connections) ≡ done s' → IsRewritten s s'
unfolding update_json json_descriptor
rewritten s s' h =
    let (s₁, json, streams) = then_run-eq-done (update_json s) update_connections s' h in
    let (w, run_of, e) = finish_json-eq-done s s₁ _ json in
    let d : Descriptor = json_descriptor s w in
    let d' : Descriptor = record d {
      streams = numbered s.state_objects 1 (wires s.state_objects);
    } in
    let run : update_connections (with_written s w.operators w.files)
        ≡ done (record (with_written s w.operators w.files) { descriptor = some d' }) =
      update_connections-numbered (with_written s w.operators w.files) d refl in
    let f : s' ≡ record (with_written s w.operators w.files) { descriptor = some d' } =
      ap state_of (sym streams ∙ ap update_connections e ∙ run) in
    record {
      same = rw f (record { objects = refl; name = refl; id = refl; sent = refl });
      descriptor = d';
      there = ap (λ t. t.descriptor) f;
      describes = record {
        name = refl;
        id = refl;
        state = refl;
        pictured = write_operators-IsPictured s.state_objects w run_of;
        streams = refl;
      };
    }

send-sent : (s : Scope) (d : Descriptor) → s.descriptor ≡ some d → (send s).sent ≡ s.sent ++ d ∷ []
send-sent s d h = ground arith

-- A save that returns either sends nothing and changes nothing, since the name or the build is not
-- in order, or it sends one descriptor, which describes the system on the canvas.
pub save_to_manager-Describes :
    (s s' : Scope)
    → save_to_manager s ≡ done s'
    → ((may_save s ≡ false) × (s' ≡ s))
      ⊎ ((may_save s ≡ true) × ((d : Descriptor) × Describes s d × (s'.sent ≡ s.sent ++ d ∷ [])))
unfolding save_to_manager
save_to_manager-Describes s s' h = elim (Bool-cases (may_save s)) [
  | inr not_now ↦ inl (not_now, ground arith)
  | inl now ↦
      let (s₁, written, e) =
        then_run-eq-done (update_json s then_run update_connections) (λ (t : Scope). done (send t))
          s' (ground arith) in
      let r = rewritten s s₁ written in
      inr (
        now,
        (
          r.descriptor,
          r.describes,
          ap (λ (t : Outcome Scope). (state_of t).sent) (sym e)
              ∙ send-sent s₁ r.descriptor r.there
              ∙ ap (λ l. l ++ r.descriptor ∷ []) r.same.sent,
        ),
      )
]

may_save-eq-true :
    (s : Scope)
    → may_save s ≡ true
    → (is_system_name s.system_name ≡ true)
      × (s.build_invalid ≡ false)
      × (is_taken s.system_names_ids s.system_name s.id ≡ false)
unfolding may_save
may_save-eq-true s h = ground arith

-- `update` in its parts: the scope that was written, and the one that was judged.
pub record IsUpdated (s s' : Scope) : Type 0 where
  pub written : Scope
  pub rewritten : IsRewritten (cache s) written
  pub verdict : Scope
  pub judged : validate_all written ≡ done verdict
  pub worded : s' ≡ parse_invalid_text verdict

pub update-IsUpdated : (s s' : Scope) → update s ≡ done s' → IsUpdated s s'
unfolding update
update-IsUpdated s s' h =
    let written = update_json (cache s) then_run update_connections in
    let (s₂, judged, e) =
      then_run-eq-done (written then_run validate_all) (λ (t : Scope). done (parse_invalid_text t))
        s' h in
    let (s₁, w, v) = then_run-eq-done written validate_all s₂ judged in
    record {
      written = s₁;
      rewritten = rewritten (cache s) s₁ w;
      verdict = s₂;
      judged = v;
      worded = ap state_of (sym e);
    }

-- A verdict changes neither the name, nor the id, nor what was sent.
validate_all-keeps :
    (s s' : Scope)
    → validate_all s ≡ done s'
    → (s'.system_name ≡ s.system_name) × (s'.id ≡ s.id) × (s'.sent ≡ s.sent)
unfolding validate_all judge_operators
validate_all-keeps s s' h = ground arith

-- No system has the name, or the one that has it has the id.
abbrev pub IsFree : String → Option String → List (String × Option String) → Type 0
IsFree name id ids =
    (lookup name ids ≡ none)
    ⊎ ((owner : Option String) × (lookup name ids ≡ some owner) × (is_id id owner ≡ true))

IsFree-of :
    (name : String) (id : Option String) (ids : List (String × Option String))
    → is_taken ids name id ≡ false
    → IsFree name id ids
unfolding is_taken
IsFree-of name id ids h = elim (Option-cases (lookup name ids)) [
  | inl e ↦ inl e
  | inr (owner, e) ↦ inr (owner, e, ground arith)
]

-- A name and streams that obey the rules, for the operators of `s`.
pub record IsSound (s : Scope) (d : Descriptor) : Type 0 where
  pub describes : Describes s d
  pub well_named : is_system_name s.system_name ≡ true
  pub free : IsFree s.system_name s.id s.system_names_ids
  pub buildable : IsBuildable s.state_objects d.streams

some-eq : (a b : Descriptor) → some a ≡ some b → a ≡ b
some-eq a b h = cc

verdict_valid :
    (s s₁ : Scope) (u : IsUpdated s s₁) → s₁.build_invalid ≡ false → u.verdict.build_invalid ≡ false
unfolding parse_invalid_text
verdict_valid s s₁ u valid = ap (λ t. t.build_invalid) (sym u.worded) ∙ valid

updated_same : (s s₁ : Scope) (u : IsUpdated s s₁) → s₁.build_invalid ≡ false → SameBut s s₁
unfolding parse_invalid_text cache
updated_same s s₁ u valid =
    let kept = validate_all-keeps u.written u.verdict u.judged in
    let a = validate_all-IsAccepted u.written u.verdict u.judged (verdict_valid s s₁ u valid) in
    let r = u.rewritten.same in
    record {
      objects = cc (u.worded, a.unchanged, r.objects);
      name = cc (u.worded, kept.0, r.name);
      id = cc (u.worded, kept.1, r.id);
      sent = cc (u.worded, kept.2, r.sent);
    }

streams_same :
    (os os' : List Operator) → os ≡ os' → numbered os 1 (wires os) ≡ numbered os' 1 (wires os')
streams_same os os' e = ap (λ l. numbered l 1 (wires l)) e

IsSound-of :
    (s s₁ : Scope) (d : Descriptor)
    → IsUpdated s s₁
    → may_save s₁ ≡ true
    → Describes s₁ d
    → IsSound s₁ d
unfolding cache
IsSound-of s s₁ d u may describes =
    let (named, valid, free) = may_save-eq-true s₁ may in
    let a = validate_all-IsAccepted u.written u.verdict u.judged (verdict_valid s s₁ u valid) in
    let same = updated_same s s₁ u valid in
    let r = u.rewritten in
    let objects : u.written.state_objects ≡ s₁.state_objects = r.same.objects ∙ sym same.objects in
    let one : a.descriptor ≡ r.descriptor =
      some-eq a.descriptor r.descriptor (sym a.read ∙ r.there) in
    let streams : a.descriptor.streams ≡ d.streams =
      ap (λ (x : Descriptor). x.streams) one
      ∙ r.describes.streams
      ∙ streams_same s.state_objects s₁.state_objects (sym same.objects)
      ∙ sym describes.streams in
    record {
      describes = describes;
      well_named = named;
      free = IsFree-of s₁.system_name s₁.id s₁.system_names_ids free;
      buildable = subst₂ IsBuildable objects streams a.buildable;
    }

-- Behind an `update`, as the view makes one after each change, a save that returns sends nothing, or
-- it sends one descriptor. Then this describes the canvas: it has every operator with its name, its class, the
-- settings of its properties and their files, and the streams of the connections. The system's name is well
-- formed and no other system has it, and operators and streams obey every rule of `validateAll`.
pub update-save_to_manager-IsSound :
    (s s₁ s₂ : Scope)
    → update s ≡ done s₁
    → save_to_manager s₁ ≡ done s₂
    → (s₂.sent ≡ s₁.sent) ⊎ ((d : Descriptor) × (s₂.sent ≡ s₁.sent ++ d ∷ []) × IsSound s₁ d)
update-save_to_manager-IsSound s s₁ s₂ h k = elim (save_to_manager-Describes s₁ s₂ k) [
  | inl (_, same) ↦ inl (ap (λ t. t.sent) same)
  | inr (may, (d, describes, sent)) ↦
      inr (d, sent, IsSound-of s s₁ d (update-IsUpdated s s₁ h) may describes)
]
