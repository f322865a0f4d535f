-- ===== src/Builder/Json/Pictured.antt =====
-- What `updateJSON` writes of the operators on the canvas.
use de_pipeline_tool.Prelude.{
  String, List, [], ◌∷◌, ◌++◌, append_assoc, append-nil, Option, none, some, ◌==◌, ◌≡◌, refl, sym,
  ap, ◌∙◌, if◌then◌else◌, done, thrown, state_of, subst,
}
use de_pipeline_tool.Builder.Model.{Operator, Setting, OperatorJson, FileJson, lookup}
use de_pipeline_tool.Builder.Json.{Writing, write_properties, Written, write_operators}
use de_pipeline_tool.Builder.Json.Settings.{
  later, later_assoc, last_of, setting_of, file_of, last_file, Files, file_at, AllPictured,
  no_setting, settings_written, files_written,
}

abbrev json_of : Operator → List (String × Setting) → OperatorJson
json_of o settings = record { name = o.name; class_name = o.class_name; properties = settings }

abbrev began : Written → Writing
began w = record { settings = []; files = w.files }

abbrev grown_by : Operator → Writing → Written → Written
grown_by o v w = record { operators = w.operators ++ json_of o v.settings ∷ []; files = v.files }

write_operators-cons :
    (o : Operator) (os : List Operator) (w w' : Written)
    → write_operators (o ∷ os) w ≡ done w'
    → (v : Writing) × (write_properties o.name o.properties (began w) ≡ some v)
      × (write_operators os (grown_by o v w) ≡ done w')
unfolding write_operators
write_operators-cons o os w w' h = go (write_properties o.name o.properties (began w)) refl h
  where
    go :
        (r : Option Writing)
        → write_properties o.name o.properties (began w) ≡ r
        → elim r [ none ↦ thrown w | some v ↦ write_operators os (grown_by o v w) ] ≡ done w'
        → (v : Writing) × (write_properties o.name o.properties (began w) ≡ some v)
          × (write_operators os (grown_by o v w) ≡ done w')
    go none e k = let bad : ⊥ = cc in absurd bad
    go (some v) e k = (v, e, k)

later-none : (o : Option Setting) → later o none ≡ o
later-none none = refl
later-none (some x) = refl

-- All operators, behind those that were written before.
operators_written :
    (os : List Operator) (w w' : Written)
    → write_operators os w ≡ done w'
    → ((js : List OperatorJson) × (w'.operators ≡ w.operators ++ js) × AllPictured os js)
      × ((a key : String)
          → file_at a key w'.files ≡ later (last_file a key os) (file_at a key w.files))
unfolding write_operators
operators_written [] w w' h =
    let e : w' ≡ w = ap state_of (sym h) in
    (
      ([], ap (λ (v : Written). v.operators) e ∙ sym (append-nil w.operators), tt),
      λ a key. ap (λ (v : Written). file_at a key v.files) e,
    )
operators_written (o ∷ os) w w' h =
    let (v, one, others) = write_operators-cons o os w w' h in
    let ((js, grown, pictured), files) = operators_written os (grown_by o v w) w' others in
    (
      (
        json_of o v.settings ∷ js,
        grown ∙ append_assoc w.operators (json_of o v.settings ∷ []) js,
        (
          record {
            name = refl;
            class_name = refl;
            settings = λ key.
                settings_written o.name o.properties (began w) v one key
                ∙ nothing key (last_of setting_of key o.properties);
          },
          pictured,
        ),
      ),
      λ a key.
          files a key
          ∙ ap (later (last_file a key os))
              (files_written o.name o.properties (began w) v one a key)
          ∙ later_assoc (last_file a key os)
              (if o.name == a then last_of file_of key o.properties else none)
              (file_at a key w.files),
    )
  where
    nothing : (key : String) (o : Option Setting) → later o (lookup {V = Setting} key []) ≡ o
    nothing key o = ap (later o) (no_setting key) ∙ later-none o

-- What is written of the operators on the canvas.
pub record IsPictured (os : List Operator) (js : List OperatorJson) (files : Files) : Type 0 where
  pub operators : AllPictured os js
  pub files_of : (a key : String) → file_at a key files ≡ last_file a key os

pub write_operators-IsPictured :
    (os : List Operator) (w : Written)
    → write_operators os (record { operators = []; files = [] }) ≡ done w
    → IsPictured os w.operators w.files
unfolding lookup
write_operators-IsPictured os w h =
    let ((js, grown, pictured), files) =
      operators_written os (record { operators = []; files = [] }) w h in
    record {
      operators = subst (AllPictured os) (sym grown) pictured;
      files_of = λ a key. files a key ∙ none_later (last_file a key os);
    }
  where
    none_later : (o : Option FileJson) → later o none ≡ o
    none_later none = refl
    none_later (some x) = refl
