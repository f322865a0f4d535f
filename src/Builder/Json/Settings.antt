-- ===== src/Builder/Json/Settings.antt =====
-- What `updateJSON` writes of the properties of an operator: the setting of those that have a value, and of the
-- files what was read of them.
use mathlib.Core.Option.{some-injective}
use de_pipeline_tool.Prelude.{
  String, Bool, true, false, ◌&&◌, List, [], ◌∷◌, Option, none, some, ◌==◌, eq_iff, ◌≡◌, refl, sym,
  ap, ◌∙◌, arith, if◌then◌else◌, or_nil,
}
use de_pipeline_tool.Builder.Model.{
  Operator, Property, Setting, plain, file, OperatorJson, FileJson, lookup, insert, lookup-insert,
}
use de_pipeline_tool.Builder.Json.{
  is_set, value_text, as_is, Writing, write_as, write_property, write_properties,
}

abbrev pub later {ℓ} : {A : Type ℓ} → Option A → Option A → Option A
later (some a) before = some a
later none before = before

-- The setting of a property with a value, by its validation: the name of a file, a list as it is, or the
-- value's text.
abbrev pub setting_of : Property → Option Setting
setting_of p = elim p.validation [
  | none ↦ none
  | some v ↦
      if is_set p.value
      then some (
          if v.input_kind == "fileInput"
          then file p.file_name
          else if v.list
          then as_is p.value
          else plain (value_text p.value))
      else none
]

abbrev pub file_of : Property → Option FileJson
file_of p = elim p.validation [
  | none ↦ none
  | some v ↦
      if is_set p.value && v.input_kind == "fileInput"
      then some
          (record { filename = p.file_name; filename_field = p.filename_field; bytes = p.value })
      else none
]

-- Of the properties of a name, the last that has one.
abbrev pub last_of {ℓ} : {A : Type ℓ} → (Property → Option A) → String → List Property → Option A
last_of f key [] = none
last_of f key (p ∷ ps) = later (last_of f key ps) (if p.name == key then f p else none)

abbrev pub last_file : String → String → List Operator → Option FileJson
last_file owner key [] = none
last_file owner key (o ∷ os) =
    later (last_file owner key os)
      (if o.name == owner then last_of file_of key o.properties else none)

abbrev pub Files : Type 0
Files = List (String × List (String × FileJson))

abbrev pub file_at : String → String → Files → Option FileJson
file_at owner key files = elim (lookup owner files) [ none ↦ none | some fs ↦ lookup key fs ]

-- An operator as it is written.
pub record Pictures (o : Operator) (j : OperatorJson) : Type 0 where
  pub name : j.name ≡ o.name
  pub class_name : j.class_name ≡ o.class_name
  pub settings : (key : String) → lookup key j.properties ≡ last_of setting_of key o.properties

abbrev pub AllPictured : List Operator → List OperatorJson → Type 0
AllPictured [] [] = Unit
AllPictured (o ∷ os) (j ∷ js) = Pictures o j × AllPictured os js
AllPictured _ _ = ⊥

pub later_assoc {ℓ} : {A : Type ℓ} (a b c : Option A) → later a (later b c) ≡ later (later a b) c
later_assoc (some x) b c = refl
later_assoc none b c = refl

setting_written :
    (owner : String) (p : Property) (w w' : Writing)
    → write_property owner p w ≡ some w'
    → (key : String)
    → lookup key w'.settings
      ≡ later (if p.name == key then setting_of p else none) (lookup key w.settings)
unfolding write_property write_as
setting_written owner p w w' h key = ground (
  arith,
  lookup-insert p.name key (file p.file_name) w.settings,
  lookup-insert p.name key (as_is p.value) w.settings,
  lookup-insert p.name key (plain (value_text p.value)) w.settings,
)

lookup-nil : (key : String) → lookup {V = FileJson} key [] ≡ none
unfolding lookup
lookup-nil key = refl

pub no_setting : (key : String) → lookup {V = Setting} key [] ≡ none
unfolding lookup
no_setting key = refl

file_written :
    (owner : String) (p : Property) (w w' : Writing)
    → write_property owner p w ≡ some w'
    → (a key : String)
    → file_at a key w'.files
      ≡ later
          (if owner == a then (if p.name == key then file_of p else none) else none)
          (file_at a key w.files)
unfolding write_property write_as
file_written owner p w w' h a key =
    let json : FileJson = record {
      filename = p.file_name;
      filename_field = p.filename_field;
      bytes = p.value;
    } in
    let before = or_nil (lookup owner w.files) [] in
    ground (
      arith,
      lookup-insert owner a (insert p.name json before) w.files,
      lookup-insert p.name key json before,
      eq_iff owner a,
      lookup-nil key,
    )

write_properties-cons :
    (owner : String) (p : Property) (ps : List Property) (w w' : Writing)
    → write_properties owner (p ∷ ps) w ≡ some w'
    → (v : Writing) × (write_property owner p w ≡ some v) × (write_properties owner ps v ≡ some w')
unfolding write_properties
write_properties-cons owner p ps w w' h = go (write_property owner p w) refl h
  where
    go :
        (o : Option Writing)
        → write_property owner p w ≡ o
        → elim o [ none ↦ none | some v ↦ write_properties owner ps v ] ≡ some w'
        → (v : Writing) × (write_property owner p w ≡ some v)
          × (write_properties owner ps v ≡ some w')
    go none e k = let bad : ⊥ = cc in absurd bad
    go (some v) e k = (v, e, k)

-- The properties of one operator.
pub settings_written :
    (owner : String) (ps : List Property) (w w' : Writing)
    → write_properties owner ps w ≡ some w'
    → (key : String)
    → lookup key w'.settings ≡ later (last_of setting_of key ps) (lookup key w.settings)
unfolding write_properties
settings_written owner [] w w' h key =
    ap (λ (v : Writing). lookup key v.settings) (some-injective w' w (sym h))
settings_written owner (p ∷ ps) w w' h key =
    let (v, one, others) = write_properties-cons owner p ps w w' h in
    settings_written owner ps v w' others key
    ∙ ap (later (last_of setting_of key ps)) (setting_written owner p w v one key)
    ∙ later_assoc (last_of setting_of key ps) (if p.name == key then setting_of p else none)
        (lookup key w.settings)

later_if {ℓ} :
    {A : Type ℓ} (here : Bool) (a b c : Option A)
    → later (if here then a else none) (later (if here then b else none) c)
      ≡ later (if here then later a b else none) c
later_if true a b c = later_assoc a b c
later_if false a b c = refl

pub files_written :
    (owner : String) (ps : List Property) (w w' : Writing)
    → write_properties owner ps w ≡ some w'
    → (a key : String)
    → file_at a key w'.files
      ≡ later (if owner == a then last_of file_of key ps else none) (file_at a key w.files)
unfolding write_properties
files_written owner [] w w' h a key =
    ap (λ (v : Writing). file_at a key v.files) (some-injective w' w (sym h)) ∙ ground arith
files_written owner (p ∷ ps) w w' h a key =
    let (v, one, others) = write_properties-cons owner p ps w w' h in
    files_written owner ps v w' others a key
    ∙ ap (later (if owner == a then last_of file_of key ps else none))
        (file_written owner p w v one a key)
    ∙ later_if (owner == a) (last_of file_of key ps) (if p.name == key then file_of p else none)
        (file_at a key w.files)
