-- ===== src/Builder/Forms/Editing.antt =====
-- `validateForm`, `addToList` and `removeFromList` of system-builder.controller.js: what an edit of a
-- property does to the form. The regular expressions that validations carry are compiled by the
-- browser, which is a parameter; those that the script has itself are functions here.
pub mod Agrees
pub mod Settled
pub mod Kept
pub mod Judged
pub mod Removal
use Prim.Native.Char.{code}
use Prim.Native.String
use de_pipeline_tool.Prelude.{
  ℕ, zero, suc, ◌+◌, ◌-◌, length, get_elem?, set, String, Bool, true, false, not, ◌&&◌, ◌||◌, List,
  [], ◌∷◌, ◌++◌, Option, none, some, ◌==◌, if◌then◌else◌, eqb, or_nil, ◌⁺◌, to_string, index_of,
  behind, exactly, Outcome, done, thrown,
}
use de_pipeline_tool.Builder.Model.{
  Property, Value, absent, text, items, Validation, Field, Form, lookup, insert,
}
use de_pipeline_tool.Builder.Json.{joined}
use de_pipeline_tool.Builder.Forms.{validate_state}

-- `new RegExp(pattern, 'i')`, if the pattern is one, and its `exec`: the text that matches.
abbrev pub Engine : Type 0
Engine = String → Option (String → Option String)

-- The argument `type`; every other text edits the value as a whole.
pub data EditKind : Type 0 where
  filename_field list_item file other_kind : EditKind

is_line_break : ℕ → Bool
is_line_break c = eqb c 10 || eqb c 13 || eqb c 0x2028 || eqb c 0x2029

-- `/.+/`
has_plain : String → Bool
has_plain String.[] = false
has_plain (String.◌∷◌ c s) = not (is_line_break (code c)) || has_plain s

all_plain : String → Bool
all_plain String.[] = true
all_plain (String.◌∷◌ c s) = not (is_line_break (code c)) && all_plain s

-- `/\..+$/`
has_extension : String → Bool
has_extension String.[] = false
has_extension (String.◌∷◌ c s) =
    eqb (code c) b'.' && not (s == "") && all_plain s || has_extension s

-- `/fileExtension$/`
ends_in : String → String → Bool
ends_in t String.[] = t == ""
ends_in t (String.◌∷◌ c s) = String.◌∷◌ c s == t || ends_in t s

-- A value as `exec` reads it.
abbrev pub read_text : Option String → String
read_text s = or_nil s "undefined"

unfoldable pub read_value : Value → String
read_value absent = "undefined"
read_value (text s) = s
read_value (items xs) = joined xs

-- `value[listIndex]`, which throws where there is no value. An element that is missing is `undefined`.
unfoldable pub element_text : Option (Option String) → Value
element_text (some (some s)) = text s
element_text _ = absent

char_at : String → ℕ → Value
char_at String.[] i = absent
char_at (String.◌∷◌ c s) zero = text (String.◌∷◌ c String.[])
char_at (String.◌∷◌ c s) (suc i) = char_at s i

unfoldable pub element_of : Value → ℕ → Option Value
unfolding char_at
element_of absent i = none
element_of (text s) i = some (char_at s i)
element_of (items xs) i = some (element_text (get_elem? xs i))

-- What is wrong is let pass if it is empty and not required.
unfoldable pub unless_empty : Bool → Bool → String → Bool
unless_empty wrong required s = if wrong && not required then not (s == "") else wrong

-- `!regex.exec(value) || regex.exec(value)[0] !== value.toString()`; `none` is a throw.
unfoldable pub mismatch : Option String → Value → Option Bool
mismatch none value = some true
mismatch (some m) absent = none
mismatch (some m) value = some (not (m == read_value value))

-- The new `$invalid`, with the validation's pattern; `new RegExp(undefined)` has the empty one.
unfoldable pub judge : Engine → Option Validation → Bool → Value → Option Bool
judge engine none required value = none
judge engine (some v) required value = elim (engine (or_nil v.regex "(?:)")) [
  | none ↦ none
  | some exec ↦ elim (mismatch (exec (read_value value)) value) [
    | none ↦ none
    | some wrong ↦ some (unless_empty wrong required (read_value value))
  ]
]

-- `preValid !== flag`, where `preValid` may be `undefined`.
unfoldable pub differs : Option Bool → Bool → Bool
differs none flag = true
differs (some a) flag = if a then not flag else flag

-- The test at the end: whether the entry has changed.
unfoldable pub has_changed : Option Bool → Field → Bool
has_changed pre f =
    differs pre f.invalid || elim f.filename_invalid [ none ↦ false | some b ↦ differs pre b ]

abbrev pub with_properties :
    List Property → Outcome (Form × List String) → Outcome (Form × List Property)
with_properties ps (done r) = done (r.0, ps)
with_properties ps (thrown r) = thrown (r.0, ps)

-- The entry is written, and the form is validated if it has changed.
unfoldable pub settle_entry :
    String → Option Bool → Field → Form → List Property → Outcome (Form × List Property)
settle_entry key pre f form ps =
    let form' : Form = record form { fields = insert key f form.fields } in
    let validated = with_properties ps (validate_state form' ps) in
    if has_changed pre f then validated else done (form', ps)

-- The name of a file.
unfoldable pub edit_filename : Property → Form → List Property → Outcome (Form × List Property)
unfolding has_plain is_line_break
edit_filename p form ps = elim (lookup p.name form.fields) [
  | none ↦ thrown (form, ps)
  | some f ↦
      let name = read_text p.filename_field in
      settle_entry p.name f.filename_invalid
        (record f { filename_invalid = some (unless_empty (not (has_plain name)) p.required name) })
        form ps
]

-- Whether the name of the file is accepted. A validation with an extension is compared with the text
-- `fileExtension`, as the script is written.
unfoldable pub file_name_found : Validation → Property → Bool
unfolding has_extension all_plain is_line_break ends_in
file_name_found v p =
    let name = read_text p.file_name in
    let found =
      if or_nil v.file "" == "" then has_extension name else ends_in "fileExtension" name in
    if not found && not p.required then name == "" else found

-- `!value && value === undefined && value === "" && fileNameRegex !== null`
unfoldable pub file_invalid : Value → Bool → Bool
file_invalid absent found = true && true && false && found
file_invalid (text s) found = s == "" && false && s == "" && found
file_invalid (items xs) found = false

-- The content of a file: what stands behind `base64,`.
unfoldable pub content_of : String → String
content_of s = behind (elim (index_of "base64," s) [ none ↦ 6 | some i ↦ i + 7 ]) s

unfoldable pub edit_content :
    ℕ → Property → String → Field → Form → List Property → Outcome (Form × List Property)
edit_content i p s f form ps =
    let value = text (content_of s) in
    let ps' = set ps i (record p { value = value }) in
    elim p.validation [
      | none ↦ thrown (form, ps')
      | some v ↦
          settle_entry p.name (some f.invalid)
            (record f { invalid = file_invalid value (file_name_found v p) }) form ps'
    ]

unfoldable pub edit_file : ℕ → Property → Form → List Property → Outcome (Form × List Property)
edit_file i p form ps = elim (lookup p.name form.fields) [
  | none ↦ thrown (form, ps)
  | some f ↦ elim p.value [
    | absent ↦ thrown (form, ps)
    | items xs ↦ thrown (form, ps)
    | text s ↦ edit_content i p s f form ps
  ]
]

-- A value, or an element of a list.
unfoldable pub edit_value :
    Engine → String → Value → Property → Form → List Property → Outcome (Form × List Property)
edit_value engine key value p form ps = elim (lookup key form.fields) [
  | none ↦ thrown (form, ps)
  | some f ↦ elim (judge engine p.validation p.required value) [
    | none ↦ thrown (form, ps)
    | some wrong ↦ settle_entry key (some f.invalid) (record f { invalid = wrong }) form ps
  ]
]

unfoldable pub edit_property :
    Engine → EditKind → (i j : ℕ) → Property → Form → List Property → Outcome (Form × List Property)
edit_property engine filename_field i j p form ps = edit_filename p form ps
edit_property engine file i j p form ps = edit_file i p form ps
edit_property engine other_kind i j p form ps = edit_value engine p.name p.value p form ps
edit_property engine list_item i j p form ps = elim (element_of p.value j) [
  | none ↦ thrown (form, ps)
  | some value ↦ edit_value engine (p.name ⁺ to_string j) value p form ps
]

-- `validateForm`
unfoldable pub validate_form :
    Engine → EditKind → (i j : ℕ) → Form → List Property → Outcome (Form × List Property)
validate_form engine kind i j form ps = elim (get_elem? ps i) [
  | none ↦ thrown (form, ps)
  | some p ↦ edit_property engine kind i j p form ps
]

-- `delete`
unfoldable pub delete_key {ℓ} : {V : Type ℓ} → String → List (String × V) → List (String × V)
delete_key key [] = []
delete_key key (e ∷ es) = let rest = delete_key key es in if e.0 == key then rest else e ∷ rest

-- `removeFromList`
unfoldable pub remove_from_list : Property → ℕ → Form → Form
remove_from_list p j form = record form { fields = delete_key (p.name ⁺ to_string j) form.fields }

-- `addToList`: a value that is no list throws, a text when it is pushed to.
unfoldable pub add_to_list : Property → Form → Outcome (Form × Property)
add_to_list p form = elim p.value [
  | absent ↦ thrown (form, p)
  | text s ↦ thrown (
    record form {
      fields =
          insert (p.name ⁺ to_string (String.count s))
            (record { invalid = true; filename_invalid = none }) form.fields;
    },
    p,
  )
  | items xs ↦ done (
    record form {
      fields =
          insert (p.name ⁺ to_string (length xs))
            (record { invalid = true; filename_invalid = none }) form.fields;
    },
    record p { value = items (xs ++ some "" ∷ []) },
  )
]
