-- ===== src/Library/Operators.antt =====
-- The operators of operator-library.js: `addOperator`, `deleteOperator`, `addProperty`,
-- `removeProperty`, `sendMetadata`, and the answers on `opSocket`.
pub mod Deletion
pub mod Saving
use de_pipeline_tool.Prelude.{
  ℕ, zero, suc, ◌+◌, ◌-◌, ◌≤◌, length, String, Bool, true, false, not, ◌&&◌, ◌||◌, List, [], ◌∷◌,
  ◌++◌, Option, none, some, ◌≡◌, refl, ap, ◌==◌, if◌then◌else◌, eqb, get_elem?, remove_at, codes,
  arith, Outcome, done, thrown, Bool-cases,
}

pub record Property : Type 0 where
  pub name : String
  pub display_name : String
  pub required : Bool
  pub type : String
  pub description : String

-- A field `_id`, which is undefined in `{}` and null in a new operator.
pub data ServerId : Type 0 where
  missing null : ServerId
  text : String → ServerId

-- An operator; `ref` is the identity of the object. The object `{}` has no properties.
pub record Operator : Type 0 where
  pub ref : ℕ
  pub name : String
  pub display_name : String
  pub class_name : String
  pub type : String
  pub jar_name : String
  pub properties : Option (List Property)
  pub id : ServerId

-- What is sent to save an operator.
pub record Metadata : Type 0 where
  pub name : String
  pub class_name : String
  pub display_name : String
  pub properties : List Property
  pub jar_name : String
  pub type : String
  pub id : ServerId

pub data Request : Type 0 where
  delete_metadata : String → Request
  save_metadata : Metadata → Option String → Request

-- `active` is undefined where an element before the first of an empty list is read.
pub record Scope : Type 0 where
  pub operators : List Operator
  pub active : Option Operator
  pub last_active : Option ℕ
  pub use_jar : Bool
  pub disable_save : Bool
  pub next_ref : ℕ
  pub requests : List Request

is_prefix : List ℕ → List ℕ → Bool
is_prefix [] t = true
is_prefix (c ∷ s) [] = false
is_prefix (c ∷ s) (d ∷ t) = eqb c d && is_prefix s t

occurs : List ℕ → List ℕ → Bool
occurs s [] = is_prefix s []
occurs s (d ∷ t) = is_prefix s (d ∷ t) || occurs s t

-- `t.indexOf(s) > -1`
unfoldable pub mentions : String → String → Bool
unfolding occurs is_prefix
mentions t s = occurs (codes s) (codes t)

-- `data.indexOf(operator._id) > -1`, where `null` and `undefined` are looked for as their texts.
abbrev pub names_id : String → Operator → Bool
names_id answer o = elim o.id [
  | missing ↦ mentions answer "undefined"
  | null ↦ mentions answer "null"
  | text u ↦ mentions answer u
]

-- The loop over the operators: behind a `splice` the index moves on, past the element that took the
-- place.
unfoldable pub drop_deleted : (Operator → Bool) → List Operator → List Operator
drop_deleted gone [] = []
drop_deleted gone (o ∷ []) = if gone o then [] else o ∷ []
drop_deleted gone (o ∷ p ∷ os) =
    let skipped = p ∷ drop_deleted gone os in
    let kept = o ∷ drop_deleted gone (p ∷ os) in if gone o then skipped else kept

abbrev with_id : ℕ → String → Operator → Operator
with_id ref u o = if eqb o.ref ref then record o { id = text u } else o

abbrev with_id_all : ℕ → String → List Operator → List Operator
with_id_all ref u [] = []
with_id_all ref u (o ∷ os) = with_id ref u o ∷ with_id_all ref u os

-- `opSocket.onMessage`: an answer that is no deletion is the id of the operator saved last; without
-- one it throws.
unfoldable pub receive : String → Scope → Outcome Scope
receive answer s =
    if mentions answer "Deleted"
    then done (record s { operators = drop_deleted (names_id answer) s.operators })
    else elim s.last_active [
      | none ↦ thrown s
      | some ref ↦ done (record s {
        operators = with_id_all ref answer s.operators;
        active = elim s.active [ none ↦ none | some o ↦ some (with_id ref answer o) ];
      })
    ]

abbrev pub no_properties : ℕ → Operator
no_properties ref = record {
  ref = ref;
  name = "";
  display_name = "";
  class_name = "";
  type = "";
  jar_name = "";
  properties = none;
  id = missing;
}

abbrev pub new_operator : ℕ → Operator
new_operator ref = record (no_properties ref) { type = "input"; properties = some []; id = null }

-- `addOperator`
unfoldable pub add_operator : Scope → Scope
add_operator s = record s {
  operators = s.operators ++ new_operator s.next_ref ∷ [];
  active = some (new_operator s.next_ref);
  use_jar = true;
  next_ref = s.next_ref + 1;
}

abbrev assign_all : Operator → List Operator → List Operator
assign_all o [] = []
assign_all o (p ∷ ps) = (if eqb p.ref o.ref then o else p) ∷ assign_all o ps

-- An assignment to a field of the selected operator.
abbrev assign : Operator → Scope → Scope
assign o s = record s { active = some o; operators = assign_all o s.operators }

-- A function of the properties of the selected operator; it throws where there are none.
unfoldable pub on_properties : (List Property → List Property) → Scope → Outcome Scope
on_properties f s = elim s.active [
  | none ↦ thrown s
  | some o ↦ elim o.properties [
    | none ↦ thrown s
    | some ps ↦ done (assign (record o { properties = some (f ps) }) s)
  ]
]

abbrev pub new_property : Property
new_property = record {
  name = "";
  display_name = "";
  required = false;
  type = "String";
  description = "";
}

unfoldable pub add_property : Scope → Outcome Scope
add_property s = on_properties (λ ps. ps ++ new_property ∷ []) s

unfoldable pub remove_property : ℕ → Scope → Outcome Scope
remove_property index s = on_properties (λ ps. remove_at ps index) s

-- The test `id && …`, which an empty text fails.
abbrev pub has_id : ServerId → Bool
has_id (text u) = not (u == "")
has_id _ = false

abbrev pub same_id : ServerId → ServerId → Bool
same_id missing missing = true
same_id null null = true
same_id (text u) (text v) = u == v
same_id _ _ = false

abbrev pub id_text : ServerId → String
id_text (text u) = u
id_text _ = ""

-- The selection behind a deletion: the operator before, or `{}`. (`active` is read first, and throws
-- where it is undefined.)
unfoldable pub select_before : ℕ → ServerId → Scope → Outcome Scope
select_before index id s = elim s.active [
  | none ↦ thrown s
  | some o ↦
      if same_id o.id id
      then elim index [
        | zero ↦
            done (record s { active = some (no_properties s.next_ref); next_ref = s.next_ref + 1 })
        | suc before ↦ done (record s { active = get_elem? s.operators before })
      ]
      else done s
]

-- `deleteOperator`: an operator with an id goes when the answer comes.
unfoldable pub delete_operator : ℕ → ServerId → Scope → Outcome Scope
delete_operator index id s = select_before index id (
    if has_id id
    then record s { requests = s.requests ++ delete_metadata (id_text id) ∷ [] }
    else record s { operators = remove_at s.operators index })

-- `sendMetadata`, with the name of the file that is chosen and what was read of it.
unfoldable pub send_metadata : String → Option String → Scope → Outcome Scope
send_metadata chosen bytes s = elim s.active [
  | none ↦ thrown s
  | some o ↦ elim o.properties [
    | none ↦ thrown s
    | some ps ↦ done (record s {
      requests =
          s.requests
          ++ save_metadata
              (record {
                name = o.name;
                class_name = o.class_name;
                display_name = o.display_name;
                properties = ps;
                jar_name = if has_id o.id && chosen == "" then o.jar_name else chosen;
                type = o.type;
                id = if has_id o.id then o.id else missing;
              })
              bytes
            ∷ [];
      last_active = some o.ref;
      disable_save = false;
    })
  ]
]

-- `saveOperator`: a new file is read first, and `sendMetadata` is the callback of that.
unfoldable pub save_operator : Bool → String → Scope → Outcome Scope
save_operator has_file chosen s =
    let s' = record s { disable_save = true } in
    elim s.active [
      | none ↦ thrown s'
      | some o ↦ if has_file then done s' else send_metadata chosen none s'
    ]
