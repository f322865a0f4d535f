-- ===== src/Library/Rules.antt =====
-- The validation rules of operator-library.js: `newRule`, `selectRule`, `configureRule`, `deleteRule`,
-- `addOption` and `deleteOption`.
pub mod Selection
pub mod Requests
use de_pipeline_tool.Prelude.{
  ℕ, zero, suc, ◌+◌, ◌-◌, ◌<◌, length, String, Bool, true, false, ◌&&◌, List, [], ◌∷◌, ◌++◌, Option,
  none, some, ◌==◌, if◌then◌else◌, eqb, ltb, get_elem?, remove_at, or_nil, Outcome, done, thrown,
}

-- `ref` is the identity of the object.
pub record Rule : Type 0 where
  pub ref : ℕ
  pub name : String
  pub type : String
  pub list : Bool
  pub regex : Option String
  pub options : Option (List String)
  pub id : Option String

-- The selected rule is a reference, so its fields are those of the rule on the list.
pub record Scope : Type 0 where
  pub rules : List Rule
  pub active : Option Rule
  pub next_ref : ℕ

-- `selectRule`: out of range it is undefined.
unfoldable pub select_rule : ℕ → Scope → Scope
select_rule index s = record s { active = get_elem? s.rules index }

-- `validationSocket.onMessage`
unfoldable pub receive_rules : List Rule → Scope → Scope
receive_rules [] s = record s { rules = [] }
receive_rules (r ∷ rs) s = select_rule 0 (record s { rules = r ∷ rs })

abbrev pub fresh_rule : ℕ → Rule
fresh_rule ref = record {
  ref = ref;
  name = "New Rule";
  type = "textInput";
  list = false;
  regex = some ".+";
  options = none;
  id = none;
}

-- `newRule`
unfoldable pub new_rule : Scope → Scope
new_rule s =
    select_rule (length s.rules)
      (record s { rules = s.rules ++ fresh_rule s.next_ref ∷ []; next_ref = s.next_ref + 1 })

abbrev pub with_rule : Rule → Rule → Rule
with_rule r x = if eqb x.ref r.ref then r else x

abbrev pub with_rules : Rule → List Rule → List Rule
with_rules r [] = []
with_rules r (x ∷ xs) = with_rule r x ∷ with_rules r xs

-- An assignment to a field of the selected rule.
unfoldable pub assign_rule : Rule → Scope → Scope
assign_rule r s = record s { active = some r; rules = with_rules r s.rules }

-- What a function does to the selected rule; without one it throws.
unfoldable pub on_active : (Rule → Outcome Scope) → Option Rule → Scope → Outcome Scope
on_active f none s = thrown s
on_active f (some r) s = f r

-- `configureRule`: only a rule for texts may be a list.
unfoldable pub configure_rule : Scope → Outcome Scope
configure_rule s =
    on_active
      (λ r.
        if r.type == "textInput" then done s else done (assign_rule (record r { list = false }) s))
      s.active s

-- `addOption`
unfoldable pub add_option : Scope → Outcome Scope
add_option s =
    on_active
      (λ r. done (assign_rule (record r { options = some (or_nil r.options [] ++ "" ∷ []) }) s))
      s.active s

-- `deleteOption`: without options it throws.
unfoldable pub delete_option : ℕ → Scope → Outcome Scope
delete_option index s =
    on_active
      (λ r. elim r.options [
        | none ↦ thrown s
        | some options ↦
            done (assign_rule (record r { options = some (remove_at options index) }) s)
      ])
      s.active s

abbrev pub is_active : Rule → Option Rule → Bool
is_active r none = false
is_active r (some a) = eqb a.ref r.ref

-- The object `{}`.
abbrev pub blank : ℕ → Rule
blank ref = record (fresh_rule ref) { name = ""; type = ""; regex = none }

-- The selection behind a deletion: the rule that took the place, or the last one, or `{}`.
unfoldable pub select_near : ℕ → Scope → Scope
select_near index s =
    if eqb (length s.rules) 0
    then record s { active = some (blank s.next_ref); next_ref = s.next_ref + 1 }
    else if ltb index (length s.rules)
    then select_rule index s
    else select_rule (index - 1) s

-- `deleteRule`
unfoldable pub delete_rule : Rule → ℕ → Scope → Scope
delete_rule r index s =
    let s' = record s { rules = remove_at s.rules index } in
    if is_active r s.active then select_near index s' else s'
