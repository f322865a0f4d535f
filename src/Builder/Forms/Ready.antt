-- ===== src/Builder/Forms/Ready.antt =====
-- Operators whose properties have validations and whose forms have the entries that the scripts read:
-- on these `updateJSON` and `validateState` throw nothing.
use de_pipeline_tool.Prelude.{
  ℕ, zero, suc, ◌+◌, String, Bool, true, false, List, [], ◌∷◌, ◌++◌, none, some, ◌≡◌, refl,
  if◌then◌else◌, ◌⁺◌, to_string, arith, All, is_some, inl, inr, Option-cases, done, is_done,
  is_done-eq-done,
}
use de_pipeline_tool.Builder.Model.{Property, Field, Form, Operator, lookup, insert, lookup-insert}
use de_pipeline_tool.Builder.Json.{is_set}
use de_pipeline_tool.Builder.Forms.{
  check_entry, check_entries, value_length, check_property, check_properties, validate_state,
}

-- The form has an entry for the key.
abbrev pub HasEntry : List (String × Field) → String → Type 0
HasEntry fs key = is_some (lookup key fs) ≡ true

-- It has entries for the `left` elements of a list from number `j`.
abbrev pub HasEntries : List (String × Field) → String → (j left : ℕ) → Type 0
HasEntries fs name j zero = Unit
HasEntries fs name j (suc left) = HasEntry fs (name ⁺ to_string j) × HasEntries fs name (j + 1) left

abbrev pub CoversAs : List (String × Field) → String → ℕ → (is_list has_value : Bool) → Type 0
CoversAs fs name n false has_value = HasEntry fs name
CoversAs fs name n true false = Unit
CoversAs fs name n true true = HasEntries fs name 0 n

-- It has the entries for the property: one for its name, or one for each element of its list.
abbrev pub Covers : List (String × Field) → Property → Type 0
Covers fs p = elim p.validation [
  | none ↦ ⊥
  | some v ↦ CoversAs fs p.name (value_length p.value) v.list (is_set p.value)
]

-- Every property has its validation, and a form that is there covers the properties.
pub record IsReady (o : Operator) : Type 0 where
  pub validated : All (λ p. is_some p.validation ≡ true) o.properties
  pub covered : (f : Form) → o.form ≡ some f → All (Covers f.fields) o.properties

-- A form with more entries.
pub insert-HasEntry :
    (key a : String) (f : Field) (fs : List (String × Field))
    → HasEntry fs a
    → HasEntry (insert key f fs) a
insert-HasEntry key a f fs h = ground (arith, lookup-insert key a f fs)

pub HasEntries-mono :
    (fs fs' : List (String × Field))
    → ((a : String) → HasEntry fs a → HasEntry fs' a)
    → (name : String) (j n : ℕ) → HasEntries fs name j n
    → HasEntries fs' name j n
HasEntries-mono fs fs' k name j zero h = tt
HasEntries-mono fs fs' k name j (suc n) (p, h) =
    (k (name ⁺ to_string j) p, HasEntries-mono fs fs' k name (j + 1) n h)

pub CoversAs-mono :
    (fs fs' : List (String × Field))
    → ((a : String) → HasEntry fs a → HasEntry fs' a)
    → (name : String) (n : ℕ) (b c : Bool) → CoversAs fs name n b c
    → CoversAs fs' name n b c
CoversAs-mono fs fs' k name n false c h = k name h
CoversAs-mono fs fs' k name n true false h = tt
CoversAs-mono fs fs' k name n true true h = HasEntries-mono fs fs' k name 0 n h

pub Covers-mono :
    (fs fs' : List (String × Field))
    → ((a : String) → HasEntry fs a → HasEntry fs' a)
    → (p : Property) → Covers fs p
    → Covers fs' p
Covers-mono fs fs' k p h = elim (Option-cases p.validation) [
  | inl e ↦ absurd (rw e at h)
  | inr (v, e) ↦
      rw e
        (CoversAs-mono fs fs' k p.name (value_length p.value) v.list (is_set p.value) (rw e at h))
]

check_entry-is_done :
    (fs : List (String × Field)) (key : String) (bad : List String)
    → HasEntry fs key
    → is_done (check_entry fs key bad) ≡ true
unfolding check_entry
check_entry-is_done fs key bad h = ground arith

check_entries-is_done :
    (fs : List (String × Field)) (name : String) (j left : ℕ) (bad : List String)
    → HasEntries fs name j left
    → is_done (check_entries fs name j left bad) ≡ true
unfolding check_entries
check_entries-is_done fs name j zero bad h = refl
check_entries-is_done fs name j (suc left) bad (p, h) =
    let (bad', e) = is_done-eq-done _ (check_entry-is_done fs (name ⁺ to_string j) bad p) in
    rw (e, check_entries) (check_entries-is_done fs name (j + 1) left bad' h)

check_as-is_done :
    (fs : List (String × Field)) (name : String) (n : ℕ) (bad : List String)
    (is_list has_value : Bool)
    → CoversAs fs name n is_list has_value
    → is_done (
        if is_list
        then if has_value then check_entries fs name 0 n bad else done (bad ++ (name ⁺ "0") ∷ [])
        else check_entry fs name bad)
      ≡ true
check_as-is_done fs name n bad false c k = check_entry-is_done fs name bad k
check_as-is_done fs name n bad true false k = refl
check_as-is_done fs name n bad true true k = check_entries-is_done fs name 0 n bad k

check_property-is_done :
    (fs : List (String × Field)) (p : Property) (bad : List String)
    → Covers fs p
    → is_done (check_property fs p bad) ≡ true
unfolding check_property
check_property-is_done fs p bad h = elim (Option-cases p.validation) [
  | inl e ↦ absurd (rw e at h)
  | inr (v, e) ↦
      rw e
        (check_as-is_done fs p.name (value_length p.value) bad v.list (is_set p.value) (rw e at h))
]

check_properties-is_done :
    (fs : List (String × Field)) (ps : List Property) (bad : List String)
    → All (Covers fs) ps
    → is_done (check_properties fs ps bad) ≡ true
unfolding check_properties
check_properties-is_done fs [] bad h = refl
check_properties-is_done fs (p ∷ ps) bad (c, h) =
    let (bad', e) = is_done-eq-done _ (check_property-is_done fs p bad c) in
    rw (e, check_properties) (check_properties-is_done fs ps bad' h)

pub validate_state-is_done :
    (f : Form) (ps : List Property)
    → All (Covers f.fields) ps
    → is_done (validate_state f ps) ≡ true
unfolding validate_state
validate_state-is_done f ps h =
    let (bad, e) = is_done-eq-done _ (
      check_properties-is_done f.fields ps
        (if f.operator_name_invalid then "operatorName" ∷ [] else []) h) in
    rw e refl
