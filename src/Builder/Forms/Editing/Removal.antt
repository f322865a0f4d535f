-- ===== src/Builder/Forms/Editing/Removal.antt =====
-- What is left of a list of values behind `removeFromList`, and that a validation throws there.
use de_pipeline_tool.Prelude.{
  ℕ, zero, suc, ◌+◌, ◌<◌, get_elem?, set, remove_at, length, String, true, false, List, [], ◌∷◌,
  Option, none, some, ◌≡◌, refl, ap, subst, ◌⁺◌, to_string, arith, Outcome, done, thrown, is_done,
}
use de_pipeline_tool.Builder.Model.{Property, items, Validation, Field, Form, lookup}
use de_pipeline_tool.Builder.Json.{is_set}
use de_pipeline_tool.Builder.Forms.{
  check_entry, check_entries, check_property, check_properties, validate_state, flagged_outcome,
}
use de_pipeline_tool.Builder.Forms.Editing.{delete_key, remove_from_list}

lookup-delete_key {ℓ} :
    {V : Type ℓ} (key : String) (fs : List (String × V)) → lookup key (delete_key key fs) ≡ none
unfolding lookup delete_key
lookup-delete_key key [] = refl
lookup-delete_key key (e ∷ fs) = let rest = lookup-delete_key key fs in ground arith

not_done :
    (r : Outcome (List String)) (f : List String → Outcome (List String))
    → ((bad : List String) → is_done (f bad) ≡ false)
    → is_done (elim r [ thrown bad ↦ thrown bad | done bad ↦ f bad ]) ≡ false
not_done (done bad) f h = h bad
not_done (thrown bad) f h = refl

thrown_first :
    (r : Outcome (List String)) (f : List String → Outcome (List String))
    → is_done r ≡ false
    → is_done (elim r [ thrown bad ↦ thrown bad | done bad ↦ f bad ]) ≡ false
thrown_first (done bad) f h = cc
thrown_first (thrown bad) f h = refl

check_entry-missing :
    (fs : List (String × Field)) (key : String) (bad : List String)
    → lookup key fs ≡ none
    → is_done (check_entry fs key bad) ≡ false
unfolding check_entry
check_entry-missing fs key bad gone = rw (gone, is_done) refl

-- The loop over a list throws where an entry is missing.
check_entries-missing :
    (fs : List (String × Field)) (name : String) (j left k : ℕ) (bad : List String)
    → k < left
    → lookup (name ⁺ to_string (j + k)) fs ≡ none
    → is_done (check_entries fs name j left bad) ≡ false
unfolding check_entries
check_entries-missing fs name j zero k bad h gone = absurd (omega arith)
check_entries-missing fs name j (suc left) zero bad h gone =
    let first : j + 0 ≡ j = omega arith in
    thrown_first (check_entry fs (name ⁺ to_string j) bad)
      (λ b. check_entries fs name (j + 1) left b)
      (check_entry-missing fs (name ⁺ to_string j) bad
        (subst (λ n. lookup (name ⁺ to_string n) fs ≡ none) first gone))
check_entries-missing fs name j (suc left) (suc k) bad h gone =
    let next : j + suc k ≡ (j + 1) + k = omega arith in
    not_done (check_entry fs (name ⁺ to_string j) bad) (λ b. check_entries fs name (j + 1) left b)
      (λ b.
        check_entries-missing fs name (j + 1) left k b (omega arith)
          (subst (λ n. lookup (name ⁺ to_string n) fs ≡ none) next gone))

check_property-missing :
    (fs : List (String × Field)) (p : Property) (v : Validation) (xs : List (Option String)) (k : ℕ)
    (bad : List String)
    → p.validation ≡ some v
    → v.list ≡ true
    → p.value ≡ items xs
    → k < length xs
    → lookup (p.name ⁺ to_string k) fs ≡ none
    → is_done (check_property fs p bad) ≡ false
unfolding check_property is_set
check_property-missing fs p v xs k bad e l value h gone =
    let number : k ≡ 0 + k = omega arith in
    rw (e, l, value)
      (check_entries-missing fs p.name 0 (length xs) k bad h
        (subst (λ n. lookup (p.name ⁺ to_string n) fs ≡ none) number gone))

check_properties-missing :
    (fs : List (String × Field)) (p : Property)
    → ((bad : List String) → is_done (check_property fs p bad) ≡ false)
    → (ps : List Property) (i : ℕ) (bad : List String) → get_elem? ps i ≡ some p
    → is_done (check_properties fs ps bad) ≡ false
unfolding check_properties
check_properties-missing fs p h [] i bad e = cc
check_properties-missing fs p h (q ∷ ps) zero bad e =
    let same : p ≡ q = cc in
    thrown_first (check_property fs q bad) (λ b. check_properties fs ps b)
      (subst (λ r. is_done (check_property fs r bad) ≡ false) same (h bad))
check_properties-missing fs p h (q ∷ ps) (suc i) bad e =
    not_done (check_property fs q bad) (λ b. check_properties fs ps b)
      (λ b. check_properties-missing fs p h ps i b e)

pub get-set {ℓ} :
    {A : Type ℓ} (xs : List A) (i : ℕ) (a b : A)
    → get_elem? xs i ≡ some a
    → get_elem? (set xs i b) i ≡ some b
get-set [] i a b e = cc
get-set (x ∷ xs) zero a b e = refl
get-set (x ∷ xs) (suc i) a b e = get-set xs i a b e

length-remove_at {ℓ} :
    {A : Type ℓ} (xs : List A) (j : ℕ) → j < length xs → suc (length (remove_at xs j)) ≡ length xs
length-remove_at [] j h = absurd (omega arith)
length-remove_at (x ∷ xs) zero h = refl
length-remove_at (x ∷ xs) (suc j) h = ap suc (length-remove_at xs j (omega arith))

flagged_not_done :
    (f : Form) (r : Outcome (List String))
    → is_done r ≡ false
    → is_done (flagged_outcome f r) ≡ false
flagged_not_done f (done bad) h = cc
flagged_not_done f (thrown bad) h = refl

-- When a value that is not the last is taken out of a list, as the link `Remove` does, the entries of the
-- form are not renumbered, and the next `validateState` of the operator throws.
pub remove_from_list-thrown :
    (form : Form) (ps : List Property) (p : Property) (v : Validation) (xs : List (Option String))
    (i j : ℕ)
    → get_elem? ps i ≡ some p
    → p.validation ≡ some v
    → v.list ≡ true
    → p.value ≡ items xs
    → suc j < length xs
    → is_done (
        validate_state
          (remove_from_list p j form)
          (set ps i (record p { value = items (remove_at xs j) })))
      ≡ false
unfolding validate_state remove_from_list
remove_from_list-thrown form ps p v xs i j at_i e l value h =
    let p' : Property = record p { value = items (remove_at xs j) } in
    let fs = delete_key (p.name ⁺ to_string j) form.fields in
    let shorter = length-remove_at xs j (omega arith) in
    flagged_not_done (record form { fields = fs }) _
      (check_properties-missing fs p'
        (λ bad.
          check_property-missing fs p' v (remove_at xs j) j bad e l refl (omega arith)
            (lookup-delete_key (p.name ⁺ to_string j) form.fields))
        (set ps i p') i _ (get-set ps i p p' at_i))
