-- ===== src/Builder/Steps/Entries.antt =====
-- The entries that a form has for a property and for the values of a list.
use de_pipeline_tool.Prelude.{
  ℕ, zero, suc, ◌+◌, ◌<◌, length, get_elem?, set, String, true, false, List, [], ◌∷◌, Option, some,
  ◌≡◌, refl, sym, subst, arith, ◌⁺◌, to_string,
}
use de_pipeline_tool.Builder.Model.{Property, text, items, Validation, Field}
use de_pipeline_tool.Builder.Json.{is_set}
use de_pipeline_tool.Builder.Forms.{value_length}
use de_pipeline_tool.Builder.Forms.Ready.{HasEntry, HasEntries, CoversAs, Covers}

pub Covers-as :
    (fs : List (String × Field)) (p : Property) (v : Validation)
    → p.validation ≡ some v
    → Covers fs p
    → CoversAs fs p.name (value_length p.value) v.list (is_set p.value)
Covers-as fs p v e h = rw e at h

pub Covers-of :
    (fs : List (String × Field)) (p : Property) (v : Validation)
    → p.validation ≡ some v
    → CoversAs fs p.name (value_length p.value) v.list (is_set p.value)
    → Covers fs p
Covers-of fs p v e h = rw e h

pub Covers-entry :
    (fs : List (String × Field)) (p : Property) (v : Validation)
    → p.validation ≡ some v
    → v.list ≡ false
    → Covers fs p
    → HasEntry fs p.name
Covers-entry fs p v e k h =
    subst (λ b. CoversAs fs p.name (value_length p.value) b (is_set p.value)) k
      (Covers-as fs p v e h)

pub Covers-text :
    (fs : List (String × Field)) (p : Property) (v : Validation) (s : String)
    → p.validation ≡ some v
    → v.list ≡ false
    → HasEntry fs p.name
    → Covers fs (record p { value = text s })
Covers-text fs p v s e k h =
    Covers-of fs (record p { value = text s }) v e
      (subst (λ b. CoversAs fs p.name (value_length (text s)) b (is_set (text s))) (sym k) h)

pub Covers-entries :
    (fs : List (String × Field)) (p : Property) (v : Validation) (xs : List (Option String))
    → p.validation ≡ some v
    → v.list ≡ true
    → p.value ≡ items xs
    → Covers fs p
    → HasEntries fs p.name 0 (length xs)
unfolding is_set
Covers-entries fs p v xs e k value h =
    let c =
      subst (λ b. CoversAs fs p.name (value_length p.value) b (is_set p.value)) k
        (Covers-as fs p v e h) in
    subst (λ w. CoversAs fs p.name (value_length w) true (is_set w)) value c

pub Covers-items :
    (fs : List (String × Field)) (p : Property) (v : Validation) (xs : List (Option String))
    → p.validation ≡ some v
    → v.list ≡ true
    → HasEntries fs p.name 0 (length xs)
    → Covers fs (record p { value = items xs })
unfolding is_set
Covers-items fs p v xs e k h =
    Covers-of fs (record p { value = items xs }) v e
      (subst (λ b. CoversAs fs p.name (length xs) b true) (sym k) h)

pub HasEntries-at :
    (fs : List (String × Field)) (name : String) (from n j : ℕ)
    → HasEntries fs name from n
    → j < n
    → HasEntry fs (name ⁺ to_string (from + j))
HasEntries-at fs name from zero j h l = absurd (omega arith)
HasEntries-at fs name from (suc n) zero (p, h) l =
    let e : from ≡ from + 0 = omega arith in subst (λ k. HasEntry fs (name ⁺ to_string k)) e p
HasEntries-at fs name from (suc n) (suc j) (p, h) l =
    let e : (from + 1) + j ≡ from + suc j = omega arith in
    subst (λ k. HasEntry fs (name ⁺ to_string k)) e
      (HasEntries-at fs name (from + 1) n j h (omega arith))

pub HasEntries-snoc :
    (fs : List (String × Field)) (name : String) (from n : ℕ)
    → HasEntries fs name from n
    → HasEntry fs (name ⁺ to_string (from + n))
    → HasEntries fs name from (suc n)
HasEntries-snoc fs name from zero h k =
    let e : from + 0 ≡ from = omega arith in (subst (λ m. HasEntry fs (name ⁺ to_string m)) e k, tt)
HasEntries-snoc fs name from (suc n) (p, h) k =
    let e : from + suc n ≡ (from + 1) + n = omega arith in
    (p, HasEntries-snoc fs name (from + 1) n h (subst (λ m. HasEntry fs (name ⁺ to_string m)) e k))

pub get-set-length :
    (xs : List (Option String)) (j : ℕ) (s : String)
    → j < length xs
    → get_elem? (set xs j (some s)) j ≡ some (some s)
get-set-length [] j s h = absurd (omega arith)
get-set-length (x ∷ xs) zero s h = refl
get-set-length (x ∷ xs) (suc j) s h = get-set-length xs j s (omega arith)
