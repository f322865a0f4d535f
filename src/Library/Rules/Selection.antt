-- ===== src/Library/Rules/Selection.antt =====
-- The selected rule of the operator library stays a rule of the list.
use de_pipeline_tool.Prelude.{
  ℕ, zero, suc, ◌+◌, ◌-◌, ◌<◌, length, length-append, true, false, List, [], ◌∷◌, Option, none,
  some, ◌≡◌, refl, subst, ◌⊎◌, inl, inr, ◌==◌, eqb, ltb, get_elem?, remove_at, arith, Any, Outcome,
  state_of, Bool-cases, Option-cases,
}
use de_pipeline_tool.Library.Rules.{
  Rule, Scope, select_rule, receive_rules, fresh_rule, new_rule, with_rules, assign_rule, on_active,
  configure_rule, add_option, delete_option, is_active, select_near, delete_rule,
}

abbrev pub OnList : Rule → List Rule → Type 0
OnList r rs = Any (λ x. x ≡ r) rs

-- There are no rules, or the selected one is on the list.
unfoldable pub IsSelected : Scope → Type 0
IsSelected s = (s.rules ≡ []) ⊎ ((r : Rule) × (s.active ≡ some r) × OnList r s.rules)

get-OnList :
    (rs : List Rule) (i : ℕ) → i < length rs → (r : Rule) × (get_elem? rs i ≡ some r) × OnList r rs
get-OnList [] i h = absurd (omega arith)
get-OnList (r ∷ rs) zero h = (r, refl, inl refl)
get-OnList (r ∷ rs) (suc i) h =
    let (x, e, there) = get-OnList rs i (omega arith) in (x, e, inr there)

-- A selection in range.
select_rule-IsSelected : (i : ℕ) (s : Scope) → i < length s.rules → IsSelected (select_rule i s)
unfolding select_rule IsSelected
select_rule-IsSelected i s h = inr (get-OnList s.rules i h)

new_rule-IsSelected : (s : Scope) → IsSelected (new_rule s)
unfolding new_rule
new_rule-IsSelected s =
    select_rule-IsSelected (length s.rules) _
      (omega (arith, length-append s.rules (fresh_rule s.next_ref ∷ [])))

receive_rules-IsSelected : (rs : List Rule) (s : Scope) → IsSelected (receive_rules rs s)
unfolding receive_rules IsSelected
receive_rules-IsSelected [] s = inl refl
receive_rules-IsSelected (r ∷ rs) s = select_rule-IsSelected 0 _ (omega arith)

with_rules-OnList :
    (r a : Rule) (rs : List Rule)
    → OnList a rs
    → eqb a.ref r.ref ≡ true
    → OnList r (with_rules r rs)
with_rules-OnList r a [] h k = absurd h
with_rules-OnList r a (x ∷ rs) (inl e) k = inl (rw (e, k) refl)
with_rules-OnList r a (x ∷ rs) (inr there) k = inr (with_rules-OnList r a rs there k)

assign_rule-IsSelected :
    (r a : Rule) (s : Scope)
    → s.active ≡ some a
    → eqb a.ref r.ref ≡ true
    → IsSelected s
    → IsSelected (assign_rule r s)
unfolding assign_rule IsSelected
assign_rule-IsSelected r a s h k (inl none_left) = inl (rw none_left refl)
assign_rule-IsSelected r a s h k (inr (b, e, there)) =
    let q : b ≡ a = cc in
    inr (r, refl, with_rules-OnList r a s.rules (subst (λ x. OnList x s.rules) q there) k)

length-zero : (rs : List Rule) → eqb (length rs) 0 ≡ true → rs ≡ []
length-zero [] h = refl
length-zero (r ∷ rs) h = ground arith

length-remove_at :
    (rs : List Rule) (i : ℕ) → i < length rs → length (remove_at rs i) + 1 ≡ length rs
length-remove_at [] i h = absurd (omega arith)
length-remove_at (r ∷ rs) zero h = omega arith
length-remove_at (r ∷ rs) (suc i) h = omega (arith, length-remove_at rs i (omega arith))

get-length : (rs : List Rule) (i : ℕ) (r : Rule) → get_elem? rs i ≡ some r → i < length rs
get-length [] i r h = cc
get-length (x ∷ rs) zero r h = omega arith
get-length (x ∷ rs) (suc i) r h = omega (arith, get-length rs i r h)

no_rules :
    (s : Scope) (a : Option Rule) (n : ℕ)
    → s.rules ≡ []
    → IsSelected (record s { active = a; next_ref = n })
unfolding IsSelected
no_rules s a n e = inl e

select_near-IsSelected : (i : ℕ) (s : Scope) → i < length s.rules + 1 → IsSelected (select_near i s)
unfolding select_near
select_near-IsSelected i s h = elim (Bool-cases (eqb (length s.rules) 0)) [
  | inl e ↦ rw e (no_rules s _ _ (length-zero s.rules e))
  | inr e ↦ elim (Bool-cases (ltb i (length s.rules))) [
    | inl inside ↦ rw (e, inside) (select_rule-IsSelected i s (ground arith))
    | inr behind ↦ rw (e, behind) (select_rule-IsSelected (i - 1) s (ground arith))
  ]
]

remove_at-OnList :
    (rs : List Rule) (i : ℕ) (r a : Rule)
    → get_elem? rs i ≡ some r
    → eqb a.ref r.ref ≡ false
    → OnList a rs
    → OnList a (remove_at rs i)
remove_at-OnList [] i r a h k there = absurd there
remove_at-OnList (x ∷ rs) zero r a h k (inl e) = let q : a.ref ≡ r.ref = cc in ground (arith, q)
remove_at-OnList (x ∷ rs) zero r a h k (inr there) = there
remove_at-OnList (x ∷ rs) (suc i) r a h k (inl e) = inl e
remove_at-OnList (x ∷ rs) (suc i) r a h k (inr there) = inr (remove_at-OnList rs i r a h k there)

still_selected :
    (r : Rule) (i : ℕ) (s : Scope)
    → get_elem? s.rules i ≡ some r
    → is_active r s.active ≡ false
    → IsSelected s
    → IsSelected (record s { rules = remove_at s.rules i })
unfolding IsSelected
still_selected r i s h e (inl none_left) = inl (rw none_left refl)
still_selected r i s h e (inr (a, f, there)) =
    inr (a, f, remove_at-OnList s.rules i r a h (ground (arith, f)) there)

delete_rule-IsSelected :
    (r : Rule) (i : ℕ) (s : Scope)
    → get_elem? s.rules i ≡ some r
    → IsSelected s
    → IsSelected (delete_rule r i s)
unfolding delete_rule
delete_rule-IsSelected r i s h k = elim (Bool-cases (is_active r s.active)) [
  | inl e ↦
      let n = get-length s.rules i r h in
      let m = length-remove_at s.rules i n in rw e (select_near-IsSelected i _ (omega arith))
  | inr e ↦ rw e (still_selected r i s h e k)
]

on_active-IsSelected :
    (f : Rule → Outcome Scope) (o : Option Rule) (s : Scope)
    → ((r : Rule) → o ≡ some r → IsSelected (state_of (f r)))
    → IsSelected s
    → IsSelected (state_of (on_active f o s))
unfolding on_active
on_active-IsSelected f none s k h = h
on_active-IsSelected f (some r) s k h = k r refl

configure_rule-IsSelected : (s : Scope) → IsSelected s → IsSelected (state_of (configure_rule s))
unfolding configure_rule
configure_rule-IsSelected s h =
    on_active-IsSelected _ s.active s
      (λ r e. elim (Bool-cases (r.type == "textInput")) [
        | inl plain ↦ rw plain h
        | inr other ↦
            rw other (assign_rule-IsSelected (record r { list = false }) r s e (ground arith) h)
      ])
      h

add_option-IsSelected : (s : Scope) → IsSelected s → IsSelected (state_of (add_option s))
unfolding add_option
add_option-IsSelected s h =
    on_active-IsSelected _ s.active s (λ r e. assign_rule-IsSelected _ r s e (ground arith) h) h

delete_option-IsSelected :
    (i : ℕ) (s : Scope) → IsSelected s → IsSelected (state_of (delete_option i s))
unfolding delete_option
delete_option-IsSelected i s h =
    on_active-IsSelected _ s.active s
      (λ r e. elim (Option-cases r.options) [
        | inl f ↦ rw f h
        | inr (options, f) ↦ rw f (
            assign_rule-IsSelected (record r { options = some (remove_at options i) }) r s e
              (ground arith) h)
      ])
      h

-- What the page does to the rules: it selects rules that it shows, and deletes a rule at its number, which a late
-- answer to `deleteValidation` need not do.
pub data Step : Scope → Scope → Type 0 where
  load : (rs : List Rule) (s : Scope) → Step s (receive_rules rs s)
  create : (s : Scope) → Step s (new_rule s)
  select : (i : ℕ) (s : Scope) → i < length s.rules → Step s (select_rule i s)
  configure : (s : Scope) → Step s (state_of (configure_rule s))
  drop : (r : Rule) (i : ℕ) (s : Scope) → get_elem? s.rules i ≡ some r → Step s (delete_rule r i s)
  extend : (s : Scope) → Step s (state_of (add_option s))
  shorten : (i : ℕ) (s : Scope) → Step s (state_of (delete_option i s))

pub data Steps : Scope → Scope → Type 0 where
  stop : (s : Scope) → Steps s s
  step : (s t u : Scope) → Step s t → Steps t u → Steps s u

Step-IsSelected : (s t : Scope) → Step s t → IsSelected s → IsSelected t
Step-IsSelected _ _ (load rs s) h = receive_rules-IsSelected rs s
Step-IsSelected _ _ (create s) h = new_rule-IsSelected s
Step-IsSelected _ _ (select i s p) h = select_rule-IsSelected i s p
Step-IsSelected _ _ (configure s) h = configure_rule-IsSelected s h
Step-IsSelected _ _ (drop r i s p) h = delete_rule-IsSelected r i s p h
Step-IsSelected _ _ (extend s) h = add_option-IsSelected s h
Step-IsSelected _ _ (shorten i s) h = delete_option-IsSelected i s h

-- From a scope without rules, or whose selected rule is on the list, every sequence of loading, creating,
-- selecting, configuring and deleting rules and of changing their options, thrown ones included, leads to such
-- a scope, where every deletion is carried out while the rule still has the number with which it was asked.
pub Steps-IsSelected : (s t : Scope) → Steps s t → IsSelected s → IsSelected t
Steps-IsSelected _ _ (stop s) h = h
Steps-IsSelected _ _ (step s t u p q) h = Steps-IsSelected t u q (Step-IsSelected s t p h)
