-- ===== src/Builder/Connect/Fresh.antt =====
-- The numbers of endpoints: `setUUID` and `getNextUUID` together.
use de_pipeline_tool.Prelude.{
  ℕ, ◌≤◌, ◌<◌, true, List, [], ◌∷◌, ◌++◌, Option, none, some, ◌≡◌, refl, arith, All, All_mono,
  All-append, inl, inr, Bool-cases, Outcome, done, thrown, ◌then_run◌,
}
use native.Mathlib.Nat.{lt_trans}
use de_pipeline_tool.Builder.Model.{Operator, Storage, Scope}
use de_pipeline_tool.Builder.Scan.{is_input, is_output}
use de_pipeline_tool.Builder.Canvas.{next_uuid, with_endpoints}
use de_pipeline_tool.Builder.Connect.{
  ahead_of, ahead_of_all, source_numbers, target_numbers, with_last, with_last_outcome, set_uuid,
}

abbrev first_of : Option (List ℕ) → List ℕ
first_of none = []
first_of (some []) = []
first_of (some (n ∷ ns)) = n ∷ []

-- The numbers of the first source and of the first target endpoint of an operator.
abbrev pub first_numbers : Operator → List ℕ
first_numbers o = first_of (source_numbers o.sources) ++ first_of (target_numbers o.targets)

abbrev pub AllBelow : ℕ → List ℕ → Type 0
AllBelow n ks = All (λ k. k < n) ks

ahead_of-AllBelow :
    (ns : Option (List ℕ)) (last n : ℕ)
    → ahead_of ns last ≡ done n
    → (last ≤ n) × AllBelow n (first_of ns)
unfolding ahead_of
ahead_of-AllBelow none last n h = (ground arith, tt)
ahead_of-AllBelow (some []) last n h = cc
ahead_of-AllBelow (some (k ∷ ks)) last n h = (ground arith, (ground arith, tt))

AllBelow-le : (m n : ℕ) (ks : List ℕ) → m ≤ n → AllBelow m ks → AllBelow n ks
AllBelow-le m n [] h b = tt
AllBelow-le m n (k ∷ ks) h (p, b) = (omega arith, AllBelow-le m n ks h b)

both_parts {ℓ} :
    {S : Type ℓ} (m : Outcome S) (f : S → Outcome S) (t : S)
    → (m then_run f) ≡ done t
    → (s : S) × (m ≡ done s) × (f s ≡ done t)
both_parts (done s) f t h = (s, refl, h)
both_parts (thrown s) f t h = cc

ahead_of_all-AllBelow :
    (os : List Operator) (last n : ℕ)
    → ahead_of_all os last ≡ done n
    → (last ≤ n) × All (λ o. AllBelow n (first_numbers o)) os
unfolding ahead_of_all
ahead_of_all-AllBelow [] last n h = (ground arith, tt)
ahead_of_all-AllBelow (o ∷ os) last n h =
    let (m, both, rest) = both_parts _ (ahead_of_all os) n h in
    let (k, sources, targets) =
      both_parts (ahead_of (source_numbers o.sources) last) (ahead_of (target_numbers o.targets)) m
        both in
    let (a, p) = ahead_of-AllBelow (source_numbers o.sources) last k sources in
    let (b, q) = ahead_of-AllBelow (target_numbers o.targets) k m targets in
    let (c, later) = ahead_of_all-AllBelow os m n rest in
    (
      omega arith,
      (
        All-append (λ x. x < n) (first_of (source_numbers o.sources))
            (first_of (target_numbers o.targets))
            (AllBelow-le k n (first_of (source_numbers o.sources)) (omega arith) p)
            (AllBelow-le m n (first_of (target_numbers o.targets)) c q),
        later,
      ),
    )

set_uuid-AllBelow :
    (s s' : Scope)
    → set_uuid s ≡ done s'
    → All (λ o. AllBelow s'.storage.last_uuid (first_numbers o)) s'.state_objects
unfolding set_uuid
set_uuid-AllBelow s s' h = go (ahead_of_all s.state_objects s.storage.last_uuid) refl h
  where
    go :
        (r : Outcome ℕ)
        → ahead_of_all s.state_objects s.storage.last_uuid ≡ r
        → with_last_outcome s r ≡ done s'
        → All (λ o. AllBelow s'.storage.last_uuid (first_numbers o)) s'.state_objects
    go (thrown n) e k = cc
    go (done n) e k =
        let f : s' ≡ with_last s n = cc in
        rw f (ahead_of_all-AllBelow s.state_objects s.storage.last_uuid n e).1

-- The numbers that an item gets lie above the last one.
with_endpoints_above :
    (st : Storage) (o : Operator)
    → (is_input o.type ≡ true → o.targets ≡ none)
    → (is_output o.type ≡ true → o.sources ≡ none)
    → All (λ n. st.last_uuid < n) (first_numbers (with_endpoints st o).1)
unfolding with_endpoints next_uuid
with_endpoints_above st o hi ho = elim (Bool-cases (is_input o.type)) [
  | inl i ↦ simp (i, hi i) (omega arith, tt)
  | inr i ↦ elim (Bool-cases (is_output o.type)) [
    | inl t ↦ simp (i, t, ho t) (omega arith, tt)
    | inr t ↦ simp (i, t) (omega arith, (omega arith, tt))
  ]
]

-- Behind a `setUUID` that returns, as it runs when a system is loaded, the endpoints of an item that is
-- dropped get numbers above the first source and the first target endpoint of every operator on the
-- canvas, if the item has no endpoints of a kind that its type does not have.
pub set_uuid-with_endpoints :
    (s s' : Scope) (item : Operator)
    → set_uuid s ≡ done s'
    → (is_input item.type ≡ true → item.targets ≡ none)
    → (is_output item.type ≡ true → item.sources ≡ none)
    → All
        (λ o.
          All
            (λ k. All (λ n. k < n) (first_numbers (with_endpoints s'.storage item).1))
            (first_numbers o))
        s'.state_objects
set_uuid-with_endpoints s s' item h hi ho =
    let above = with_endpoints_above s'.storage item hi ho in
    All_mono (λ o b. All_mono (λ k p. All_mono (λ n q. lt_trans p q) _ above) (first_numbers o) b)
      s'.state_objects (set_uuid-AllBelow s s' h)
