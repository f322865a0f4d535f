-- ===== src/Library/Operators/Deletion.antt =====
-- The deletion of operators in the operator library.
use de_pipeline_tool.Prelude.{
  ℕ, zero, suc, ◌+◌, ◌≤◌, length, String, Bool, true, List, [], ◌∷◌, ◌++◌, some, ◌≡◌, refl, ap, ◌∙◌,
  if◌then◌else◌, remove_at, arith, done, get_elem?,
}
use de_pipeline_tool.Library.Operators.{
  Operator, Scope, null, mentions, names_id, drop_deleted, receive, new_operator, no_properties,
  add_operator, select_before, delete_operator,
}

-- The operators that do not pass the test, and the number of those that do.
abbrev pub without : (Operator → Bool) → List Operator → List Operator
without gone [] = []
without gone (o ∷ os) = let rest = without gone os in if gone o then rest else o ∷ rest

abbrev pub hits : (Operator → Bool) → List Operator → ℕ
hits gone [] = 0
hits gone (o ∷ os) = (if gone o then 1 else 0) + hits gone os

without_none :
    (gone : Operator → Bool) (os : List Operator) → hits gone os ≡ 0 → without gone os ≡ os
without_none gone [] h = refl
without_none gone (o ∷ os) h = ground (arith, without_none gone os)

drop_deleted-without :
    (gone : Operator → Bool) (os : List Operator)
    → hits gone os ≤ 1
    → drop_deleted gone os ≡ without gone os
unfolding drop_deleted
drop_deleted-without gone [] h = refl
drop_deleted-without gone (o ∷ []) h = ground arith
drop_deleted-without gone (o ∷ p ∷ os) h = ground (
  arith,
  drop_deleted-without gone (p ∷ os),
  drop_deleted-without gone os,
  without_none gone (p ∷ os),
  without_none gone os,
)

-- An answer that says `Deleted` and mentions the id of one operator at most takes the operators that
-- it mentions off the list, and no other; nothing is thrown and the selection stays.
pub receive-without :
    (answer : String) (s : Scope)
    → mentions answer "Deleted" ≡ true
    → hits (names_id answer) s.operators ≤ 1
    → receive answer s ≡ done (record s { operators = without (names_id answer) s.operators })
unfolding receive
receive-without answer s h k = rw (h, drop_deleted-without (names_id answer) s.operators k) refl

remove_at-snoc : (os : List Operator) (o : Operator) → remove_at (os ++ o ∷ []) (length os) ≡ os
remove_at-snoc [] o = refl
remove_at-snoc (p ∷ os) o = ap (λ l. p ∷ l) (remove_at-snoc os o)

select_before_null :
    (index : ℕ) (s : Scope) (o : Operator)
    → s.active ≡ some o
    → o.id ≡ null
    → (s' : Scope) × (select_before index null s ≡ done s')
      × (s'.operators ≡ s.operators)
      × (s'.requests ≡ s.requests)
unfolding select_before
select_before_null zero s o h k = (
  record s { active = some (no_properties s.next_ref); next_ref = s.next_ref + 1 },
  rw (h, k) refl,
  refl,
  refl,
)
select_before_null (suc index) s o h k =
    (record s { active = get_elem? s.operators index }, rw (h, k) refl, refl, refl)

-- An operator that was added and is deleted before it was saved leaves the operators as they were,
-- asks for nothing, and throws nothing.
pub add_operator-delete_operator :
    (s : Scope)
    → (s' : Scope) × (delete_operator (length s.operators) null (add_operator s) ≡ done s')
      × (s'.operators ≡ s.operators)
      × (s'.requests ≡ s.requests)
unfolding delete_operator add_operator
add_operator-delete_operator s =
    let e = remove_at-snoc s.operators (new_operator s.next_ref) in
    let (s', d, f, g) =
      select_before_null (length s.operators) _ (new_operator s.next_ref) refl refl in
    (s', d, f ∙ e, g)
