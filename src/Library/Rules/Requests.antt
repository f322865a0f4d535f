-- ===== src/Library/Rules/Requests.antt =====
-- The requests for rules: `saveValidation` and `deleteValidation` of operator-library.js, whose answers come
-- when the user may have gone on.
use de_pipeline_tool.Prelude.{
  ℕ, zero, suc, get_elem?, remove_at, String, Bool, true, false, List, [], ◌∷◌, ◌++◌, none, some,
  ◌≡◌, refl, sym, subst, ◌==◌, if◌then◌else◌, eqb, arith, Outcome, done, thrown,
}
use de_pipeline_tool.Library.Rules
use de_pipeline_tool.Library.Rules.{
  Rule, with_rule, with_rules, select_rule, assign_rule, on_active, is_active, select_near,
  delete_rule,
}

-- What is sent to the data service.
pub data Request : Type 0 where
  save : Rule → Request
  delete : String → Request

-- `shared`: `$localStorage` has the list itself. A request for a deletion keeps the rule and its number until
-- it is answered. The sockets, which an answer closes, are left out: a request that finds its socket closed
-- has no answer.
pub record Desk : Type 0 where
  pub scope : Rules.Scope
  pub deleting : List (Rule × ℕ)
  pub shared : Bool
  pub sent : List Request

-- `saveValidation`; without a selected rule it throws.
unfoldable pub save_validation : Desk → Outcome Desk
save_validation q = elim q.scope.active [
  | none ↦ thrown q
  | some r ↦ done (record q { sent = q.sent ++ save r ∷ [] })
]

abbrev with_scope : Desk → Outcome Rules.Scope → Outcome Desk
with_scope q (done s) = done (record q { scope = s })
with_scope q (thrown s) = thrown (record q { scope = s })

-- The answer to `saveValidation`, with the id that the service gives.
unfoldable pub receive_saved : String → Desk → Outcome Desk
receive_saved id q =
    with_scope (record q { shared = true })
      (on_active (λ r. done (assign_rule (record r { id = some id }) q.scope)) q.scope.active
        q.scope)

-- `deleteValidation`: a rule with an id is deleted when the request is answered.
unfoldable pub delete_validation : Rule → ℕ → Desk → Desk
delete_validation r index q = elim r.id [
  | none ↦ record q { scope = delete_rule r index q.scope }
  | some id ↦
      if id == ""
      then record q { scope = delete_rule r index q.scope }
      else record q { deleting = q.deleting ++ (r, index) ∷ []; sent = q.sent ++ delete id ∷ [] }
]

-- The answer to request number `k` of those that wait.
unfoldable pub receive_deleted : ℕ → Desk → Desk
receive_deleted k q = elim (get_elem? q.deleting k) [
  | none ↦ q
  | some (r, index) ↦ record q {
    scope = delete_rule r index q.scope;
    deleting = remove_at q.deleting k;
    shared = true;
  }
]

with_rules-other :
    (r : Rule) (rs : List Rule) (k : ℕ) (x : Rule)
    → get_elem? rs k ≡ some x
    → eqb x.ref r.ref ≡ false
    → get_elem? (with_rules r rs) k ≡ some x
with_rules-other r [] k x e other = cc
with_rules-other r (y ∷ rs) zero x e other =
    let same : y ≡ x = cc in subst (λ z. some (with_rule r z) ≡ some x) (sym same) (rw other refl)
with_rules-other r (y ∷ rs) (suc k) x e other = with_rules-other r rs k x e other

with_rules-same :
    (r : Rule) (rs : List Rule) (k : ℕ) (x : Rule)
    → get_elem? rs k ≡ some x
    → eqb x.ref r.ref ≡ true
    → get_elem? (with_rules r rs) k ≡ some r
with_rules-same r [] k x e same = cc
with_rules-same r (y ∷ rs) zero x e same =
    let here : y ≡ x = cc in subst (λ z. some (with_rule r z) ≡ some r) (sym here) (rw same refl)
with_rules-same r (y ∷ rs) (suc k) x e same = with_rules-same r rs k x e same

-- A new rule is saved, and another one is selected before the answer. The answer gives its id to the rule that
-- is selected then, whatever id this had, and the saved rule is left without one.
pub save_validation-select :
    (q : Desk) (saved other : Rule) (i j : ℕ) (id : String)
    → get_elem? q.scope.rules i ≡ some saved
    → get_elem? q.scope.rules j ≡ some other
    → saved.id ≡ none
    → eqb saved.ref other.ref ≡ false
    → q.scope.active ≡ some saved
    → (asked : Desk) × (answered : Desk) × (save_validation q ≡ done asked)
      × (receive_saved id (record asked { scope = select_rule j asked.scope }) ≡ done answered)
      × (get_elem? answered.scope.rules j ≡ some (record other { id = some id }))
      × (get_elem? answered.scope.rules i ≡ some saved)
unfolding save_validation receive_saved on_active select_rule assign_rule
save_validation-select q saved other i j id at_i at_j new differ active =
    let r : Rule = record other { id = some id } in
    (
      record q { sent = q.sent ++ save saved ∷ [] },
      record q {
        sent = q.sent ++ save saved ∷ [];
        shared = true;
        scope = record q.scope { active = some r; rules = with_rules r q.scope.rules };
      },
      ground arith,
      rw (at_j, receive_saved) refl,
      with_rules-same r q.scope.rules j other at_j (ground arith),
      with_rules-other r q.scope.rules i saved at_i differ,
    )
