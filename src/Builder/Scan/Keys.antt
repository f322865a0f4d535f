-- ===== src/Builder/Scan/Keys.antt =====
-- The table that the loop over the operators in `validateAll` builds has a key for every operator, and
-- on operators that are ready the loop throws nothing.
use de_pipeline_tool.Prelude.{
  String, true, List, [], ◌∷◌, ◌≡◌, refl, eq_iff, eq_refl, arith, All, contains, contains-append,
  is_some, inl, inr, Bool-cases, Option-cases, done, is_done, is_done-eq-done,
}
use de_pipeline_tool.Builder.Model.{OperatorType, Operator, lookup, lookup-insert}
use de_pipeline_tool.Builder.Forms.{validate_state}
use de_pipeline_tool.Builder.Forms.Ready.{IsReady, validate_state-is_done}
use de_pipeline_tool.Builder.Scan.{
  Scan, Entry, scan_invalid, scan_form, scan_name, scan_type, scan_flags, scan_operator,
  scan_operators,
}
use de_pipeline_tool.Builder.Scan.Lists.{
  scan_form_keeps, scan_operator-eq-done, scan_operators-eq-done,
}

-- The table has a key.
abbrev pub HasKey : List (String × Entry) → String → Type 0
HasKey table name = is_some (lookup name table) ≡ true

-- Every name that was seen is a key.
unfoldable pub IsKeyed : Scan → Type 0
IsKeyed w = (a : String) → contains w.names a ≡ true → HasKey w.table a

scan_name-IsKeyed : (o : Operator) (w : Scan) → IsKeyed w → IsKeyed (scan_name o w)
unfolding scan_name IsKeyed
scan_name-IsKeyed o w h a = λ k. ground (
  arith,
  h a,
  contains-append a w.names (o.name ∷ []),
  lookup-insert o.name a (record { type = o.type; index = w.index }) w.table,
  eq_iff o.name a,
)

scan_name-HasKey : (o : Operator) (w : Scan) → IsKeyed w → HasKey (scan_name o w).table o.name
unfolding scan_name IsKeyed
scan_name-HasKey o w h = ground (
  arith,
  h o.name,
  lookup-insert o.name o.name (record { type = o.type; index = w.index }) w.table,
  eq_refl o.name,
)

scan_name_grows :
    (o : Operator) (w : Scan) (a : String) → HasKey w.table a → HasKey (scan_name o w).table a
unfolding scan_name
scan_name_grows o w a h =
    ground (arith, lookup-insert o.name a (record { type = o.type; index = w.index }) w.table)

scan_type_keeps :
    (name : String) (type : OperatorType) (w : Scan)
    → ((scan_flags type (scan_type name type w)).names ≡ w.names)
      × ((scan_flags type (scan_type name type w)).table ≡ w.table)
unfolding scan_type scan_flags
scan_type_keeps name type w = ground arith

-- What one round keeps and adds.
record Keys (o : Operator) (w w' : Scan) : Type 0 where
  keyed : IsKeyed w'
  own : HasKey w'.table o.name
  grows : (a : String) → HasKey w.table a → HasKey w'.table a

scan_operator-Keys :
    (o : Operator) (w w' : Scan) → IsKeyed w → scan_operator o w ≡ done w' → Keys o w w'
unfolding IsKeyed
scan_operator-Keys o w w' h k =
    let (w₁, formed, e) = scan_operator-eq-done o w w' k in
    let kept = scan_form_keeps o w w₁ formed in
    let t = scan_type_keeps o.name o.type (scan_name o w₁) in
    let names : w₁.names ≡ w.names = kept.7 in
    let table : w₁.table ≡ w.table = kept.8 in
    let h₁ : IsKeyed w₁ = λ a. rw (names, table) (h a) in
    record {
      keyed = rw e (λ a. rw (t.0, t.1) (scan_name-IsKeyed o w₁ h₁ a));
      own = rw (e, t.1) (scan_name-HasKey o w₁ h₁);
      grows = λ a p. rw (e, t.1) (scan_name_grows o w₁ a (rw table p));
    }

-- A scan that returns keeps the keys that were there and has one for every operator.
pub scan_operators-HasKey :
    (os : List Operator) (w w' : Scan)
    → IsKeyed w
    → scan_operators os w ≡ done w'
    → ((a : String) → HasKey w.table a → HasKey w'.table a) × All (λ o. HasKey w'.table o.name) os
unfolding scan_operators
scan_operators-HasKey [] w w' h k = let e : w ≡ w' = cc in (λ a p. rw (← e) p, tt)
scan_operators-HasKey (o ∷ os) w w' h k =
    let (w₁, first, rest) = scan_operators-eq-done o os w w' k in
    let keys = scan_operator-Keys o w w₁ h first in
    let (grows, later) = scan_operators-HasKey os w₁ w' keys.keyed rest in
    (λ a p. grows a (keys.grows a p), (grows o.name keys.own, later))

scan_form-is_done : (o : Operator) (w : Scan) → IsReady o → is_done (scan_form o w) ≡ true
unfolding scan_form scan_invalid validate_state
scan_form-is_done o w r = elim (Option-cases o.form) [
  | inl e ↦ rw e refl
  | inr (f, e) ↦ elim (Bool-cases f.invalid) [
    | inr valid ↦ rw (e, valid) refl
    | inl invalid ↦
        let (g, v) = is_done-eq-done _ (validate_state-is_done f o.properties (r.covered f e)) in
        rw (e, invalid, v) refl
  ]
]

pub scan_operators-is_done :
    (os : List Operator) (w : Scan) → All IsReady os → is_done (scan_operators os w) ≡ true
unfolding scan_operators scan_operator
scan_operators-is_done [] w h = refl
scan_operators-is_done (o ∷ os) w (r, h) =
    let (w₁, e) = is_done-eq-done _ (scan_form-is_done o w r) in
    rw (e, scan_operators) (scan_operators-is_done os _ h)
