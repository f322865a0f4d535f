-- ===== src/Builder/Scan/Clean.antt =====
-- What a scan in `validateAll` that ends with no complaint has established of the operators.
use de_pipeline_tool.Prelude.{
  ℕ, String, Bool, true, false, List, [], ◌∷◌, ◌++◌, Option, none, some, ◌≡◌, sym, subst, map,
  append_assoc, append-nil, Outcome, done, thrown, not, arith, Option-cases, inl, inr, ◌≢◌,
  contains, snoc-ne-nil, All, Any, IsDistinct, IsDistinct-snoc, ◌⊎◌, ◌⁺◌, eq_iff,
}
use de_pipeline_tool.Builder.Model.{
  OperatorType, Operator, Form, Complaint, message, fields, lookup, insert, lookup-insert,
}
use de_pipeline_tool.Builder.Scan.{
  Scan, Entry, start, scan_form, scan_invalid, scan_name, scan_type, scan_flags, scan_operator,
  scan_operators,
}
use de_pipeline_tool.Builder.Forms.{validate_state}
use de_pipeline_tool.Builder.Scan.Lists.{scan_operator-eq-done, scan_operators-eq-done}

-- The operator's form is there and does not say that it is invalid.
abbrev pub is_formed : Option Form → Bool
is_formed none = false
is_formed (some f) = not f.invalid

abbrev pub names_of : List Operator → List String
names_of os = map (λ o. o.name) os

abbrev entry_of : Operator → ℕ → Entry
entry_of o index = record { type = o.type; index = index }

-- One round without a complaint.
pub record Accepts (o : Operator) (w w' : Scan) : Type 0 where
  pub before : w.invalid ≡ []
  pub formed : is_formed o.form ≡ true
  pub fresh : contains w.names o.name ≡ false
  pub names : w'.names ≡ w.names ++ o.name ∷ []
  pub table : w'.table ≡ insert o.name (entry_of o w.index) w.table
  pub objects : w'.objects ≡ w.objects ++ o ∷ []

scan_invalid_dirty :
    (o : Operator) (r : Outcome (Form × List String)) (w w' : Scan)
    → scan_invalid o r w ≡ done w'
    → w'.invalid ≢ []
unfolding scan_invalid
scan_invalid_dirty o (done (f, keys)) w w' h k =
    ground (arith, snoc-ne-nil w.invalid (fields o.name keys))
scan_invalid_dirty o (thrown (f, keys)) w w' h k = cc

scan_form_clean :
    (o : Operator) (w w' : Scan)
    → scan_form o w ≡ done w'
    → w'.invalid ≡ []
    → (w.invalid ≡ [])
      × (is_formed o.form ≡ true)
      × (w'.names ≡ w.names)
      × (w'.table ≡ w.table)
      × (w'.index ≡ w.index)
      × (w'.objects ≡ w.objects ++ o ∷ [])
unfolding scan_form
scan_form_clean o w w' h k = elim (Option-cases o.form) [
  | inl e ↦ ground (arith, snoc-ne-nil w.invalid (message "[object Object] is undefined"))
  | inr (f, e) ↦ ground (arith, scan_invalid_dirty o (validate_state f o.properties) w w')
]

scan_name_clean :
    (o : Operator) (w : Scan)
    → (scan_name o w).invalid ≡ []
    → (w.invalid ≡ [])
      × (contains w.names o.name ≡ false)
      × ((scan_name o w).names ≡ w.names ++ o.name ∷ [])
      × ((scan_name o w).table ≡ insert o.name (entry_of o w.index) w.table)
      × ((scan_name o w).objects ≡ w.objects)
unfolding scan_name
scan_name_clean o w h = ground (
  arith,
  snoc-ne-nil w.invalid
      (message ("\"" ⁺ o.name ⁺ "\" is being used as two different operator names")),
)

-- The steps by type leave the complaints, the names and the objects alone.
scan_tail_keeps :
    (name : String) (type : OperatorType) (w : Scan)
    → ((scan_flags type (scan_type name type w)).invalid ≡ w.invalid)
      × ((scan_flags type (scan_type name type w)).names ≡ w.names)
      × ((scan_flags type (scan_type name type w)).table ≡ w.table)
      × ((scan_flags type (scan_type name type w)).objects ≡ w.objects)
unfolding scan_flags scan_type
scan_tail_keeps name type w = ground arith

scan_operator-Accepts :
    (o : Operator) (w w' : Scan) → scan_operator o w ≡ done w' → w'.invalid ≡ [] → Accepts o w w'
scan_operator-Accepts o w w' h k =
    let (w₁, formed, e) = scan_operator-eq-done o w w' h in
    let tail = scan_tail_keeps o.name o.type (scan_name o w₁) in
    let named = scan_name_clean o w₁ (cc tail.0) in
    let form = scan_form_clean o w w₁ formed named.0 in
    record {
      before = form.0;
      formed = form.1;
      fresh = cc named.1;
      names = cc named.2;
      table = ground arith;
      objects = cc named.4;
    }

-- Every round of a scan without a complaint.
pub data Accepted : List Operator → Scan → Scan → Type 0 where
  nil : {w : Scan} → Accepted [] w w
  cons :
      {o : Operator} {os : List Operator} {w w₁ w' : Scan}
      → Accepts o w w₁
      → Accepted os w₁ w'
      → Accepted (o ∷ os) w w'

Accepted-before :
    {os : List Operator} {w w' : Scan} → Accepted os w w' → w'.invalid ≡ [] → w.invalid ≡ []
Accepted-before nil k = k
Accepted-before (cons a r) k = a.before

pub scan_operators-Accepted :
    (os : List Operator) (w w' : Scan)
    → scan_operators os w ≡ done w'
    → w'.invalid ≡ []
    → Accepted os w w'
unfolding scan_operators
scan_operators-Accepted [] w w' h k = subst (Accepted [] w) (ground arith) nil
scan_operators-Accepted (o ∷ os) w w' h k =
    let (w₁, first, rest) = scan_operators-eq-done o os w w' h in
    let accepted = scan_operators-Accepted os w₁ w' rest k in
    cons (scan_operator-Accepts o w w₁ first (Accepted-before accepted k)) accepted

Accepted-formed :
    {os : List Operator} {w w' : Scan} → Accepted os w w' → All (λ o. is_formed o.form ≡ true) os
Accepted-formed nil = tt
Accepted-formed (cons a r) = (a.formed, Accepted-formed r)

Accepted-objects :
    {os : List Operator} {w w' : Scan} → Accepted os w w' → w'.objects ≡ w.objects ++ os
Accepted-objects (nil {w}) = sym (append-nil w.objects)
Accepted-objects (cons {o} {os} {w} a r) =
    cc (Accepted-objects r, a.objects, append_assoc w.objects (o ∷ []) os)

Accepted-names :
    {os : List Operator} {w w' : Scan} → Accepted os w w' → w'.names ≡ w.names ++ names_of os
Accepted-names (nil {w}) = sym (append-nil w.names)
Accepted-names (cons {o} {os} {w} a r) =
    cc (Accepted-names r, a.names, append_assoc w.names (o.name ∷ []) (names_of os))

Accepted-IsDistinct :
    {os : List Operator} {w w' : Scan} → Accepted os w w' → IsDistinct w.names → IsDistinct w'.names
Accepted-IsDistinct nil d = d
Accepted-IsDistinct (cons {o} {os} {w} a r) d =
    Accepted-IsDistinct r
      (subst IsDistinct (sym a.names) (IsDistinct-snoc w.names o.name d a.fresh))

-- An entry of the table is the type of an operator of that name.
abbrev pub HasType : List Operator → String → OperatorType → Type 0
HasType os name type = Any (λ o. (o.name ≡ name) × (o.type ≡ type)) os

Accepted-HasType :
    {os : List Operator} {w w' : Scan} (name : String) (e : Entry)
    → Accepted os w w'
    → lookup name w'.table ≡ some e
    → (lookup name w.table ≡ some e) ⊎ HasType os name e.type
Accepted-HasType name e nil h = inl h
Accepted-HasType name e (cons {o} {os} {w} {w₁} a r) h = elim (Accepted-HasType name e r h) [
  | inr later ↦ inr (inr later)
  | inl k ↦
      ground (arith, lookup-insert o.name name (entry_of o w.index) w.table, eq_iff o.name name)
]

-- What a scan of the operators that ends with no complaint has established.
pub record IsClean (os : List Operator) (w : Scan) : Type 0 where
  pub formed : All (λ o. is_formed o.form ≡ true) os
  pub distinct : IsDistinct (names_of os)
  pub unchanged : w.objects ≡ os
  pub typed : (name : String) (e : Entry) → lookup name w.table ≡ some e → HasType os name e.type

pub scan_operators-IsClean :
    (os : List Operator) (cs : List Complaint) (w : Scan)
    → scan_operators os (start cs) ≡ done w
    → w.invalid ≡ []
    → (cs ≡ []) × IsClean os w
unfolding lookup
scan_operators-IsClean os cs w h k =
    let a = scan_operators-Accepted os (start cs) w h k in
    (
      Accepted-before a k,
      record {
        formed = Accepted-formed a;
        distinct = subst IsDistinct (Accepted-names a) (Accepted-IsDistinct a tt);
        unchanged = Accepted-objects a;
        typed = λ name e found. elim (Accepted-HasType name e a found) [
          | inl no_entry ↦ cc
          | inr t ↦ t
        ];
      },
    )
