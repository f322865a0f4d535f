-- ===== src/Builder/Check/Rules.antt =====
-- The rules for a system, stated by its operators and streams alone, and how the lists of names that
-- `validateAll` counts with speak of the single operator.
use de_pipeline_tool.Prelude.{
  ℕ, ◌+◌, ◌≤◌, ◌<◌, String, true, false, ◌||◌, List, [], ◌∷◌, ◌≡◌, refl, if◌then◌else◌, arith, ◌==◌,
  eq_iff, eq_refl, contains, count, count-append, snoc-ne-nil, All, IsDistinct, length,
}
use de_pipeline_tool.Builder.Model.{OperatorType, input, Operator, message, Stream}
use de_pipeline_tool.Builder.Scan.{is_input, is_output, is_parser, is_binary_input}
use de_pipeline_tool.Builder.Scan.Lists.{input_name, output_name, middle_name, names_by, any_type}
use de_pipeline_tool.Builder.Scan.Clean.{is_formed, names_of, HasType}
use de_pipeline_tool.Builder.Check.{Uses, can_connect, finish_uses}
use de_pipeline_tool.Builder.Check.Balance.{Spends, sources_in, sinks_in}

-- How often an operator of a type has to give and to take a stream.
abbrev pub IsConnected : OperatorType → (given taken : ℕ) → Type 0
IsConnected type given taken =
    if is_input type
    then 0 < given
    else if is_output type
    then taken ≡ 1
    else (2 ≤ given + taken) × (taken ≤ 2)

-- A stream joins operators of types that may be connected.
abbrev pub Joins : List Operator → Stream → Type 0
Joins os s =
    (from : OperatorType) × HasType os s.source from
    × All (λ sink. (to : OperatorType) × HasType os sink to × (can_connect from to ≡ true)) s.sinks

-- The rules for a system of the operators `os` with the streams `ss`.
pub record IsBuildable (os : List Operator) (ss : List Stream) : Type 0 where
  pub formed : All (λ o. is_formed o.form ≡ true) os
  pub distinct : IsDistinct (names_of os)
  pub has_input : any_type is_input os ≡ true
  pub has_parser : (any_type is_parser os || any_type is_binary_input os) ≡ true
  pub has_output : any_type is_output os ≡ true
  pub connected :
      All (λ o. IsConnected o.type (count o.name (sources_in ss)) (count o.name (sinks_in ss))) os
  pub joined : All (Joins os) ss

-- An entry of a list is made of the operator's own name.
abbrev pub IsOwn : (String → OperatorType → List String) → Type 0
IsOwn f =
    (name : String) (type : OperatorType) (a : String)
    → (name == a) ≡ false
    → count a (f name type) ≡ 0

pub input_name-IsOwn : IsOwn input_name
input_name-IsOwn name type a h = ground arith

pub output_name-IsOwn : IsOwn output_name
output_name-IsOwn name type a h = ground arith

pub middle_name-IsOwn : IsOwn middle_name
middle_name-IsOwn name type a h = ground arith

module _ (f : String → OperatorType → List String) (own : IsOwn f) where
  pub count-absent :
      (os : List Operator) (a : String)
      → contains (names_of os) a ≡ false
      → count a (names_by f os) ≡ 0
  count-absent [] a h = refl
  count-absent (o ∷ os) a h = ground (
    arith,
    count-append a (f o.name o.type) (names_by f os),
    own o.name o.type a,
    count-absent os a,
  )

  -- Where the names are distinct, an operator counts for itself alone.
  abbrev pub CountsAlone : List Operator → Operator → Type 0
  CountsAlone os o = count o.name (names_by f os) ≡ count o.name (f o.name o.type)

  counts_behind :
      (p : Operator) (all os : List Operator)
      → contains (names_of os) p.name ≡ false
      → All (CountsAlone all) os
      → All (CountsAlone (p ∷ all)) os
  counts_behind p all [] h k = tt
  counts_behind p all (o ∷ os) h (k, ks) = (
    ground (
      arith,
      count-append o.name (f p.name p.type) (names_by f all),
      own p.name p.type o.name,
      eq_iff p.name o.name,
      eq_iff o.name p.name,
    ),
    counts_behind p all os (ground arith) ks,
  )

  pub counts_alone : (os : List Operator) → IsDistinct (names_of os) → All (CountsAlone os) os
  counts_alone [] d = tt
  counts_alone (o ∷ os) (fresh, d) = (
    ground (
      arith,
      count-append o.name (f o.name o.type) (names_by f os),
      count-absent os o.name fresh,
    ),
    counts_behind o os os fresh (counts_alone os d),
  )

nil_of_length {ℓ} : {A : Type ℓ} (xs : List A) → length xs ≡ 0 → xs ≡ []
nil_of_length [] h = refl
nil_of_length (x ∷ xs) h = absurd (omega arith)

pub finish_uses_clean :
    (u : Uses)
    → finish_uses u ≡ []
    → (u.invalid ≡ []) × (u.inputs ≡ []) × (u.outputs ≡ []) × (u.middle ≡ [])
unfolding finish_uses
finish_uses_clean u h = ground (
  arith,
  snoc-ne-nil u.invalid (message "Too few connections"),
  nil_of_length u.inputs,
  nil_of_length u.outputs,
  nil_of_length u.middle,
)

-- The accounts of one operator, from its type.
pub IsConnected-of :
    (name : String) (type : OperatorType) (given taken : ℕ) (u u' : Uses)
    → Spends name given taken u u'
    → (u'.inputs ≡ []) × (u'.outputs ≡ []) × (u'.middle ≡ [])
    → count name u.inputs ≡ count name (input_name name type)
    → count name u.outputs ≡ count name (output_name name type)
    → count name u.middle ≡ count name (middle_name name type)
    → IsConnected type given taken
IsConnected-of name input given taken u u' p e i o m = ground (arith, eq_refl name)
IsConnected-of name _ given taken u u' p e i o m = ground (arith, eq_refl name)
