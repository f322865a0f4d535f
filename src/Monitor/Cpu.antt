-- ===== src/Monitor/Cpu.antt =====
-- The use of the processor in `ws.onMessage`: two arrays, the names of the operators and their
-- percentages, which belong together by their places.
use de_pipeline_tool.Prelude.{
  ℕ, zero, suc, length, length-append, length-set, set, String, Bool, false, List, [], ◌∷◌, ◌++◌,
  Option, none, some, ◌≡◌, refl, ap, ◌∙◌, if◌then◌else◌, arith, ◌==◌, eq_iff, Option-cases, inl,
  inr,
}
use de_pipeline_tool.Monitor.Window.{Array}

pub record Usage : Type 0 where
  pub name : String
  pub percentage : ℕ

pub record Bars : Type 0 where
  pub labels : Array String
  pub values : Array ℕ

-- `fill`
unfoldable pub fill : {A : Type 0} → A → Array A → Array A
fill v [] = []
fill v (x ∷ xs) = some v ∷ fill v xs

abbrev is_label : Option String → String → Bool
is_label none name = false
is_label (some s) name = s == name

abbrev next_place : Option ℕ → Option ℕ
next_place none = none
next_place (some i) = some (suc i)

-- `cpuLabels.indexOf(name)`, or `none` for -1.
unfoldable pub index_of : String → Array String → Option ℕ
index_of name [] = none
index_of name (x ∷ xs) =
    let rest = next_place (index_of name xs) in if is_label x name then some 0 else rest

unfoldable pub put_usage : Usage → Bars → Bars
put_usage u b = elim (index_of u.name b.labels) [
  | some i ↦ record b { values = set b.values i (some u.percentage) }
  | none ↦ record {
    labels = b.labels ++ some u.name ∷ [];
    values = b.values ++ some u.percentage ∷ [];
  }
]

unfoldable pub put_usages : List Usage → Bars → Bars
put_usages [] b = b
put_usages (u ∷ us) b = put_usages us (put_usage u b)

-- A message with the operators: all values fall to zero first.
unfoldable pub add_usages : List Usage → Bars → Bars
add_usages us b = put_usages us (record b { values = fill 0 b.values })

-- The value that the chart shows for a name.
unfoldable pub bar : String → Array String → Array ℕ → Option ℕ
bar name [] values = none
bar name (x ∷ xs) [] = none
bar name (x ∷ xs) (v ∷ values) =
    let rest = bar name xs values in if is_label x name then v else rest

abbrev pub IsPaired : Bars → Type 0
IsPaired b = length b.values ≡ length b.labels

length-fill : {A : Type 0} (v : A) (xs : Array A) → length (fill v xs) ≡ length xs
unfolding fill
length-fill v [] = refl
length-fill v (x ∷ xs) = ap suc (length-fill v xs)

put_usage-IsPaired : (u : Usage) (b : Bars) → IsPaired b → IsPaired (put_usage u b)
unfolding put_usage
put_usage-IsPaired u b h = elim (Option-cases (index_of u.name b.labels)) [
  | inl e ↦
      rw (e, put_usage)
        (omega (
          arith,
          length-append b.labels (some u.name ∷ []),
          length-append b.values (some u.percentage ∷ []),
        ))
  | inr (i, e) ↦ rw (e, put_usage) (length-set b.values i (some u.percentage) ∙ h)
]

put_usages-IsPaired : (us : List Usage) (b : Bars) → IsPaired b → IsPaired (put_usages us b)
unfolding put_usages
put_usages-IsPaired [] b h = h
put_usages-IsPaired (u ∷ us) b h = put_usages-IsPaired us (put_usage u b) (put_usage-IsPaired u b h)

pub add_usages-IsPaired : (us : List Usage) (b : Bars) → IsPaired b → IsPaired (add_usages us b)
unfolding add_usages
add_usages-IsPaired us b h = put_usages-IsPaired us _ (length-fill 0 b.values ∙ h)

-- The place that is written is the one that is shown.
bar-set :
    (labels : Array String) (values : Array ℕ) (name other_name : String) (i v : ℕ)
    → length values ≡ length labels
    → index_of name labels ≡ some i
    → bar other_name labels (set values i (some v))
      ≡ (if name == other_name then some v else bar other_name labels values)
unfolding bar index_of
bar-set [] values name other_name i v h k = absurd (ground arith)
bar-set (x ∷ xs) [] name other_name i v h k = absurd (omega arith)
bar-set (none ∷ xs) (y ∷ values) name other_name zero v h k = ground arith
bar-set (none ∷ xs) (y ∷ values) name other_name (suc i) v h k =
    ground (arith, bar-set xs values name other_name i v)
bar-set (some s ∷ xs) (y ∷ values) name other_name zero v h k =
    ground (arith, eq_iff s name, eq_iff s other_name, eq_iff name other_name)
bar-set (some s ∷ xs) (y ∷ values) name other_name (suc i) v h k = ground (
  arith,
  bar-set xs values name other_name i v,
  eq_iff s name,
  eq_iff s other_name,
  eq_iff name other_name,
)

bar-snoc :
    (labels : Array String) (values : Array ℕ) (name other_name : String) (v : ℕ)
    → length values ≡ length labels
    → index_of name labels ≡ none
    → bar other_name (labels ++ some name ∷ []) (values ++ some v ∷ [])
      ≡ (if name == other_name then some v else bar other_name labels values)
unfolding bar index_of
bar-snoc [] [] name other_name v h k = refl
bar-snoc [] (y ∷ values) name other_name v h k = absurd (omega arith)
bar-snoc (x ∷ xs) [] name other_name v h k = absurd (omega arith)
bar-snoc (none ∷ xs) (y ∷ values) name other_name v h k =
    ground (arith, bar-snoc xs values name other_name v)
bar-snoc (some s ∷ xs) (y ∷ values) name other_name v h k = ground (
  arith,
  bar-snoc xs values name other_name v,
  eq_iff s name,
  eq_iff s other_name,
  eq_iff name other_name,
)

bar-put_usage :
    (u : Usage) (b : Bars) (name : String)
    → IsPaired b
    → bar name (put_usage u b).labels (put_usage u b).values
      ≡ (if u.name == name then some u.percentage else bar name b.labels b.values)
unfolding put_usage
bar-put_usage u b name h = elim (Option-cases (index_of u.name b.labels)) [
  | inl e ↦ rw (e, put_usage) (bar-snoc b.labels b.values u.name name u.percentage h e)
  | inr (i, e) ↦ rw (e, put_usage) (bar-set b.labels b.values u.name name i u.percentage h e)
]

-- What the last of the reports says of a name, or `old`.
abbrev pub reported : String → List Usage → Option ℕ → Option ℕ
reported name [] old = old
reported name (u ∷ us) old = reported name us (if u.name == name then some u.percentage else old)

bar-put_usages :
    (us : List Usage) (b : Bars) (name : String)
    → IsPaired b
    → bar name (put_usages us b).labels (put_usages us b).values
      ≡ reported name us (bar name b.labels b.values)
unfolding put_usages
bar-put_usages [] b name h = refl
bar-put_usages (u ∷ us) b name h =
    bar-put_usages us (put_usage u b) name (put_usage-IsPaired u b h)
    ∙ ap (reported name us) (bar-put_usage u b name h)

-- As many zeros.
abbrev pub zeros : Array ℕ → Array ℕ
zeros [] = []
zeros (x ∷ xs) = some 0 ∷ zeros xs

fill-zeros : (xs : Array ℕ) → fill 0 xs ≡ zeros xs
unfolding fill
fill-zeros [] = refl
fill-zeros (x ∷ xs) = ap (λ l. some 0 ∷ l) (fill-zeros xs)

-- Where names and values have the same number, they still do behind a message, and the chart then
-- shows for every name what the message last reported of it, and zero for the names that were there
-- before and that it does not report.
pub add_usages-bar :
    (us : List Usage) (b : Bars)
    → IsPaired b
    → IsPaired (add_usages us b)
      × ((name : String)
          → bar name (add_usages us b).labels (add_usages us b).values
            ≡ reported name us (bar name b.labels (zeros b.values)))
unfolding add_usages
add_usages-bar us b h =
    let filled = record b { values = fill 0 b.values } in
    let paired : IsPaired filled = length-fill 0 b.values ∙ h in
    (
      put_usages-IsPaired us filled paired,
      λ name.
          bar-put_usages us filled name paired
          ∙ ap (λ vs. reported name us (bar name b.labels vs)) (fill-zeros b.values),
    )
