-- ===== src/Monitor/Window.antt =====
-- The window of statistics in `ws.onMessage`: three arrays, moved by one place in place.
use de_pipeline_tool.Prelude.{
  ℕ, zero, suc, ◌+◌, ◌-◌, ◌≤◌, ◌<◌, length, length-append, get_elem?, String, List, [], ◌∷◌, ◌++◌,
  Option, none, some, ◌≡◌, refl, ap, sym, subst, ◌∙◌, if◌then◌else◌, leb, ltb, arith, ◌⁺◌,
  to_string,
}

-- An array of JavaScript: an element that was never written is `none`.
abbrev pub Array : Type 0 → Type 0
Array A = List (Option A)

abbrev pub read : {A : Type 0} → Array A → ℕ → Option A
read xs i = elim (get_elem? xs i) [ none ↦ none | some v ↦ v ]

-- `xs[i] = v`: a write behind the end makes the array longer.
unfoldable pub write : {A : Type 0} → Array A → ℕ → Option A → Array A
write [] zero v = v ∷ []
write [] (suc i) v = none ∷ write [] i v
write (x ∷ xs) zero v = v ∷ xs
write (x ∷ xs) (suc i) v = x ∷ write xs i v

-- `for (…; i < …) xs[i] = xs[i + 1]`, for the `left` rounds that are left.
unfoldable pub shift_from : {A : Type 0} → (i left : ℕ) → Array A → Array A
shift_from i zero xs = xs
shift_from i (suc left) xs = shift_from (suc i) left (write xs i (read xs (suc i)))

pub record Stats : Type 0 where
  pub processed : ℕ
  pub emitted : ℕ

pub record Charts : Type 0 where
  pub processed : Array ℕ
  pub emitted : Array ℕ
  pub labels : Array String

-- Two digits, as `(n < 10 ? "0" + n : n)`.
unfoldable pub two_digits : ℕ → String
two_digits n = if ltb n 10 then "0" ⁺ to_string n else to_string n

-- The label for minutes and seconds.
unfoldable pub time_label : (minutes seconds : ℕ) → String
time_label minutes seconds = two_digits minutes ⁺ ":" ⁺ two_digits seconds

abbrev pub tuple_entries : ℕ
tuple_entries = 20

-- The three assignments behind the loop write to the last place of the labels.
unfoldable pub put_last : Stats → String → Charts → Charts
put_last st label c = record {
  labels = write c.labels (length c.labels - 1) (some label);
  processed = write c.processed (length c.labels - 1) (some st.processed);
  emitted = write c.emitted (length c.labels - 1) (some st.emitted);
}

unfoldable pub shift_all : Charts → Charts
shift_all c =
    let n = length c.labels - 1 in
    record {
      labels = shift_from 0 n c.labels;
      processed = shift_from 0 n c.processed;
      emitted = shift_from 0 n c.emitted;
    }

unfoldable pub add_stats : Stats → String → Charts → Charts
add_stats st label c =
    put_last st label (if leb tuple_entries (length c.labels) then shift_all c else c)

-- The arrays are of one length, which is that of the window at least.
pub record IsWindow (c : Charts) : Type 0 where
  pub processed : length c.processed ≡ length c.labels
  pub emitted : length c.emitted ≡ length c.labels
  pub full : tuple_entries ≤ length c.labels

-- The oldest entry goes, and the new one comes behind the others.
abbrev pub slide : {A : Type 0} → Array A → A → Array A
slide [] v = some v ∷ []
slide (x ∷ xs) v = xs ++ some v ∷ []

module _ {A : Type 0} where
  -- The loop below a head that it has passed.
  shift_from-cons :
      (x : Option A) (i left : ℕ) (xs : Array A)
      → shift_from (suc i) left (x ∷ xs) ≡ x ∷ shift_from i left xs
  unfolding shift_from write
  shift_from-cons x i zero xs = refl
  shift_from-cons x i (suc left) xs = shift_from-cons x (suc i) left (write xs i (read xs (suc i)))

  shift_from-slide :
      (x : Option A) (xs : Array A) (v : A)
      → write (shift_from 0 (length xs) (x ∷ xs)) (length xs) (some v) ≡ xs ++ some v ∷ []
  unfolding shift_from write
  shift_from-slide x [] v = refl
  shift_from-slide x (y ∷ xs) v =
      rw (shift_from-cons y 0 (length xs) (y ∷ xs)) (ap (λ l. y ∷ l) (shift_from-slide y xs v))

  shift-slide :
      (xs : Array A) (n : ℕ) (v : A)
      → length xs ≡ n
      → 0 < n
      → write (shift_from 0 (n - 1) xs) (n - 1) (some v) ≡ slide xs v
  shift-slide [] n v e h = absurd (omega arith)
  shift-slide (x ∷ xs) n v e h =
      let f : n - 1 ≡ length xs = omega arith in rw f (shift_from-slide x xs v)

  pub length-slide : (xs : Array A) (v : A) → 0 < length xs → length (slide xs v) ≡ length xs
  length-slide [] v h = absurd (omega arith)
  length-slide (x ∷ xs) v h = omega (arith, length-append xs (some v ∷ []))

length-write :
    {A : Type 0} (xs : Array A) (i : ℕ) (v : Option A)
    → i < length xs
    → length (write xs i v) ≡ length xs
unfolding write
length-write [] i v h = absurd (omega arith)
length-write (x ∷ xs) zero v h = refl
length-write (x ∷ xs) (suc i) v h = ap suc (length-write xs i v (omega arith))

length-shift_from :
    {A : Type 0} (i left : ℕ) (xs : Array A)
    → i + left < length xs
    → length (shift_from i left xs) ≡ length xs
unfolding shift_from
length-shift_from i zero xs h = refl
length-shift_from i (suc left) xs h =
    let w = length-write xs i (read xs (suc i)) (omega arith) in
    length-shift_from (suc i) left (write xs i (read xs (suc i))) (omega arith) ∙ w

-- The charts with each array moved by one place.
abbrev pub slid : Stats → String → Charts → Charts
slid st label c = record {
  processed = slide c.processed st.processed;
  emitted = slide c.emitted st.emitted;
  labels = slide c.labels label;
}

put_last-shift_all :
    (st : Stats) (label : String) (c : Charts)
    → IsWindow c
    → put_last st label (shift_all c) ≡ slid st label c
unfolding put_last shift_all
put_last-shift_all st label c h =
    let n = length c.labels in
    let p : 0 < n = omega arith in
    let e : length (shift_from 0 (n - 1) c.labels) ≡ n =
      length-shift_from 0 (n - 1) c.labels (omega arith) in
    rw e λ i. record {
      processed = shift-slide c.processed n st.processed h.processed p i;
      emitted = shift-slide c.emitted n st.emitted h.emitted p i;
      labels = shift-slide c.labels n label refl p i;
    }

add_stats-full :
    (st : Stats) (label : String) (c : Charts)
    → IsWindow c
    → add_stats st label c ≡ put_last st label (shift_all c)
unfolding add_stats
add_stats-full st label c h = ground arith

slid-IsWindow : (st : Stats) (label : String) (c : Charts) → IsWindow c → IsWindow (slid st label c)
slid-IsWindow st label c h = omega (
  arith,
  length-slide c.processed st.processed,
  length-slide c.emitted st.emitted,
  length-slide c.labels label,
)

-- With three arrays of one length, that of the window at least, a message moves each of them by one
-- place: the oldest entry goes, the new one stands behind the others, and the lengths stay.
pub add_stats-slide :
    (st : Stats) (label : String) (c : Charts)
    → IsWindow c
    → (add_stats st label c ≡ slid st label c) × IsWindow (add_stats st label c)
add_stats-slide st label c h =
    let e = add_stats-full st label c h ∙ put_last-shift_all st label c h in
    (e, subst IsWindow (sym e) (slid-IsWindow st label c h))
