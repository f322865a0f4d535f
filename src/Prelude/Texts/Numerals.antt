-- ===== src/Prelude/Texts/Numerals.antt =====
-- `parseInt` behind a number that was added to a text.
use Prim.Native.Nat.{ℕ, zero, suc, ◌+◌, ◌-◌, ◌*◌, ◌/◌, ◌%◌, ◌≤◌, ◌<◌}
use Prim.Native.Char.{code}
use Prim.Native.String.{String}
use mathlib.Core.Path.{◌≡◌, refl, sym, ap, ◌∙◌}
use mathlib.Core.Logic.{inl, inr}
use mathlib.Core.List.{List, [], ◌∷◌, ◌++◌, append_assoc, append-nil}
use mathlib.Core.Option.{some}
use native.Mathlib.Omega.{arith}
use native.Mathlib.Nat.{div-add-mod'}
use text.Mathlib.TextLemmas.{nil-append, cons-append}
use de_pipeline_tool.Prelude.Tests.{ltb, Bool-cases}
use de_pipeline_tool.Prelude.Texts.{
  ◌⁺◌, digit, digits, to_string, codes, is_space, digit_value, more_digits, some_digits, unsigned,
  signed, trimmed, parse_int,
}

codes-append : (s t : String) → codes (s ⁺ t) ≡ codes s ++ codes t
codes-append String.[] t = ap codes (nil-append t)
codes-append (String.◌∷◌ c s) t =
    ap codes (cons-append c s t) ∙ ap (λ l. code c ∷ l) (codes-append s t)

codes-digit : (n : ℕ) → n < 10 → codes (digit n) ≡ (48 + n) ∷ []
unfolding digit
codes-digit zero h = refl
codes-digit (suc zero) h = refl
codes-digit (suc (suc zero)) h = refl
codes-digit (suc (suc (suc zero))) h = refl
codes-digit (suc (suc (suc (suc zero)))) h = refl
codes-digit (suc (suc (suc (suc (suc zero))))) h = refl
codes-digit (suc (suc (suc (suc (suc (suc zero)))))) h = refl
codes-digit (suc (suc (suc (suc (suc (suc (suc zero))))))) h = refl
codes-digit (suc (suc (suc (suc (suc (suc (suc (suc zero)))))))) h = refl
codes-digit (suc (suc (suc (suc (suc (suc (suc (suc (suc zero))))))))) h = refl
codes-digit (suc (suc (suc (suc (suc (suc (suc (suc (suc (suc n)))))))))) h = absurd (omega arith)

-- A run of decimal digits, and its value on the value read before.
abbrev IsDigits : List ℕ → Type 0
IsDigits [] = Unit
IsDigits (c ∷ cs) = (48 ≤ c) × (c ≤ 57) × IsDigits cs

abbrev value_from : ℕ → List ℕ → ℕ
value_from n [] = n
value_from n (c ∷ cs) = value_from (n * 10 + (c - 48)) cs

IsDigits-snoc : (cs : List ℕ) (c : ℕ) → IsDigits cs → 48 ≤ c → c ≤ 57 → IsDigits (cs ++ c ∷ [])
IsDigits-snoc [] c h a b = (a, b, tt)
IsDigits-snoc (x ∷ cs) c (p, q, h) a b = (p, q, IsDigits-snoc cs c h a b)

value_from-snoc :
    (n : ℕ) (cs : List ℕ) (c : ℕ) → value_from n (cs ++ c ∷ []) ≡ value_from n cs * 10 + (c - 48)
value_from-snoc n [] c = refl
value_from-snoc n (x ∷ cs) c = value_from-snoc (n * 10 + (x - 48)) cs c

-- What `digits` puts before a text.
record Decimal (n : ℕ) (rest : String) (s : String) : Type 0 where
  first : ℕ
  others : List ℕ
  spelled : codes s ≡ (first ∷ others) ++ codes rest
  all_digits : IsDigits (first ∷ others)
  value : value_from 0 (first ∷ others) ≡ n

Decimal-digit : (n : ℕ) (rest : String) → n < 10 → Decimal n rest (digit n ⁺ rest)
Decimal-digit n rest h = record {
  first = 48 + n;
  others = [];
  spelled = codes-append (digit n) rest ∙ ap (λ l. l ++ codes rest) (codes-digit n h);
  all_digits = (omega arith, omega arith, tt);
  value = omega arith;
}

Decimal-digits : (fuel n : ℕ) (rest : String) → n ≤ fuel → Decimal n rest (digits fuel n rest)
unfolding digits
Decimal-digits zero n rest h =
    let none_left : n ≡ 0 = omega arith in rw none_left (Decimal-digit 0 rest (omega arith))
Decimal-digits (suc fuel) n rest h = elim (Bool-cases (ltb n 10)) [
  | inl small ↦ rw small (Decimal-digit n rest (ground arith))
  | inr large ↦
      let next = digit (n % 10) ⁺ rest in
      let last : n % 10 < 10 = omega arith in
      let split = div-add-mod' n 10 in
      let d = Decimal-digits fuel (n / 10) next (omega arith) in
      rw large (record {
        first = d.first;
        others = d.others ++ (48 + n % 10) ∷ [];
        spelled =
            d.spelled
            ∙ ap (λ l. (d.first ∷ d.others) ++ l)
                (codes-append (digit (n % 10)) rest
                  ∙ ap (λ l. l ++ codes rest) (codes-digit (n % 10) last))
            ∙ sym (append_assoc (d.first ∷ d.others) ((48 + n % 10) ∷ []) (codes rest));
        all_digits =
            IsDigits-snoc (d.first ∷ d.others) (48 + n % 10) d.all_digits (omega arith)
              (omega arith);
        value = value_from-snoc 0 (d.first ∷ d.others) (48 + n % 10) ∙ omega (arith, d.value);
      })
]

more_digits-value : (n : ℕ) (cs : List ℕ) → IsDigits cs → more_digits 10 n cs ≡ value_from n cs
unfolding more_digits digit_value
more_digits-value n [] h = refl
more_digits-value n (c ∷ cs) (a, b, h) =
    let rest = more_digits-value (n * 10 + (c - 48)) cs h in ground arith

digit_value-digit : (c : ℕ) → 48 ≤ c → c ≤ 57 → digit_value 10 c ≡ some (c - 48)
unfolding digit_value
digit_value-digit c a b = ground arith

some_digits-value :
    (c : ℕ) (cs : List ℕ)
    → IsDigits (c ∷ cs)
    → some_digits 10 (c ∷ cs) ≡ some (value_from 0 (c ∷ cs))
unfolding some_digits
some_digits-value c cs (a, b, h) =
    let start : c - 48 ≡ 0 * 10 + (c - 48) = omega arith in
    rw (digit_value-digit c a b, some_digits)
      (ap some (more_digits-value (c - 48) cs h ∙ ap (λ n. value_from n cs) start))

unsigned-digits :
    (c : ℕ) (cs : List ℕ) → IsDigits (c ∷ cs) → unsigned (c ∷ cs) ≡ some_digits 10 (c ∷ cs)
unfolding unsigned
unsigned-digits c [] h = refl
unsigned-digits c (d ∷ cs) (a, b, (p, q, h)) = ground arith

signed-digits : (c : ℕ) (cs : List ℕ) → 48 ≤ c → signed (c ∷ cs) ≡ unsigned (c ∷ cs)
unfolding signed
signed-digits c cs a = ground arith

trimmed-digits : (c : ℕ) (cs : List ℕ) → 48 ≤ c → c ≤ 57 → trimmed (c ∷ cs) ≡ signed (c ∷ cs)
unfolding trimmed is_space
trimmed-digits c cs a b = ground arith

-- `parseInt` reads back the number that was added to a text.
pub parse_int-to_string : (n : ℕ) → parse_int (to_string n) ≡ some n
unfolding parse_int to_string
parse_int-to_string n =
    let d = Decimal-digits n n "" (omega arith) in
    ap trimmed (d.spelled ∙ append-nil (d.first ∷ d.others))
    ∙ trimmed-digits d.first d.others d.all_digits.0 d.all_digits.1
    ∙ signed-digits d.first d.others d.all_digits.0
    ∙ unsigned-digits d.first d.others d.all_digits
    ∙ some_digits-value d.first d.others d.all_digits
    ∙ ap some d.value
