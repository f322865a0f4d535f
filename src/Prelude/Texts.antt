-- ===== src/Prelude/Texts.antt =====
-- Texts as the scripts build and read them: a number behind a text, and `parseInt`.
pub mod Numerals
use Prim.Native.Nat.{ℕ, zero, suc, ◌+◌, ◌-◌, ◌*◌, ◌/◌, ◌%◌}
use Prim.Native.Char.{code}
use Prim.Native.String
use Prim.Native.String.{String}
use mathlib.Core.Bool.{Bool, false, ◌&&◌, ◌||◌}
use mathlib.Core.List.{List, [], ◌∷◌}
use mathlib.Core.Option.{Option, none, some}
use de_pipeline_tool.Prelude.Tests.{ltb, leb, eqb, if◌then◌else◌}

-- `s + t`
infixr 65 ◌⁺◌
abbrev pub ◌⁺◌ : String → String → String
s ⁺ t = String.◌++◌ s t

digit : ℕ → String
digit zero = "0"
digit (suc zero) = "1"
digit (suc (suc zero)) = "2"
digit (suc (suc (suc zero))) = "3"
digit (suc (suc (suc (suc zero)))) = "4"
digit (suc (suc (suc (suc (suc zero))))) = "5"
digit (suc (suc (suc (suc (suc (suc zero)))))) = "6"
digit (suc (suc (suc (suc (suc (suc (suc zero))))))) = "7"
digit (suc (suc (suc (suc (suc (suc (suc (suc zero)))))))) = "8"
digit _ = "9"

-- The decimal digits of `n` before `rest`. The fuel `n` is enough, since each round but the last
-- divides by ten.
digits : ℕ → ℕ → String → String
digits zero n rest = digit (n % 10) ⁺ rest
digits (suc fuel) n rest =
    let more = digits fuel (n / 10) (digit (n % 10) ⁺ rest) in
    if ltb n 10 then digit n ⁺ rest else more

-- A number where the script adds it to a text.
unfoldable pub to_string : ℕ → String
unfolding digits digit
to_string n = digits n n ""

abbrev pub codes : String → List ℕ
codes String.[] = []
codes (String.◌∷◌ c s) = code c ∷ codes s

is_space : ℕ → Bool
is_space c = eqb c 32 || (leb 9 c && leb c 13) || eqb c 160 || eqb c 0xfeff

-- The value of a character as a digit below `base`.
digit_value : ℕ → ℕ → Option ℕ
digit_value base c =
    if leb b'0' c && ltb c (b'0' + base) && leb c b'9'
    then some (c - b'0')
    else if eqb base 16 && leb b'a' c && leb c b'f'
    then some (c - b'a' + 10)
    else if eqb base 16 && leb b'A' c && leb c b'F'
    then some (c - b'A' + 10)
    else none

-- The longest run of digits, on the value read before.
more_digits : ℕ → ℕ → List ℕ → ℕ
more_digits base n [] = n
more_digits base n (c ∷ s) = elim (digit_value base c) [
  | none ↦ n
  | some d ↦ more_digits base (n * base + d) s
]

some_digits : ℕ → List ℕ → Option ℕ
some_digits base [] = none
some_digits base (c ∷ s) = elim (digit_value base c) [
  | none ↦ none
  | some d ↦ some (more_digits base d s)
]

unsigned : List ℕ → Option ℕ
unsigned (z ∷ x ∷ s) =
    if eqb z b'0' && (eqb x b'x' || eqb x b'X')
    then some_digits 16 s
    else some_digits 10 (z ∷ x ∷ s)
unsigned s = some_digits 10 s

-- A negative number that is not zero equals no number of an endpoint.
negated : Option ℕ → Option ℕ
negated none = none
negated (some zero) = some 0
negated (some (suc n)) = none

signed : List ℕ → Option ℕ
signed [] = none
signed (c ∷ s) =
    if eqb c b'-' then negated (unsigned s) else if eqb c b'+' then unsigned s else unsigned (c ∷ s)

trimmed : List ℕ → Option ℕ
trimmed [] = none
trimmed (c ∷ s) = let rest = trimmed s in if is_space c then rest else signed (c ∷ s)

-- `parseInt(s)`, as far as it can equal a natural number: `none` for NaN and for negative numbers.
unfoldable pub parse_int : String → Option ℕ
unfolding trimmed signed negated unsigned some_digits more_digits digit_value is_space
parse_int s = trimmed (codes s)

-- `parseInt(s) === n`
unfoldable pub parses_to : String → ℕ → Bool
unfolding parse_int
parses_to s n = elim (parse_int s) [ none ↦ false | some k ↦ eqb k n ]
