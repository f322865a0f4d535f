-- ===== src/Prelude/Slices.antt =====
-- Parts of texts: `indexOf`, `substring` and `substr`.
use Prim.Native.Nat.{ℕ, zero, suc, ◌-◌}
use Prim.Native.Char.{code}
use Prim.Native.String.{String}
use mathlib.Core.Option.{Option, none, some}
use de_pipeline_tool.Prelude.Tests.{leb, eqb, if◌then◌else◌}

-- A text at the front of another: what is behind it.
unfoldable pub exactly : String → String → Option String
exactly String.[] s = some s
exactly (String.◌∷◌ c t) String.[] = none
exactly (String.◌∷◌ c t) (String.◌∷◌ d s) = if eqb (code c) (code d) then exactly t s else none

-- The first characters of a text, and those behind them.
unfoldable pub front : ℕ → String → String
front zero s = String.[]
front (suc n) String.[] = String.[]
front (suc n) (String.◌∷◌ c s) = String.◌∷◌ c (front n s)

unfoldable pub behind : ℕ → String → String
behind zero s = s
behind (suc n) String.[] = String.[]
behind (suc n) (String.◌∷◌ c s) = behind n s

-- `indexOf`
unfoldable pub index_of : String → String → Option ℕ
unfolding exactly
index_of t String.[] = none
index_of t (String.◌∷◌ c s) = elim (exactly t (String.◌∷◌ c s)) [
  | some rest ↦ some 0
  | none ↦ elim (index_of t s) [ none ↦ none | some n ↦ some (suc n) ]
]

-- `substring`, which swaps its bounds where the first is greater.
unfoldable pub substring : ℕ → ℕ → String → String
unfolding front behind
substring a b s = if leb a b then front (b - a) (behind a s) else front (a - b) (behind b s)
