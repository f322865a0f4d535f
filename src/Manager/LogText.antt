-- ===== src/Manager/LogText.antt =====
-- The pattern of error messages in `logService.onMessage` of system-manager.js, and the methods of texts
-- that take a match apart.
use Prim.Native.Char.{code}
use Prim.Native.String
use de_pipeline_tool.Prelude.{
  ℕ, ◌-◌, String, Bool, ◌&&◌, ◌||◌, Option, none, some, if◌then◌else◌, eqb, leb, exactly, front,
}

is_letter : ℕ → Bool
is_letter c = leb b'a' c && leb c b'z' || leb b'A' c && leb c b'Z'

-- `[a-zA-Z0-9\-_]`
is_word : ℕ → Bool
is_word c = is_letter c || leb b'0' c && leb c b'9' || eqb c b'-' || eqb c b'_'

-- `\s`
is_space : ℕ → Bool
is_space c =
    eqb c 32
    || leb 9 c && leb c 13
    || eqb c 160
    || eqb c 5760
    || leb 8192 c && leb c 8202
    || eqb c 8232
    || eqb c 8233
    || eqb c 8239
    || eqb c 8287
    || eqb c 12288
    || eqb c 65279

-- A part of the pattern: what is left of a text behind it.
abbrev Part : Type 0
Part = String → Option String

one : (ℕ → Bool) → Part
one p String.[] = none
one p (String.◌∷◌ c s) = if p (code c) then some s else none

-- The longest run, which may be empty.
run : (ℕ → Bool) → String → String
run p String.[] = String.[]
run p (String.◌∷◌ c s) = let rest = run p s in if p (code c) then rest else String.◌∷◌ c s

infixl 5 ◌followed_by◌
abbrev ◌followed_by◌ : Option String → Part → Option String
none followed_by p = none
some s followed_by p = p s

some_of : (ℕ → Bool) → Part
unfolding one run
some_of p s = elim (one p s) [ none ↦ none | some rest ↦ some (run p rest) ]

-- `/\[[a-zA-Z]+]\s[a-zA-Z0-9\-_]+\sError\sin\s[a-zA-Z0-9\-_\s]+:/` at the front of a text. Every class is
-- followed by a character that it does not have, so the longest run is the only one that can match.
matches_here : Part
unfolding one run exactly some_of
matches_here s =
    exactly "[" s
    followed_by some_of is_letter
    followed_by exactly "]"
    followed_by one is_space
    followed_by some_of is_word
    followed_by one is_space
    followed_by exactly "Error"
    followed_by one is_space
    followed_by exactly "in"
    followed_by one is_space
    followed_by some_of (λ c. is_word c || is_space c)
    followed_by exactly ":"

-- `exec`: the leftmost match.
unfoldable pub exec : String → Option String
unfolding matches_here front is_letter is_word is_space
exec String.[] = none
exec (String.◌∷◌ c s) = elim (matches_here (String.◌∷◌ c s)) [
  | none ↦ exec s
  | some rest ↦ some (front (String.count (String.◌∷◌ c s) - String.count rest) (String.◌∷◌ c s))
]
