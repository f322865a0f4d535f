-- ===== src/Prelude/Integers.antt =====
-- Integers over the native numbers, counted up and down by one.
use Prim.Native.Nat.{ℕ, zero, suc}
use mathlib.Core.Path.{◌≡◌, refl}

-- `negsuc n` is `-(n + 1)`.
pub data ℤ : Type 0 where
  pos negsuc : ℕ → ℤ

abbrev pub up : ℤ → ℤ
up (pos n) = pos (suc n)
up (negsuc zero) = pos 0
up (negsuc (suc n)) = negsuc n

abbrev pub down : ℤ → ℤ
down (pos zero) = negsuc 0
down (pos (suc n)) = pos n
down (negsuc n) = negsuc (suc n)

-- `z + n`
abbrev pub raise : ℕ → ℤ → ℤ
raise zero z = z
raise (suc n) z = raise n (up z)

-- `z - n`
abbrev pub lower : ℕ → ℤ → ℤ
lower zero z = z
lower (suc n) z = lower n (down z)

pub up-down : (z : ℤ) → up (down z) ≡ z
up-down (pos zero) = refl
up-down (pos (suc n)) = refl
up-down (negsuc n) = refl
