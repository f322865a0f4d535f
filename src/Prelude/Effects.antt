-- ===== src/Prelude/Effects.antt =====
-- How a handler ends: it returns, or a TypeError escapes from it (a property of `undefined` is
-- read). Either way the state stays as the handler left it.
use mathlib.Core.Path.{◌≡◌, refl}
use mathlib.Core.Bool.{Bool, true, false}

pub data Outcome {ℓ} (S : Type ℓ) : Type ℓ where
  done : S → Outcome S
  thrown : S → Outcome S

-- One handler after another, on the same state.
infixl 5 ◌then_run◌
abbrev pub ◌then_run◌ {ℓ} : {S : Type ℓ} → Outcome S → (S → Outcome S) → Outcome S
done s then_run f = f s
thrown s then_run f = thrown s

abbrev pub state_of {ℓ} : {S : Type ℓ} → Outcome S → S
state_of (done s) = s
state_of (thrown s) = s

abbrev pub is_done {ℓ} : {S : Type ℓ} → Outcome S → Bool
is_done (done s) = true
is_done (thrown s) = false

pub is_done-eq-done {ℓ} : {S : Type ℓ} (m : Outcome S) → is_done m ≡ true → (s : S) × (m ≡ done s)
is_done-eq-done (done s) h = (s, refl)
is_done-eq-done (thrown s) h = cc

pub eq_done-is_done {ℓ} : {S : Type ℓ} (m : Outcome S) (s : S) → m ≡ done s → is_done m ≡ true
eq_done-is_done (done s) t h = refl
eq_done-is_done (thrown s) t h = cc

-- A handler behind one that returns.
pub then_run-is_done {ℓ} :
    {S : Type ℓ} (m : Outcome S) (f : S → Outcome S)
    → is_done m ≡ true
    → ((s : S) → m ≡ done s → is_done (f s) ≡ true)
    → is_done (m then_run f) ≡ true
then_run-is_done (done s) f h k = k s refl
then_run-is_done (thrown s) f h k = cc
