-- ===== src/Builder/Cycles/Reach.antt =====
-- The walk for circles is reachability, and it ends where every circle leads through the target.
use de_pipeline_tool.Prelude.{
  ℕ, zero, suc, ◌<◌, Bool, true, false, ◌||◌, List, [], ◌∷◌, Option, none, some, ◌≡◌, refl, subst,
  ◌⊎◌, inl, inr, eqb, arith, Any, Bool-cases, Option-cases,
}
use de_pipeline_tool.Builder.Cycles.{
  Drawing, Answer, says, meet, walk_ends, has_eventual_target, is_cyclical,
}

abbrev pub Member : ℕ → List ℕ → Type 0
Member a xs = Any (λ x. x ≡ a) xs

-- A way from a source endpoint to the target endpoint `t`, along connections and through operators.
pub data Reaches (g : Drawing) (t : ℕ) : ℕ → Type 0 where
  arrives : (s e : ℕ) → Member e (g.targets_of s) → e ≡ t → Reaches g t s
  passes :
      (s e r : ℕ)
      → Member e (g.targets_of s)
      → eqb e t ≡ false
      → g.source_beside e ≡ some r
      → Reaches g t r
      → Reaches g t s

-- The answer is given, and it is `true` exactly if `Q` holds.
pub record Tells (a : Answer) (Q : Type 0) : Type 0 where
  pub verdict : Bool
  pub given : a ≡ says verdict
  pub sound : verdict ≡ true → Q
  pub complete : Q → verdict ≡ true

walk_ends-Tells :
    (walk : Option ℕ → Answer) (beside : ℕ → Option ℕ) (target : Option ℕ) (Q : ℕ → Type 0)
    (es : List ℕ)
    → ((e : ℕ) → Member e es → Tells (meet walk beside target e) (Q e))
    → Tells (walk_ends walk beside target es) (Any Q es)
unfolding walk_ends
walk_ends-Tells walk beside target Q [] h = record {
  verdict = false;
  given = refl;
  sound = λ k. cc;
  complete = λ k. absurd k;
}
walk_ends-Tells walk beside target Q (e ∷ es) h =
    let first = h e (inl refl) in
    let rest = walk_ends-Tells walk beside target Q es (λ x m. h x (inr m)) in
    record {
      verdict = first.verdict || rest.verdict;
      given = rw (first.given, rest.given) refl;
      sound = λ k. elim (Bool-cases first.verdict) [
        | inl yes_first ↦ inl (first.sound yes_first)
        | inr no_first ↦ inr (rest.sound (ground (arith, k)))
      ];
      complete = λ k. elim k [
        | inl here ↦ ground (arith, first.complete here)
        | inr later ↦ ground (arith, rest.complete later)
      ];
    }

-- One end leads to the target: it is the target, or its operator goes on to it.
abbrev Leads : Drawing → ℕ → ℕ → Type 0
Leads g t e =
    (e ≡ t) ⊎ ((eqb e t ≡ false) × ((r : ℕ) × (g.source_beside e ≡ some r) × Reaches g t r))

Reaches-of :
    (g : Drawing) (t s : ℕ) (es : List ℕ)
    → ((e : ℕ) → Member e es → Member e (g.targets_of s))
    → Any (Leads g t) es
    → Reaches g t s
Reaches-of g t s [] k h = absurd h
Reaches-of g t s (e ∷ es) k (inl (inl here)) = arrives s e (k e (inl refl)) here
Reaches-of g t s (e ∷ es) k (inl (inr (other, (r, b, on)))) =
    passes s e r (k e (inl refl)) other b on
Reaches-of g t s (e ∷ es) k (inr later) = Reaches-of g t s es (λ x m. k x (inr m)) later

Any-of : (P : ℕ → Type 0) (e : ℕ) (es : List ℕ) → Member e es → P e → Any P es
Any-of P e [] m h = absurd m
Any-of P e (x ∷ es) (inl here) h = inl (rw here h)
Any-of P e (x ∷ es) (inr later) h = inr (Any-of P e es later h)

Leads-of : (g : Drawing) (t s : ℕ) → Reaches g t s → Any (Leads g t) (g.targets_of s)
Leads-of g t _ (arrives s e m here) = Any-of (Leads g t) e (g.targets_of s) m (inl here)
Leads-of g t _ (passes s e r m other b on) =
    Any-of (Leads g t) e (g.targets_of s) m (inr (other, (r, b, on)))

-- Along the connections that do not end in the target the rank falls: every circle of the drawing
-- leads through the target.
abbrev pub Falls : Drawing → ℕ → (ℕ → ℕ) → Type 0
Falls g t rank =
    (s e r : ℕ)
    → Member e (g.targets_of s)
    → eqb e t ≡ false
    → g.source_beside e ≡ some r
    → rank r < rank s

nowhere_says :
    (g : Drawing) (fuel : ℕ) (t : Option ℕ) → has_eventual_target g fuel none t ≡ says false
unfolding has_eventual_target
nowhere_says g zero t = refl
nowhere_says g (suc fuel) t = refl

module _ (g : Drawing) (t : ℕ) where
  abbrev Walks : ℕ → ℕ → Type 0
  Walks fuel r = Tells (has_eventual_target g fuel (some r) (some t)) (Reaches g t r)

  meet-Tells :
      (fuel e : ℕ)
      → ((r : ℕ) → g.source_beside e ≡ some r → eqb e t ≡ false → Walks fuel r)
      → Tells
          (meet (λ next. has_eventual_target g fuel next (some t)) g.source_beside (some t) e)
          (Leads g t e)
  unfolding meet
  meet-Tells fuel e ih = elim (Bool-cases (eqb e t)) [
    | inl hit ↦ record {
      verdict = true;
      given = rw hit refl;
      sound = λ k. inl (ground (arith, hit));
      complete = λ k. refl;
    }
    | inr miss ↦ elim (Option-cases (g.source_beside e)) [
      | inl alone ↦ record {
        verdict = false;
        given = rw (miss, alone, nowhere_says g fuel (some t)) refl;
        sound = λ k. cc;
        complete = λ k. elim k [ inl here ↦ ground (arith, miss, here) | inr (_, (r, on, _)) ↦ cc ];
      }
      | inr (r, on) ↦ further r miss on (ih r on miss)
    ]
  ]
    where
      further :
          (r : ℕ)
          → eqb e t ≡ false
          → g.source_beside e ≡ some r
          → Walks fuel r
          → Tells
              (meet (λ next. has_eventual_target g fuel next (some t)) g.source_beside (some t) e)
              (Leads g t e)
      further r miss on w = record {
        verdict = w.verdict;
        given = rw (miss, on, w.given) refl;
        sound = λ k. inr (miss, (r, on, w.sound k));
        complete = λ k. elim k [
          | inl here ↦ ground (arith, miss, here)
          | inr (_, (r', on', way)) ↦
              let same : r' ≡ r = cc in w.complete (subst (Reaches g t) same way)
        ];
      }

  has_eventual_target-Walks :
      (rank : ℕ → ℕ) → Falls g t rank → (fuel s : ℕ) → rank s < fuel → Walks fuel s
  unfolding has_eventual_target
  has_eventual_target-Walks rank falls zero s h = absurd (omega arith)
  has_eventual_target-Walks rank falls (suc fuel) s h =
      let ends =
        walk_ends-Tells (λ next. has_eventual_target g fuel next (some t)) g.source_beside (some t)
          (Leads g t) (g.targets_of s)
          (λ e m. meet-Tells fuel e (λ r on miss.
            let lower = falls s e r m miss on in
            has_eventual_target-Walks rank falls fuel r (omega arith))) in
      record {
        verdict = ends.verdict;
        given = ends.given;
        sound = λ k. Reaches-of g t s (g.targets_of s) (λ e m. m) (ends.sound k);
        complete = λ k. ends.complete (Leads-of g t s k);
      }

-- For a source endpoint whose operator has a target endpoint (without one the walk throws at its first end): if
-- along the connections that do not end in this target some rank falls, so that every
-- circle of the drawing leads through this operator, then fuel above the rank of the source endpoint
-- is enough: `isCyclical` ends, and it answers `true` exactly if a way leads from the source endpoint
-- back to the target endpoint of its operator.
pub is_cyclical-Tells :
    (g : Drawing) (s t : ℕ) (rank : ℕ → ℕ) (fuel : ℕ)
    → g.target_beside s ≡ some t
    → Falls g t rank
    → rank s < fuel
    → Tells (is_cyclical g fuel (some s)) (Reaches g t s)
unfolding is_cyclical
is_cyclical-Tells g s t rank fuel own falls h =
    rw own (has_eventual_target-Walks g t rank falls fuel s h)
