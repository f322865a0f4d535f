-- ===== src/Builder/Steps/Order.antt =====
-- A canvas as the page itself makes it: what is kept beside `IsWhole` so that operators can be removed and
-- systems loaded.
use de_pipeline_tool.Prelude.{
  ℕ, Bool, true, is_some, Option-cases, ◌∙◌, List, [], ◌∷◌, ◌++◌, Option, none, some, ◌≡◌, refl,
  sym, subst, or_nil, All, All-append, to_string, zero, suc, set, inl, inr,
}
use de_pipeline_tool.Builder.Model.{Source, Operator}
use de_pipeline_tool.Builder.Canvas.{map_option}
use de_pipeline_tool.Builder.Canvas.Sweeping.{IsNumbered, IsTidy, AtMostOne}
use de_pipeline_tool.Builder.Connect.{connect, source_at, set_source}
use de_pipeline_tool.Builder.Connect.Wiring.{
  EverySource, source_at-EverySource, set_source-EverySource,
}
use de_pipeline_tool.Builder.Connect.Written.{connect-All, connect-IsSingle}
use de_pipeline_tool.Builder.Connect.Whole.{EverySource-same}
use de_pipeline_tool.Builder.Session.Returns.{IsWhole}
use de_pipeline_tool.Builder.Session.Whole.{plain, plain_all, IsWhole-same}

-- A list that is there is not empty.
abbrev pub IsFilled {ℓ} : {A : Type ℓ} → Option (List A) → Type 0
IsFilled none = Unit
IsFilled (some []) = ⊥
IsFilled (some (x ∷ xs)) = Unit

-- The endpoints and the form of an operator: no list of endpoints is empty, one target at most, and there is
-- a form.
pub record HasEnds (o : Operator) : Type 0 where
  pub sourced : IsFilled o.sources
  pub targeted : IsFilled o.targets
  pub one : AtMostOne (or_nil o.targets [])
  pub formed : is_some o.form ≡ true

-- What is kept beside `IsWhole`.
pub record IsKept (os : List Operator) : Type 0 where
  pub tidy : EverySource IsTidy os
  pub ended : All HasEnds os

pub record IsOrdered (os : List Operator) : Type 0 where
  pub whole : IsWhole os
  pub kept : IsKept os

pub nothing-IsOrdered : IsOrdered []
nothing-IsOrdered = record {
  whole = record { ready = tt; wired = tt };
  kept = record { tidy = tt; ended = tt };
}

is_some-plain : (o : Operator) → is_some (plain o).form ≡ is_some o.form
is_some-plain o = elim (Option-cases o.form) [ inl e ↦ rw e refl | inr (f, e) ↦ rw e refl ]

HasEnds-plain : (os : List Operator) → All HasEnds os → All HasEnds (plain_all os)
HasEnds-plain [] h = tt
HasEnds-plain (o ∷ os) (p, h) = (
  record {
    sourced = p.sourced;
    targeted = p.targeted;
    one = p.one;
    formed = is_some-plain o ∙ p.formed;
  },
  HasEnds-plain os h,
)

HasEnds-of_plain : (os : List Operator) → All HasEnds (plain_all os) → All HasEnds os
HasEnds-of_plain [] h = tt
HasEnds-of_plain (o ∷ os) (p, h) = (
  record {
    sourced = p.sourced;
    targeted = p.targeted;
    one = p.one;
    formed = sym (is_some-plain o) ∙ p.formed;
  },
  HasEnds-of_plain os h,
)

-- It does not depend on the flags of forms.
pub IsKept-same : (os os' : List Operator) → plain_all os' ≡ plain_all os → IsKept os → IsKept os'
IsKept-same os os' e h = record {
  tidy = EverySource-same IsTidy os os' e h.tidy;
  ended = HasEnds-of_plain os' (subst (All HasEnds) (sym e) (HasEnds-plain os h.ended));
}

pub IsOrdered-same :
    (os os' : List Operator) → plain_all os' ≡ plain_all os → IsOrdered os → IsOrdered os'
IsOrdered-same os os' e h = record {
  whole = IsWhole-same os os' e h.whole;
  kept = IsKept-same os os' e h.kept;
}

IsFilled-set :
    (sources : Option (List Source)) (j : ℕ) (src : Source)
    → IsFilled sources
    → IsFilled (map_option (λ ss. set ss j src) sources)
IsFilled-set none j src h = tt
IsFilled-set (some []) j src h = h
IsFilled-set (some (x ∷ xs)) zero src h = tt
IsFilled-set (some (x ∷ xs)) (suc j) src h = tt

set_source-HasEnds :
    (os : List Operator) (i j : ℕ) (src : Source)
    → All HasEnds os
    → All HasEnds (set_source os i j src)
unfolding set_source
set_source-HasEnds [] i j src h = tt
set_source-HasEnds (o ∷ os) zero j src (p, h) = (
  record {
    sourced = IsFilled-set o.sources j src p.sourced;
    targeted = p.targeted;
    one = p.one;
    formed = p.formed;
  },
  h,
)
set_source-HasEnds (o ∷ os) (suc i) j src (p, h) = (p, set_source-HasEnds os i j src h)

-- A connection to the endpoint of a number is written at a source endpoint.
pub connect-IsKept :
    (n : ℕ) (os : List Operator) (i j : ℕ) (src : Source) (cyclical : Bool)
    → source_at os i j ≡ some src
    → IsKept os
    → IsKept (set_source os i j (connect cyclical (to_string n) src).0)
connect-IsKept n os i j src cyclical e h =
    let t = source_at-EverySource IsTidy os i j src e h.tidy in
    let src' = (connect cyclical (to_string n) src).0 in
    record {
      tidy = set_source-EverySource IsTidy os i j src' h.tidy (record {
        single = connect-IsSingle cyclical (to_string n) src t.single;
        numbered = connect-All IsNumbered cyclical (to_string n) src t.numbered (n, refl);
      });
      ended = set_source-HasEnds os i j src' h.ended;
    }

-- An operator is added whose source endpoints have no connections.
pub IsKept-snoc :
    (os : List Operator) (o : Operator)
    → IsKept os
    → HasEnds o
    → All IsTidy (or_nil o.sources [])
    → IsKept (os ++ o ∷ [])
IsKept-snoc os o h e t = record {
  tidy = All-append (λ x. All IsTidy (or_nil x.sources [])) os (o ∷ []) h.tidy (t, tt);
  ended = All-append HasEnds os (o ∷ []) h.ended (e, tt);
}
