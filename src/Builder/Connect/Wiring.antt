-- ===== src/Builder/Connect/Wiring.antt =====
-- The write of a connection to a source endpoint, and what it keeps of the operators.
use de_pipeline_tool.Prelude.{
  ℕ, zero, suc, String, false, ◌||◌, List, [], ◌∷◌, ◌++◌, Option, none, some, get_elem?, set,
  or_nil, All, inl, inr, Option-cases, ◌≡◌, refl, subst, arith, eq_iff,
}
use de_pipeline_tool.Builder.Model.{Connection, Source, Operator}
use de_pipeline_tool.Builder.Canvas.{map_option}
use de_pipeline_tool.Builder.Forms.Ready.{IsReady}
use de_pipeline_tool.Builder.Check.Returns.{IsNamed}
use de_pipeline_tool.Builder.Session.Returns.{LeadsTo}
use de_pipeline_tool.Builder.Connect.{has_connection, link, source_at, set_source}

-- No two connections to the same endpoint.
abbrev pub IsSingle : List Connection → Type 0
IsSingle [] = Unit
IsSingle (c ∷ cs) = (has_connection c.uuid cs ≡ false) × IsSingle cs

has_connection-append :
    (u : String) (xs ys : List Connection)
    → has_connection u (xs ++ ys) ≡ (has_connection u xs || has_connection u ys)
unfolding has_connection
has_connection-append u [] ys = refl
has_connection-append u (x ∷ xs) ys = let rest = has_connection-append u xs ys in ground arith

pub IsSingle-link :
    (u : String) (cs : List Connection)
    → has_connection u cs ≡ false
    → IsSingle cs
    → IsSingle (cs ++ link u ∷ [])
unfolding has_connection
IsSingle-link u [] h k = (refl, tt)
IsSingle-link u (c ∷ cs) h (p, k) =
    let added = has_connection-append c.uuid cs (link u ∷ []) in
    (ground (arith, eq_iff c.uuid u, eq_iff u c.uuid), IsSingle-link u cs (ground arith) k)

-- What holds of every source endpoint of every operator.
abbrev pub EverySource : (Source → Type 0) → List Operator → Type 0
EverySource Q os = All (λ o. All Q (or_nil o.sources [])) os

set-All :
    (Q : Source → Type 0) (ss : List Source) (j : ℕ) (src : Source)
    → All Q ss
    → Q src
    → All Q (set ss j src)
set-All Q [] j src h q = tt
set-All Q (x ∷ ss) zero src (p, h) q = (q, h)
set-All Q (x ∷ ss) (suc j) src (p, h) q = (p, set-All Q ss j src h q)

map_set-All :
    (Q : Source → Type 0) (sources : Option (List Source)) (j : ℕ) (src : Source)
    → All Q (or_nil sources [])
    → Q src
    → All Q (or_nil (map_option (λ ss. set ss j src) sources) [])
map_set-All Q none j src h q = tt
map_set-All Q (some ss) j src h q = set-All Q ss j src h q

pub set_source-EverySource :
    (Q : Source → Type 0) (os : List Operator) (i j : ℕ) (src : Source)
    → EverySource Q os
    → Q src
    → EverySource Q (set_source os i j src)
unfolding set_source
set_source-EverySource Q [] i j src h q = tt
set_source-EverySource Q (o ∷ os) zero j src (p, h) q = (map_set-All Q o.sources j src p q, h)
set_source-EverySource Q (o ∷ os) (suc i) j src (p, h) q =
    (p, set_source-EverySource Q os i j src h q)

pub get-All {ℓ} :
    {A : Type ℓ} (Q : A → Type 0) (xs : List A) (j : ℕ) (a : A)
    → get_elem? xs j ≡ some a
    → All Q xs
    → Q a
get-All Q [] j a e h = cc
get-All Q (x ∷ xs) zero a e (q, h) = let same : x ≡ a = cc in subst Q same q
get-All Q (x ∷ xs) (suc j) a e (q, h) = get-All Q xs j a e h

none_ne_some {ℓ} : {A : Type ℓ} (a : A) → none ≡ some a → ⊥
none_ne_some a h = cc

pub source_at-EverySource :
    (Q : Source → Type 0) (os : List Operator) (i j : ℕ) (src : Source)
    → source_at os i j ≡ some src
    → EverySource Q os
    → Q src
unfolding source_at
source_at-EverySource Q os i j src e h = elim (Option-cases (get_elem? os i)) [
  | inl n ↦ absurd (none_ne_some src (rw (n, source_at) at e))
  | inr (o, at_i) ↦
      get-All Q (or_nil o.sources []) j src (rw (at_i, source_at) at e) (get-All _ os i o at_i h)
]

-- Names, endpoints that connections lead to, forms and properties stay.
pub set_source-IsReady :
    (os : List Operator) (i j : ℕ) (src : Source)
    → All IsReady os
    → All IsReady (set_source os i j src)
unfolding set_source
set_source-IsReady [] i j src h = tt
set_source-IsReady (o ∷ os) zero j src (r, h) =
    (record { validated = r.validated; covered = r.covered }, h)
set_source-IsReady (o ∷ os) (suc i) j src (r, h) = (r, set_source-IsReady os i j src h)

pub set_source-LeadsTo :
    (os : List Operator) (i j : ℕ) (src : Source) (c : Connection)
    → LeadsTo os c
    → LeadsTo (set_source os i j src) c
unfolding set_source
set_source-LeadsTo [] i j src c h = h
set_source-LeadsTo (o ∷ os) zero j src c (inl here) = inl here
set_source-LeadsTo (o ∷ os) zero j src c (inr later) = inr later
set_source-LeadsTo (o ∷ os) (suc i) j src c (inl here) = inl here
set_source-LeadsTo (o ∷ os) (suc i) j src c (inr later) =
    inr (set_source-LeadsTo os i j src c later)

pub set_source-IsNamed :
    (os : List Operator) (i j : ℕ) (src : Source) (name : String)
    → IsNamed os name
    → IsNamed (set_source os i j src) name
unfolding set_source
set_source-IsNamed [] i j src name h = h
set_source-IsNamed (o ∷ os) zero j src name (inl here) = inl here
set_source-IsNamed (o ∷ os) zero j src name (inr later) = inr later
set_source-IsNamed (o ∷ os) (suc i) j src name (inl here) = inl here
set_source-IsNamed (o ∷ os) (suc i) j src name (inr later) =
    inr (set_source-IsNamed os i j src name later)
