-- ===== src/Builder/Steps/Cutting.antt =====
-- `removeStateConnection` on a canvas that is in order.
use de_pipeline_tool.Prelude.{
  ℕ, zero, suc, String, false, List, [], ◌∷◌, Option, none, some, ◌≡◌, refl, arith, or_nil, eqb,
  inl, inr, Bool-cases, All, All_mono, remove_at,
}
use de_pipeline_tool.Builder.Model.{Connection, Source, Operator}
use de_pipeline_tool.Builder.Forms.Ready.{IsReady}
use de_pipeline_tool.Builder.Canvas.{map_option, cut_connection, cut_at, cut_in}
use de_pipeline_tool.Builder.Canvas.Sweeping.{IsNumbered, IsTidy}
use de_pipeline_tool.Builder.Connect.{has_connection}
use de_pipeline_tool.Builder.Connect.Wiring.{IsSingle, EverySource}
use de_pipeline_tool.Builder.Session.Returns.{LeadsTo}
use de_pipeline_tool.Builder.Session.Whole.{AllSources_mono}
use de_pipeline_tool.Builder.Steps.Order.{IsFilled, HasEnds, IsOrdered}

remove_at-All {ℓ} :
    {A : Type ℓ} (P : A → Type 0) (xs : List A) (i : ℕ) → All P xs → All P (remove_at xs i)
remove_at-All P [] i h = tt
remove_at-All P (x ∷ xs) zero (p, h) = h
remove_at-All P (x ∷ xs) (suc i) (p, h) = (p, remove_at-All P xs i h)

has_connection-remove_at :
    (u : String) (cs : List Connection) (i : ℕ)
    → has_connection u cs ≡ false
    → has_connection u (remove_at cs i) ≡ false
unfolding has_connection
has_connection-remove_at u [] i h = refl
has_connection-remove_at u (c ∷ cs) zero h = ground arith
has_connection-remove_at u (c ∷ cs) (suc i) h =
    let rest = has_connection-remove_at u cs i (ground arith) in ground arith

remove_at-IsSingle : (cs : List Connection) (i : ℕ) → IsSingle cs → IsSingle (remove_at cs i)
remove_at-IsSingle [] i h = tt
remove_at-IsSingle (c ∷ cs) zero (p, h) = h
remove_at-IsSingle (c ∷ cs) (suc i) (p, h) =
    (has_connection-remove_at c.uuid cs i p, remove_at-IsSingle cs i h)

cut_connection-All :
    (P : Connection → Type 0) (i : ℕ) (cs : Option (List Connection))
    → All P (or_nil cs [])
    → All P (or_nil (map_option (λ l. remove_at l i) cs) [])
cut_connection-All P i none h = tt
cut_connection-All P i (some cs) h = remove_at-All P cs i h

cut_connection-IsSingle :
    (i : ℕ) (cs : Option (List Connection))
    → IsSingle (or_nil cs [])
    → IsSingle (or_nil (map_option (λ l. remove_at l i) cs) [])
cut_connection-IsSingle i none h = tt
cut_connection-IsSingle i (some cs) h = remove_at-IsSingle cs i h

cut_connection-IsTidy : (i : ℕ) (s : Source) → IsTidy s → IsTidy (cut_connection i s)
unfolding cut_connection
cut_connection-IsTidy i s t = record {
  single = cut_connection-IsSingle i s.connections t.single;
  numbered = cut_connection-All IsNumbered i s.connections t.numbered;
}

module _ (ref endpoint i : ℕ) where
  -- What holds of the source endpoints still holds where it holds of the one that is cut.
  module _ (P : Source → Type 0) (k : (s : Source) → P s → P (cut_connection i s)) where
    cut_at-All : (endpoint : ℕ) (ss : List Source) → All P ss → All P (cut_at endpoint i ss)
    unfolding cut_at
    cut_at-All endpoint [] h = tt
    cut_at-All zero (s ∷ ss) (p, h) = (k s p, h)
    cut_at-All (suc endpoint) (s ∷ ss) (p, h) = (p, cut_at-All endpoint ss h)

    cut_option-All :
        (ss : Option (List Source))
        → All P (or_nil ss [])
        → All P (or_nil (map_option (cut_at endpoint i) ss) [])
    cut_option-All none h = tt
    cut_option-All (some ss) h = cut_at-All endpoint ss h

    cut_in-EverySource :
        (os : List Operator) → EverySource P os → EverySource P (cut_in ref endpoint i os)
    unfolding cut_in
    cut_in-EverySource [] h = tt
    cut_in-EverySource (o ∷ os) (p, h) = elim (Bool-cases (eqb o.ref ref)) [
      | inl e ↦ rw (e, cut_in) (cut_option-All o.sources p, h)
      | inr e ↦ rw (e, cut_in) (p, cut_in-EverySource os h)
    ]

  -- What holds of the operators, where it does not look at the connections.
  cut_in-All :
      (P : Operator → Type 0)
      → ((o : Operator) → P o → P (record o { sources = map_option (cut_at endpoint i) o.sources }))
      → (os : List Operator) → All P os
      → All P (cut_in ref endpoint i os)
  unfolding cut_in
  cut_in-All P k [] h = tt
  cut_in-All P k (o ∷ os) (p, h) = elim (Bool-cases (eqb o.ref ref)) [
    | inl e ↦ rw (e, cut_in) (k o p, h)
    | inr e ↦ rw (e, cut_in) (p, cut_in-All P k os h)
  ]

  cut_in-LeadsTo :
      (os : List Operator) (c : Connection) → LeadsTo os c → LeadsTo (cut_in ref endpoint i os) c
  unfolding cut_in
  cut_in-LeadsTo [] c h = absurd h
  cut_in-LeadsTo (o ∷ os) c h = elim (Bool-cases (eqb o.ref ref)) [
    | inl e ↦ elim h [
      | inl here ↦ rw (e, cut_in) (inl here)
      | inr later ↦ rw (e, cut_in) (inr later)
    ]
    | inr e ↦ elim h [
      | inl here ↦ rw (e, cut_in) (inl here)
      | inr later ↦ rw (e, cut_in) (inr (cut_in-LeadsTo os c later))
    ]
  ]

  cut-IsFilled :
      (endpoint : ℕ) (ss : Option (List Source))
      → IsFilled ss
      → IsFilled (map_option (cut_at endpoint i) ss)
  unfolding cut_at
  cut-IsFilled endpoint none h = tt
  cut-IsFilled endpoint (some []) h = h
  cut-IsFilled zero (some (s ∷ ss)) h = tt
  cut-IsFilled (suc endpoint) (some (s ∷ ss)) h = tt

  pub cut_in-IsOrdered : (os : List Operator) → IsOrdered os → IsOrdered (cut_in ref endpoint i os)
  unfolding cut_connection
  cut_in-IsOrdered os h =
      let leads = λ (P : Connection → Type 0) (s : Source) (p : All P (or_nil s.connections [])).
        cut_connection-All P i s.connections p in
      let wired =
        cut_in-EverySource (λ s. All (LeadsTo os) (or_nil s.connections [])) (leads (LeadsTo os)) os
          h.whole.wired in
      record {
        whole = record {
          ready =
              cut_in-All IsReady (λ o r. record { validated = r.validated; covered = r.covered }) os
                h.whole.ready;
          wired =
              All_mono (λ o w. AllSources_mono (cut_in-LeadsTo os) (or_nil o.sources []) w)
                (cut_in ref endpoint i os) wired;
        };
        kept = record {
          tidy = cut_in-EverySource IsTidy (cut_connection-IsTidy i) os h.kept.tidy;
          ended =
              cut_in-All HasEnds
                (λ o p. record {
                  sourced = cut-IsFilled endpoint o.sources p.sourced;
                  targeted = p.targeted;
                  one = p.one;
                  formed = p.formed;
                })
                os h.kept.ended;
        };
      }
