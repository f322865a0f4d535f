-- ===== src/Builder/Steps/Sparing.antt =====
-- What the operators keep when connections are taken off.
use de_pipeline_tool.Prelude.{
  String, false, List, [], ◌∷◌, Option, none, some, ◌≡◌, refl, arith, or_nil, inl, inr, Bool-cases,
  All,
}
use de_pipeline_tool.Builder.Model.{Connection, Source, Target, Operator}
use de_pipeline_tool.Builder.Forms.Ready.{IsReady}
use de_pipeline_tool.Builder.Canvas.{is_hit, map_option}
use de_pipeline_tool.Builder.Canvas.Sweeping.{
  IsNumbered, IsTidy, spared, spared_sources, spared_operators,
}
use de_pipeline_tool.Builder.Connect.{has_connection}
use de_pipeline_tool.Builder.Connect.Wiring.{IsSingle, EverySource}
use de_pipeline_tool.Builder.Session.Returns.{LeadsTo}
use de_pipeline_tool.Builder.Steps.Order.{IsFilled, HasEnds}

module _ (gone : List Target) where
  spared-All :
      (P Q : Connection → Type 0)
      → ((c : Connection) → P c → is_hit gone c ≡ false → Q c)
      → (cs : List Connection) → All P cs
      → All Q (spared gone cs)
  spared-All P Q k [] h = tt
  spared-All P Q k (c ∷ cs) (p, h) = elim (Bool-cases (is_hit gone c)) [
    | inl hit ↦ rw hit (spared-All P Q k cs h)
    | inr miss ↦ rw miss (k c p miss, spared-All P Q k cs h)
  ]

  has_connection-spared :
      (u : String) (cs : List Connection)
      → has_connection u cs ≡ false
      → has_connection u (spared gone cs) ≡ false
  unfolding has_connection
  has_connection-spared u [] h = refl
  has_connection-spared u (c ∷ cs) h =
      let rest = has_connection-spared u cs (ground arith) in ground arith

  spared-IsSingle : (cs : List Connection) → IsSingle cs → IsSingle (spared gone cs)
  spared-IsSingle [] h = tt
  spared-IsSingle (c ∷ cs) (p, h) = elim (Bool-cases (is_hit gone c)) [
    | inl hit ↦ rw hit (spared-IsSingle cs h)
    | inr miss ↦ rw miss (has_connection-spared c.uuid cs p, spared-IsSingle cs h)
  ]

  -- What holds of the source endpoints behind it, by what held of each before.
  module _ (P Q : Source → Type 0)
      (k : (s : Source)
        → P s
        → Q (record s { connections = map_option (spared gone) s.connections })) where
    spared_sources-All : (ss : List Source) → All P ss → All Q (spared_sources gone ss)
    spared_sources-All [] h = tt
    spared_sources-All (s ∷ ss) (p, h) = (k s p, spared_sources-All ss h)

    spared_option-All :
        (ss : Option (List Source))
        → All P (or_nil ss [])
        → All Q (or_nil (map_option (spared_sources gone) ss) [])
    spared_option-All none h = tt
    spared_option-All (some ss) h = spared_sources-All ss h

    pub spared-EverySource :
        (os : List Operator) → EverySource P os → EverySource Q (spared_operators gone os)
    spared-EverySource [] h = tt
    spared-EverySource (o ∷ os) (p, h) = (spared_option-All o.sources p, spared-EverySource os h)

  pub spared_source-All :
      (P Q : Connection → Type 0)
      → ((c : Connection) → P c → is_hit gone c ≡ false → Q c)
      → (cs : Option (List Connection)) → All P (or_nil cs [])
      → All Q (or_nil (map_option (spared gone) cs) [])
  spared_source-All P Q k none h = tt
  spared_source-All P Q k (some cs) h = spared-All P Q k cs h

  spared_source-IsSingle :
      (cs : Option (List Connection))
      → IsSingle (or_nil cs [])
      → IsSingle (or_nil (map_option (spared gone) cs) [])
  spared_source-IsSingle none h = tt
  spared_source-IsSingle (some cs) h = spared-IsSingle cs h

  pub spared_source-IsTidy :
      (s : Source)
      → IsTidy s
      → IsTidy (record s { connections = map_option (spared gone) s.connections })
  spared_source-IsTidy s t = record {
    single = spared_source-IsSingle s.connections t.single;
    numbered = spared_source-All IsNumbered IsNumbered (λ c n _. n) s.connections t.numbered;
  }

  pub spared_operators-IsReady :
      (os : List Operator) → All IsReady os → All IsReady (spared_operators gone os)
  spared_operators-IsReady [] h = tt
  spared_operators-IsReady (o ∷ os) (r, h) =
      (record { validated = r.validated; covered = r.covered }, spared_operators-IsReady os h)

  pub spared_operators-LeadsTo :
      (os : List Operator) (c : Connection) → LeadsTo os c → LeadsTo (spared_operators gone os) c
  spared_operators-LeadsTo [] c h = absurd h
  spared_operators-LeadsTo (o ∷ os) c (inl here) = inl here
  spared_operators-LeadsTo (o ∷ os) c (inr later) = inr (spared_operators-LeadsTo os c later)

  spared-IsFilled :
      (ss : Option (List Source)) → IsFilled ss → IsFilled (map_option (spared_sources gone) ss)
  spared-IsFilled none h = tt
  spared-IsFilled (some []) h = h
  spared-IsFilled (some (s ∷ ss)) h = tt

  pub spared_operators-HasEnds :
      (os : List Operator) → All HasEnds os → All HasEnds (spared_operators gone os)
  spared_operators-HasEnds [] h = tt
  spared_operators-HasEnds (o ∷ os) (p, h) = (
    record {
      sourced = spared-IsFilled o.sources p.sourced;
      targeted = p.targeted;
      one = p.one;
      formed = p.formed;
    },
    spared_operators-HasEnds os h,
  )
