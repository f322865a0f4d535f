-- ===== src/Builder/Connect/Written.antt =====
-- The source endpoint that `onConnection` writes, on a canvas that is in order.
use de_pipeline_tool.Prelude.{
  ℕ, String, Bool, List, [], ◌∷◌, or_nil, All, All_mono, All-append, inl, inr, Bool-cases,
}
use de_pipeline_tool.Builder.Model.{Connection, Source, Operator}
use de_pipeline_tool.Builder.Session.Returns.{LeadsTo, IsWhole}
use de_pipeline_tool.Builder.Session.Whole.{AllSources_mono}
use de_pipeline_tool.Builder.Connect.{has_connection, link, connect, set_source}
use de_pipeline_tool.Builder.Connect.Wiring.{
  IsSingle, IsSingle-link, set_source-EverySource, set_source-IsReady, set_source-LeadsTo,
}

-- The connections of a source endpoint are single.
abbrev pub IsSingleSource : Source → Type 0
IsSingleSource x = IsSingle (or_nil x.connections [])

-- The source endpoint that the callback writes.
pub connect-All :
    (P : Connection → Type 0) (cyclical : Bool) (target : String) (src : Source)
    → All P (or_nil src.connections [])
    → P (link target)
    → All P (or_nil (connect cyclical target src).0.connections [])
unfolding connect
connect-All P cyclical target src h p =
    elim (Bool-cases (has_connection target (or_nil src.connections []))) [
      | inl old ↦ rw old h
      | inr new ↦ elim (Bool-cases cyclical) [
        | inl circle ↦ rw (new, circle) h
        | inr open_end ↦
            rw (new, open_end)
              (All-append P (or_nil src.connections []) (link target ∷ []) h (p, tt))
      ]
    ]

pub connect-IsSingle :
    (cyclical : Bool) (target : String) (src : Source)
    → IsSingleSource src
    → IsSingleSource (connect cyclical target src).0
unfolding connect
connect-IsSingle cyclical target src h =
    elim (Bool-cases (has_connection target (or_nil src.connections []))) [
      | inl old ↦ rw old h
      | inr new ↦ elim (Bool-cases cyclical) [
        | inl circle ↦ rw (new, circle) h
        | inr open_end ↦ rw (new, open_end) (IsSingle-link target (or_nil src.connections []) new h)
      ]
    ]

pub set_source-IsWhole :
    (os : List Operator) (i j : ℕ) (src : Source)
    → IsWhole os
    → All (LeadsTo os) (or_nil src.connections [])
    → IsWhole (set_source os i j src)
set_source-IsWhole os i j src h p = record {
  ready = set_source-IsReady os i j src h.ready;
  wired =
      set_source-EverySource (λ x. All (LeadsTo (set_source os i j src)) (or_nil x.connections []))
        os i j src
        (All_mono (λ o w. AllSources_mono (set_source-LeadsTo os i j src) (or_nil o.sources []) w)
          os h.wired)
        (All_mono (set_source-LeadsTo os i j src) (or_nil src.connections []) p);
}
