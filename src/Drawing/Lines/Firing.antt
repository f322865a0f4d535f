-- ===== src/Drawing/Lines/Firing.antt =====
-- A directive is linked, and a timer fires.
use de_pipeline_tool.Prelude.{
  ℕ, Bool, true, false, List, [], ◌∷◌, ◌++◌, Option, none, some, ◌≡◌, refl, ◌∙◌, inl, inr, eqb,
  arith, if◌then◌else◌,
}
use de_pipeline_tool.Drawing.Lines.Members.{eqb-cases, eqb_refl, is_in-snoc, mounted_more}
use de_pipeline_tool.Drawing.Lines.{Instance, Lines, linked, fired, put, is_in, draw, line_step}
use de_pipeline_tool.Drawing.Lines.Law.{Draws, Settled, IsDrawn}

module _ {D : Type 0} (instance_of : Instance D) (ends : ℕ → D → Option (ℕ × ℕ))
    (has_endpoint : ℕ → D → Bool) (source : ℕ) (draws : Draws instance_of ends has_endpoint) where
  pub linked-IsDrawn :
      (t : ℕ) (v : Lines D)
      → Settled instance_of ends has_endpoint source (linked t) v
      → IsDrawn ends has_endpoint source v
      → IsDrawn ends has_endpoint source (line_step instance_of source (linked t) v)
  unfolding line_step
  linked-IsDrawn t v (new, there) i = record {
    kept = i.kept;
    drawn = i.drawn;
    shown = λ l u h. mounted_more u t v.mounted (i.shown l u h);
    ready = ready;
    awaited = λ u h. awaited u h;
    ended = (i.ended.0, λ u h. ended u h);
  }
    where
      ready :
          (u : ℕ)
          → is_in u (t ∷ v.mounted) ≡ true
          → is_in u (v.timers ++ t ∷ []) ≡ false
          → (l : ℕ) × (v.connection_objects u ≡ some l)
      ready u h k = let snoc = is_in-snoc u t v.timers in i.ready u (ground arith) (ground arith)

      awaited : (u : ℕ) → is_in u (v.timers ++ t ∷ []) ≡ true → is_in u (t ∷ v.mounted) ≡ true
      awaited u h =
          let snoc = is_in-snoc u t v.timers in
          elim (eqb-cases u t) [
            | inl same ↦ ground arith
            | inr other ↦ mounted_more u t v.mounted (i.awaited u (ground arith))
          ]

      ended : (u : ℕ) → is_in u (t ∷ v.mounted) ≡ true → has_endpoint u v.drawing ≡ true
      ended u h = elim (eqb-cases u t) [
        | inl same ↦ rw same there
        | inr other ↦ i.ended.1 u (ground arith)
      ]

  again-IsDrawn :
      (t line : ℕ) (ts : List ℕ) (v : Lines D)
      → v.timers ≡ t ∷ ts
      → v.connection_objects t ≡ some line
      → IsDrawn ends has_endpoint source v
      → IsDrawn ends has_endpoint source (record v { timers = ts })
  again-IsDrawn t line ts v e c i = record {
    kept = i.kept;
    drawn = i.drawn;
    shown = i.shown;
    ready = λ u h k. elim (eqb-cases u t) [
      | inl same ↦ (line, rw same c)
      | inr other ↦ i.ready u h (rw e (ground arith))
    ];
    awaited = λ u h. i.awaited u (rw e (mounted_more u t ts h));
    ended = i.ended;
  }

  anew-IsDrawn :
      (t line : ℕ) (ts : List ℕ) (d : D) (v : Lines D)
      → v.timers ≡ t ∷ ts
      → v.connection_objects t ≡ none
      → ends line v.drawing ≡ none
      → ((l : ℕ) → ends l d ≡ (if eqb l line then some (t, source) else ends l v.drawing))
      → ((e : ℕ) → has_endpoint e d ≡ has_endpoint e v.drawing)
      → IsDrawn ends has_endpoint source v
      → IsDrawn ends has_endpoint source (record v {
        timers = ts;
        drawing = d;
        connection_objects = put t (some line) v.connection_objects;
      })
  unfolding put
  anew-IsDrawn t line ts d v e c fresh law same i =
      let shown = i.awaited t (rw e (ground (arith, eqb_refl t))) in
      record {
        kept = λ l u h. elim (eqb-cases l line) [
          | inl here ↦ let a = law l in ground (arith, eqb_refl u)
          | inr other ↦ let a = law l in let k = i.kept l u (ground arith) in ground arith
        ];
        drawn = λ l u h. elim (eqb-cases u t) [
          | inl same ↦ let a = law line in ground (arith, eqb_refl l)
          | inr other ↦ let k = i.drawn l u (ground arith) in let a = law l in ground arith
        ];
        shown = λ l u h. elim (eqb-cases u t) [
          | inl same ↦ rw same shown
          | inr other ↦ i.shown l u (ground arith)
        ];
        ready = λ u h k. elim (eqb-cases u t) [
          | inl same ↦ (line, ground (arith, eqb_refl t))
          | inr other ↦ let (l, k') = i.ready u h (rw e (ground arith)) in (l, ground arith)
        ];
        awaited = λ u h. i.awaited u (rw e (mounted_more u t ts h));
        ended = (same source ∙ i.ended.0, λ u h. same u ∙ i.ended.1 u h);
      }

  pub fired-IsDrawn :
      (v : Lines D)
      → IsDrawn ends has_endpoint source v
      → IsDrawn ends has_endpoint source (line_step instance_of source fired v)
  unfolding line_step draw
  fired-IsDrawn v i = fires v.timers refl
    where
      draws_it :
          (t : ℕ) (ts : List ℕ)
          → v.timers ≡ t ∷ ts
          → (o : Option ℕ) → v.connection_objects t ≡ o
          → IsDrawn ends has_endpoint source (elim o [
            | some line ↦ record v { timers = ts }
            | none ↦ record v {
              timers = ts;
              drawing = (instance_of.connect t source v.drawing).1;
              connection_objects =
                  put t (instance_of.connect t source v.drawing).0 v.connection_objects;
            }
          ])
      draws_it t ts e (some line) c = again-IsDrawn t line ts v e c i
      draws_it t ts e none c =
          let shown = i.awaited t (rw e (ground (arith, eqb_refl t))) in
          let (line, answered, fresh, law) =
            draws.connects t source v.drawing (i.ended.1 t shown) i.ended.0 in
          rw answered (
            anew-IsDrawn t line ts (instance_of.connect t source v.drawing).1 v e c fresh law
              (λ x. draws.stays_connected t source x v.drawing) i)

      fires :
          (ts : List ℕ)
          → v.timers ≡ ts
          → IsDrawn ends has_endpoint source
              (elim ts [ [] ↦ v | t ∷ us ↦ draw instance_of source t (record v { timers = us }) ])
      fires [] e = i
      fires (t ∷ ts) e = draws_it t ts e (v.connection_objects t) refl
