-- ===== src/Drawing/Lines/Erasing.antt =====
-- A directive is destroyed.
use de_pipeline_tool.Prelude.{
  ℕ, Bool, false, Option, none, some, ◌≡◌, refl, sym, ap, ◌∙◌, inl, inr, eqb, arith, if◌then◌else◌,
}
use de_pipeline_tool.Drawing.Lines.Members.{eqb-cases, eqb_refl, is_in-without}
use de_pipeline_tool.Drawing.Lines.{
  Instance, Lines, destroyed, put, is_in, without, destroy, line_step,
}
use de_pipeline_tool.Drawing.Lines.Law.{Draws, IsDrawn}

module _ {D : Type 0} (instance_of : Instance D) (ends : ℕ → D → Option (ℕ × ℕ))
    (has_endpoint : ℕ → D → Bool) (source : ℕ) (draws : Draws instance_of ends has_endpoint) where
  erased-IsDrawn :
      (t : ℕ) (d : D) (v : Lines D)
      → is_in t v.timers ≡ false
      → IsDrawn ends has_endpoint source v
      → ((l u : ℕ)
          → ends l d ≡ some (u, source)
          → (ends l v.drawing ≡ some (u, source)) × (eqb u t ≡ false))
      → ((l u : ℕ)
          → ends l v.drawing ≡ some (u, source)
          → eqb u t ≡ false
          → ends l d ≡ some (u, source))
      → ((e : ℕ) → has_endpoint e d ≡ has_endpoint e v.drawing)
      → IsDrawn ends has_endpoint source (record v {
        mounted = without t v.mounted;
        drawing = d;
        connection_objects = put t none v.connection_objects;
      })
  unfolding put
  erased-IsDrawn t d v free i back on same = record {
    kept = λ l u h. let (a, other) = back l u h in let k = i.kept l u a in ground arith;
    drawn = λ l u h. elim (eqb-cases u t) [
      | inl same_one ↦ ground (arith, eqb_refl t)
      | inr other ↦ on l u (i.drawn l u (ground arith)) other
    ];
    shown = λ l u h. elim (eqb-cases u t) [
      | inl same_one ↦ ground (arith, eqb_refl t)
      | inr other ↦
          let m = i.shown l u (ground arith) in ground (arith, is_in-without u t v.mounted)
    ];
    ready = λ u h k. elim (eqb-cases u t) [
      | inl same_one ↦ ground (arith, eqb_refl t, is_in-without u t v.mounted)
      | inr other ↦
          let (l, at) = i.ready u (ground (arith, is_in-without u t v.mounted)) k in
          (l, ground arith)
    ];
    awaited = λ u h. elim (eqb-cases u t) [
      | inl same_one ↦ ground arith
      | inr other ↦ let m = i.awaited u h in ground (arith, is_in-without u t v.mounted)
    ];
    ended = (
      same source ∙ i.ended.0,
      λ u h. same u ∙ i.ended.1 u (ground (arith, is_in-without u t v.mounted)),
    );
  }

  pub destroyed-IsDrawn :
      (t : ℕ) (v : Lines D)
      → is_in t v.timers ≡ false
      → IsDrawn ends has_endpoint source v
      → IsDrawn ends has_endpoint source (line_step instance_of source (destroyed t) v)
  unfolding line_step destroy
  destroyed-IsDrawn t v free i = erases (v.connection_objects t) refl
    where
      back :
          (line : ℕ)
          → v.connection_objects t ≡ some line
          → (l u : ℕ) → ends l (instance_of.detach line v.drawing) ≡ some (u, source)
          → (ends l v.drawing ≡ some (u, source)) × (eqb u t ≡ false)
      back line c l u h =
          let law = draws.detaches line l v.drawing in
          elim (eqb-cases l line) [
            | inl gone ↦ ground (arith, eqb_refl line)
            | inr left ↦
                let k : ends l v.drawing ≡ some (u, source) = ground arith in
                (
                  k,
                  elim (eqb-cases u t) [
                    | inl same_one ↦
                        let m = sym (ap v.connection_objects same_one) ∙ i.kept l u k in
                        ground arith
                    | inr other ↦ other
                  ],
                )
          ]

      on :
          (line : ℕ)
          → v.connection_objects t ≡ some line
          → (l u : ℕ) → ends l v.drawing ≡ some (u, source)
          → eqb u t ≡ false
          → ends l (instance_of.detach line v.drawing) ≡ some (u, source)
      on line c l u h other =
          let law = draws.detaches line l v.drawing in
          elim (eqb-cases l line) [
            | inl gone ↦
                let m = i.kept l u h in let k = i.drawn line t c in ground (arith, eqb_refl t)
            | inr left ↦ ground arith
          ]

      erases :
          (o : Option ℕ)
          → v.connection_objects t ≡ o
          → IsDrawn ends has_endpoint source (record v {
            mounted = without t v.mounted;
            drawing = elim o [
              | none ↦ v.drawing
              | some line ↦
                  if instance_of.has_ends line v.drawing
                  then instance_of.detach line v.drawing
                  else v.drawing
            ];
            connection_objects = put t none v.connection_objects;
          })
      erases none c =
          erased-IsDrawn t v.drawing v free i
            (λ l u h. (
              h,
              elim (eqb-cases u t) [
                | inl same_one ↦
                    let k = sym (ap v.connection_objects same_one) ∙ i.kept l u h in ground arith
                | inr other ↦ other
              ],
            ))
            (λ l u h other. h) (λ e. refl)
      erases (some line) c =
          let there = draws.tells_ends line (t, source) v.drawing (i.drawn line t c) in
          rw there (
            erased-IsDrawn t (instance_of.detach line v.drawing) v free i (back line c) (on line c)
              (λ e. draws.stays_detached line e v.drawing))
