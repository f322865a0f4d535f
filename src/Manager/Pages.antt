-- ===== src/Manager/Pages.antt =====
-- The watch on `active` in system-manager.js: the monitor follows the selection, and the properties
-- of the system are laid out in pages of eight.
use de_pipeline_tool.Prelude.{
  ℕ, zero, suc, ◌+◌, ◌*◌, ◌/◌, ◌≤◌, ◌<◌, length, length-append, String, Bool, true, false, ◌&&◌,
  List, [], ◌∷◌, ◌++◌, append_assoc, append-nil, Option, none, some, ◌≡◌, refl, ap, sym, subst, ◌∙◌,
  inl, inr, if◌then◌else◌, eqb, arith, Bool-cases,
}
use de_pipeline_tool.Manager.Model.{Class, online, Scope, monitor_start}
use de_pipeline_tool.Manager.Actions.{send}

-- `activeProperties[k][key] = value`, for a new key.
unfoldable pub append_at {ℓ} : {A : Type ℓ} → ℕ → A → List (List A) → List (List A)
append_at k a [] = []
append_at zero a (p ∷ ps) = (p ++ a ∷ []) ∷ ps
append_at (suc k) a (p ∷ ps) = p ∷ append_at k a ps

abbrev pub page_size : ℕ
page_size = 8

-- The loop over the properties, with its variables `prevI` and `i`.
unfoldable pub fill_pages {ℓ} :
    {A : Type ℓ} → (previous i : ℕ) → List A → List (List A) → List (List A)
fill_pages previous i [] pages = pages
fill_pages previous i (a ∷ as_left) pages = fill_pages i (i + 1) as_left (
    append_at (i / page_size) a
      (if eqb (i / page_size) (previous / page_size) then pages else pages ++ [] ∷ []))

unfoldable pub pages_of {ℓ} : {A : Type ℓ} → List A → List (List A)
pages_of xs = fill_pages 0 0 xs ([] ∷ [])

abbrev is_online : Option Class → Bool
is_online (some online) = true
is_online _ = false

-- The watch, where `fields` are the keys and values of a system's properties.
unfoldable pub active_changed : List (String × String) → Scope → Scope
active_changed fields s = elim s.active [
  | none ↦ s
  | some e ↦
      send (monitor_start (if s.monitoring && is_online e.class then e.id else some ""))
        (record s { active_properties = pages_of fields })
]

abbrev pub flat {ℓ} : {A : Type ℓ} → List (List A) → List A
flat [] = []
flat (p ∷ ps) = p ++ flat ps

-- Every page but the last is full, and the last has `r` elements.
abbrev pub IsPaged {ℓ} : {A : Type ℓ} → List (List A) → ℕ → Type 0
IsPaged [] r = ⊥
IsPaged (p ∷ []) r = length p ≡ r
IsPaged (p ∷ q ∷ ps) r = (length p ≡ page_size) × IsPaged (q ∷ ps) r

module _ {A : Type 0} where
  append_at-length : (k : ℕ) (a : A) (ps : List (List A)) → length (append_at k a ps) ≡ length ps
  unfolding append_at
  append_at-length k a [] = refl
  append_at-length zero a (p ∷ ps) = refl
  append_at-length (suc k) a (p ∷ ps) = ap suc (append_at-length k a ps)

  append_at-flat :
      (k : ℕ) (a : A) (ps : List (List A))
      → length ps ≡ suc k
      → flat (append_at k a ps) ≡ flat ps ++ a ∷ []
  unfolding append_at
  append_at-flat k a [] h = absurd (omega arith)
  append_at-flat zero a (p ∷ []) h = rw (append-nil (p ++ a ∷ []), append-nil p) refl
  append_at-flat zero a (p ∷ q ∷ ps) h = absurd (omega arith)
  append_at-flat (suc k) a (p ∷ ps) h =
      ap (λ l. p ++ l) (append_at-flat k a ps (omega arith))
      ∙ sym (append_assoc p (flat ps) (a ∷ []))

  append_at-IsPaged :
      (k : ℕ) (a : A) (ps : List (List A)) (r : ℕ)
      → length ps ≡ suc k
      → IsPaged ps r
      → IsPaged (append_at k a ps) (suc r)
  unfolding append_at
  append_at-IsPaged k a [] r h w = absurd w
  append_at-IsPaged zero a (p ∷ []) r h w = omega (arith, length-append p (a ∷ []))
  append_at-IsPaged zero a (p ∷ q ∷ ps) r h w = absurd (omega arith)
  append_at-IsPaged (suc k) a (p ∷ []) r h w = absurd (omega arith)
  append_at-IsPaged (suc zero) a (p ∷ q ∷ []) r h (e, w) =
      (e, append_at-IsPaged zero a (q ∷ []) r refl w)
  append_at-IsPaged (suc zero) a (p ∷ q ∷ q' ∷ ps) r h (e, w) = absurd (omega arith)
  append_at-IsPaged (suc (suc k)) a (p ∷ q ∷ ps) r h (e, w) =
      (e, append_at-IsPaged (suc k) a (q ∷ ps) r (omega arith) w)

  open_page-IsPaged : (ps : List (List A)) → IsPaged ps page_size → IsPaged (ps ++ [] ∷ []) 0
  open_page-IsPaged [] w = absurd w
  open_page-IsPaged (p ∷ []) w = (w, refl)
  open_page-IsPaged (p ∷ q ∷ ps) (e, w) = (e, open_page-IsPaged (q ∷ ps) w)

  open_page-flat : (ps : List (List A)) → flat (ps ++ [] ∷ []) ≡ flat ps
  open_page-flat [] = refl
  open_page-flat (p ∷ ps) = ap (λ l. p ++ l) (open_page-flat ps)

  -- The pages hold `xs`, and `i` elements: `k` full pages, and `r` more on the last.
  record IsFilled (ps : List (List A)) (xs : List A) (i k r : ℕ) : Type 0 where
    size : length ps ≡ suc k
    paged : IsPaged ps r
    room : r ≤ page_size
    total : page_size * k + r ≡ i
    held : flat ps ≡ xs

  append_at-IsFilled :
      (ps : List (List A)) (xs : List A) (i k r : ℕ) (a : A)
      → IsFilled ps xs i k r
      → r < page_size
      → IsFilled (append_at k a ps) (xs ++ a ∷ []) (i + 1) k (suc r)
  append_at-IsFilled ps xs i k r a h small = record {
    size = append_at-length k a ps ∙ h.size;
    paged = append_at-IsPaged k a ps r h.size h.paged;
    room = small;
    total = omega (arith, h.total);
    held = append_at-flat k a ps h.size ∙ ap (λ l. l ++ a ∷ []) h.held;
  }

  open_page-IsFilled :
      (ps : List (List A)) (xs : List A) (i k : ℕ)
      → IsFilled ps xs i k page_size
      → IsFilled (ps ++ [] ∷ []) xs i (suc k) 0
  open_page-IsFilled ps xs i k h = record {
    size = omega (arith, length-append ps ([] ∷ []), h.size);
    paged = open_page-IsPaged ps h.paged;
    room = omega arith;
    total = omega (arith, h.total);
    held = open_page-flat ps ∙ h.held;
  }

  pub Paged : List (List A) → List A → Type 0
  Paged ps xs = (flat ps ≡ xs) × (r : ℕ) × (r ≤ page_size) × IsPaged ps r

  fill_pages-Paged :
      (xs : List A) (previous i k r : ℕ) (ps : List (List A)) (before : List A)
      → IsFilled ps before i k r
      → previous / page_size ≡ k
      → Paged (fill_pages previous i xs ps) (before ++ xs)
  unfolding fill_pages Paged
  fill_pages-Paged [] previous i k r ps before h e =
      (h.held ∙ sym (append-nil before), r, h.room, h.paged)
  fill_pages-Paged (x ∷ xs) previous i k r ps before h e =
      rw (sym (append_assoc before (x ∷ []) xs))
        (elim (Bool-cases (eqb (i / page_size) (previous / page_size))) [
          | inl same ↦
              let q : i / page_size ≡ k = ground (arith, e) in
              let small : r < page_size = omega (arith, q, h.total, h.room) in
              rw (same, q)
                (fill_pages-Paged xs i (i + 1) k (suc r) _ _
                  (append_at-IsFilled ps before i k r x h small) q)
          | inr next ↦
              let full : r ≡ page_size = ground (arith, e, h.total, h.room) in
              let q : i / page_size ≡ suc k = omega (arith, full, h.total) in
              let opened =
                open_page-IsFilled ps before i k (subst (IsFilled ps before i k) full h) in
              rw (next, q)
                (fill_pages-Paged xs i (i + 1) (suc k) 1 _ _
                  (append_at-IsFilled _ before i (suc k) 0 x opened (omega arith)) q)
        ])

  -- The pages that the watch fills hold the properties in their order, every page but the last has
  -- eight of them, and the last has eight at most.
  pub pages_of-Paged : (xs : List A) → Paged (pages_of xs) xs
  unfolding pages_of
  pages_of-Paged xs =
      fill_pages-Paged xs 0 0 0 0 ([] ∷ []) []
        (record { size = refl; paged = refl; room = omega arith; total = refl; held = refl }) refl
