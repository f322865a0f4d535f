-- ===== src/Monitor/Apps/Latest.antt =====
-- The list of systems holds the latest run of each name.
use de_pipeline_tool.Prelude.{
  ℕ, ◌≤◌, String, true, ◌||◌, List, [], ◌∷◌, none, some, ◌≡◌, refl, ◌⊎◌, inl, inr, ◌==◌, eq_iff,
  eq_refl, contains, arith, All, Any, subst, Bool-cases, Option-cases, is_some, All_mono,
}
use native.Mathlib.Nat.{le_trans}
use de_pipeline_tool.Builder.Model.{lookup, lookup-insert}
use de_pipeline_tool.Monitor.Apps.{
  App, System, is_later, note_start, name_map, system_of, is_start, is_shown, shown, systems_of,
}

-- The number noted for a name, or zero.
abbrev noted : String → List (String × ℕ) → ℕ
noted name m = elim (lookup name m) [ none ↦ 0 | some n ↦ n ]

-- A note does not fall.
note_start-noted :
    (a : App) (m : List (String × ℕ)) (name : String) → noted name m ≤ noted name (note_start a m)
unfolding note_start is_later
note_start-noted a m name =
    ground (arith, lookup-insert a.name name a.started_time m, eq_iff a.name name)

-- A start that was seen is noted.
note_start_self : (a : App) (m : List (String × ℕ)) → a.started_time ≤ noted a.name (note_start a m)
unfolding note_start is_later
note_start_self a m = ground (arith, lookup-insert a.name a.name a.started_time m, eq_refl a.name)

name_map-noted :
    (apps : List App) (m : List (String × ℕ)) (name : String)
    → noted name m ≤ noted name (name_map apps m)
unfolding name_map
name_map-noted [] m name = omega arith
name_map-noted (a ∷ apps) m name =
    le_trans (note_start-noted a m name) (name_map-noted apps (note_start a m) name)

name_map-latest :
    (apps : List App) (m : List (String × ℕ))
    → All (λ a. a.started_time ≤ noted a.name (name_map apps m)) apps
unfolding name_map
name_map-latest [] m = tt
name_map-latest (a ∷ apps) m = (
  le_trans (note_start_self a m) (name_map-noted apps (note_start a m) a.name),
  name_map-latest apps (note_start a m),
)

-- No application of that name was started later.
abbrev pub IsLatest : List App → App → Type 0
IsLatest apps a = All (λ b. b.name ≡ a.name → b.started_time ≤ a.started_time) apps

IsLatest-of :
    (apps : List App) (a : App) (m : List (String × ℕ))
    → All (λ b. b.started_time ≤ noted b.name m) apps
    → is_start (lookup a.name m) a.started_time ≡ true
    → IsLatest apps a
IsLatest-of [] a m h k = tt
IsLatest-of (b ∷ bs) a m (p, h) k = (λ e. noted_same a b m e p k, IsLatest-of bs a m h k)
  where
    noted_same :
        (a b : App) (m : List (String × ℕ))
        → b.name ≡ a.name
        → b.started_time ≤ noted b.name m
        → is_start (lookup a.name m) a.started_time ≡ true
        → b.started_time ≤ a.started_time
    noted_same a b m e p k =
        let q : b.started_time ≤ noted a.name m =
          subst (λ name. b.started_time ≤ noted name m) e p in
        ground arith

noted_by :
    (a : App) (m : List (String × ℕ)) (name : String) (n : ℕ)
    → lookup name (note_start a m) ≡ some n
    → ((a.name ≡ name) × (a.started_time ≡ n)) ⊎ (lookup name m ≡ some n)
unfolding note_start
noted_by a m name n h =
    ground (arith, lookup-insert a.name name a.started_time m, eq_iff a.name name)

-- What is noted for a name is the start of an application of that name.
name_map-attained :
    (apps : List App) (m : List (String × ℕ)) (name : String) (n : ℕ)
    → lookup name (name_map apps m) ≡ some n
    → Any (λ b. (b.name ≡ name) × (b.started_time ≡ n)) apps ⊎ (lookup name m ≡ some n)
unfolding name_map
name_map-attained [] m name n h = inr h
name_map-attained (a ∷ apps) m name n h = elim (name_map-attained apps (note_start a m) name n h) [
  | inl later ↦ inl (inr later)
  | inr k ↦ elim (noted_by a m name n k) [ inl here ↦ inl (inl here) | inr old ↦ inr old ]
]

IsLatest-bound :
    (apps : List App) (a : App) (n : ℕ)
    → IsLatest apps a
    → Any (λ b. (b.name ≡ a.name) × (b.started_time ≡ n)) apps
    → n ≤ a.started_time
IsLatest-bound [] a n h k = absurd k
IsLatest-bound (b ∷ apps) a n (p, h) (inl (e, f)) = subst (λ t. t ≤ a.started_time) f (p e)
IsLatest-bound (b ∷ apps) a n (p, h) (inr later) = IsLatest-bound apps a n h later

-- A name that was noted has a note.
note_start-is_some :
    (a : App) (m : List (String × ℕ)) → is_some (lookup a.name (note_start a m)) ≡ true
unfolding note_start is_later
note_start-is_some a m =
    ground (arith, lookup-insert a.name a.name a.started_time m, eq_refl a.name)

note_start-keeps :
    (a : App) (m : List (String × ℕ)) (name : String)
    → is_some (lookup name m) ≡ true
    → is_some (lookup name (note_start a m)) ≡ true
unfolding note_start
note_start-keeps a m name h = ground (arith, lookup-insert a.name name a.started_time m)

name_map-keeps :
    (apps : List App) (m : List (String × ℕ)) (name : String)
    → is_some (lookup name m) ≡ true
    → is_some (lookup name (name_map apps m)) ≡ true
unfolding name_map
name_map-keeps [] m name h = h
name_map-keeps (a ∷ apps) m name h =
    name_map-keeps apps (note_start a m) name (note_start-keeps a m name h)

name_map-is_some :
    (apps : List App) (m : List (String × ℕ))
    → All (λ a. is_some (lookup a.name (name_map apps m)) ≡ true) apps
unfolding name_map
name_map-is_some [] m = tt
name_map-is_some (a ∷ apps) m = (
  name_map-keeps apps (note_start a m) a.name (note_start-is_some a m),
  name_map-is_some apps (note_start a m),
)

-- The latest run of a name passes the test of the second loop.
is_start-of :
    (all : List App) (a : App)
    → IsLatest all a
    → is_some (lookup a.name (name_map all [])) ≡ true
    → a.started_time ≤ noted a.name (name_map all [])
    → is_start (lookup a.name (name_map all [])) a.started_time ≡ true
unfolding lookup
is_start-of all a latest there bound = elim (Option-cases (lookup a.name (name_map all []))) [
  | inl gone ↦ cc
  | inr (n, e) ↦ elim (name_map-attained all [] a.name n e) [
    | inl seen ↦ let q = IsLatest-bound all a n latest seen in ground arith
    | inr old ↦ cc
  ]
]

-- The application is to be shown: its name is known or it runs, and it is the latest of its name.
abbrev pub IsCurrent : List String → List App → App → Type 0
IsCurrent names apps a = ((contains names a.name || a.state == "RUNNING") ≡ true) × IsLatest apps a

module _ (names : List String) (all : List App) where
  is_shown-IsCurrent : (a : App) → is_shown names (name_map all []) a ≡ true → IsCurrent names all a
  unfolding is_shown
  is_shown-IsCurrent a h =
      (ground arith, IsLatest-of all a (name_map all []) (name_map-latest all []) (ground arith))

  IsCurrent-is_shown :
      (a : App)
      → is_some (lookup a.name (name_map all [])) ≡ true
      → a.started_time ≤ noted a.name (name_map all [])
      → IsCurrent names all a
      → is_shown names (name_map all []) a ≡ true
  unfolding is_shown
  IsCurrent-is_shown a there bound (known, latest) =
      let last = is_start-of all a latest there bound in ground arith

  shown-IsCurrent :
      (apps : List App)
      → All
          (λ x. Any (λ a. (x ≡ system_of a) × IsCurrent names all a) apps)
          (shown names (name_map all []) apps)
  unfolding shown
  shown-IsCurrent [] = tt
  shown-IsCurrent (a ∷ apps) =
      let later = All_mono (λ x found. inr found) _ (shown-IsCurrent apps) in
      elim (Bool-cases (is_shown names (name_map all []) a)) [
        | inl e ↦ rw e (inl (refl, is_shown-IsCurrent a e), later)
        | inr e ↦ rw e later
      ]

  shown-behind :
      (a : App) (apps : List App) (P : System → Type 0)
      → Any P (shown names (name_map all []) apps)
      → Any P (shown names (name_map all []) (a ∷ apps))
  unfolding shown
  shown-behind a apps P h = elim (Bool-cases (is_shown names (name_map all []) a)) [
    | inl e ↦ rw e (inr h)
    | inr e ↦ rw e h
  ]

  shown-first :
      (a : App) (apps : List App)
      → is_shown names (name_map all []) a ≡ true
      → Any (λ x. x ≡ system_of a) (shown names (name_map all []) (a ∷ apps))
  unfolding shown
  shown-first a apps e = rw e (inl refl)

  shown_complete :
      (apps : List App)
      → All (λ a. is_some (lookup a.name (name_map all [])) ≡ true) apps
      → All (λ a. a.started_time ≤ noted a.name (name_map all [])) apps
      → All
          (λ a.
            IsCurrent names all a → Any (λ x. x ≡ system_of a) (shown names (name_map all []) apps))
          apps
  shown_complete [] h k = tt
  shown_complete (a ∷ apps) (p, h) (q, k) = (
    (λ c. shown-first a apps (IsCurrent-is_shown a p q c)),
    All_mono (λ b f c. shown-behind a apps (λ x. x ≡ system_of b) (f c)) apps
        (shown_complete apps h k),
  )

-- The systems are exactly the current applications: each system is made of one, whose name is known
-- or which runs, and which is the latest of its name, and each such application makes a system.
pub systems_of-IsCurrent :
    (names : List String) (apps : List App)
    → All (λ x. Any (λ a. (x ≡ system_of a) × IsCurrent names apps a) apps) (systems_of names apps)
      × All (λ a. IsCurrent names apps a → Any (λ x. x ≡ system_of a) (systems_of names apps)) apps
unfolding systems_of
systems_of-IsCurrent names apps = (
  shown-IsCurrent names apps apps,
  shown_complete names apps apps (name_map-is_some apps []) (name_map-latest apps []),
)
