-- ===== src/Shell/Metadata.antt =====
-- The way of the operators' metadata: an answer in operator-library.js makes the shell (app.content.js) ask the
-- builder for them again, and the builder gives the first list it receives to the library and the later
-- ones to the ribbon.
use de_pipeline_tool.Prelude.{
  ℕ, ◌+◌, String, Bool, true, false, List, [], ◌∷◌, Option, none, some, ◌≡◌, refl, sym, ap, ◌∙◌,
  ◌⊎◌, inl, inr, Bool-cases, if◌then◌else◌, Outcome, done, thrown, state_of,
}
use de_pipeline_tool.Builder.Model as BuilderModel
use de_pipeline_tool.Builder.Model.{Property, Category}
use de_pipeline_tool.Builder.Session.{receive_operators}
use de_pipeline_tool.Library.Operators
use de_pipeline_tool.Library.Operators.{receive}

-- The two controllers, the list that the ribbon shows, `loading`, the requests for the metadata, and whether
-- the ribbon has set `refreshOperators`, which it does behind a pause.
pub record Pages : Type 0 where
  pub builder : BuilderModel.Scope
  pub library : Operators.Scope
  pub loading : Bool
  pub ribbon_set : Bool
  pub display_list : Option (List Category)
  pub asked : ℕ

-- The builder's listener of `Updating metadata`.
unfoldable pub updating_metadata : Pages → Pages
updating_metadata p = record p { asked = p.asked + 1 }

-- The library's listener of `Sending operators`.
unfoldable pub sending_operators : List Operators.Operator → Pages → Pages
sending_operators operators p = record p { library = record p.library { operators = operators } }

-- What follows an answer in the library: a TypeError comes before the request.
unfoldable pub after_answer : Pages → Outcome Operators.Scope → Outcome Pages
after_answer p (done l) = done (updating_metadata (record p { library = l }))
after_answer p (thrown l) = thrown (record p { library = l })

-- `opSocket.onMessage` with what it emits.
unfoldable pub op_message : String → Pages → Outcome Pages
op_message answer p = after_answer p (receive answer p.library)

-- `refreshOperators(list)`, which does nothing without a list, and is undefined before the ribbon is set.
unfoldable pub refresh_ribbon : Pages → Outcome Pages
refresh_ribbon p =
    if p.ribbon_set
    then done (elim p.builder.operator_list [
      | none ↦ p
      | some list ↦ record p { display_list = some list }
    ])
    else thrown p

-- The end of the ribbon's pause.
unfoldable pub set_ribbon : Pages → Pages
set_ribbon p = state_of (refresh_ribbon (record p { ribbon_set = true }))

-- What happens on the pages, where the rest of what the library does is a function of its scope.
pub data PageEvent : Type 0 where
  answered : String → PageEvent
  received : List Operators.Operator → List BuilderModel.Operator → PageEvent
  ribbon_ready : PageEvent
  edited : (Operators.Scope → Operators.Scope) → PageEvent

module _ (is_list : Property → Bool) where
  -- `dataStream.onMessage`: the message is parsed once for the library and once for the builder.
  unfoldable pub data_message :
      List Operators.Operator → List BuilderModel.Operator → Pages → Outcome Pages
  data_message copies given p =
      let listed =
        λ (q : Pages). record q { builder = receive_operators is_list given q.builder } in
      let loaded = record (listed (sending_operators copies p)) { loading = false } in
      let refreshed = refresh_ribbon (listed p) in if p.loading then done loaded else refreshed

  unfoldable pub page_step : PageEvent → Pages → Pages
  page_step (answered answer) p = state_of (op_message answer p)
  page_step (received copies given) p = state_of (data_message copies given p)
  page_step ribbon_ready p = set_ribbon p
  page_step (edited f) p = record p { library = f p.library }

  unfoldable pub page_all : List PageEvent → Pages → Pages
  page_all [] p = p
  page_all (e ∷ es) p = page_all es (page_step e p)

  -- What the library itself does in an event.
  abbrev pub own_step : PageEvent → Operators.Scope → Operators.Scope
  own_step (answered answer) l = state_of (receive answer l)
  own_step (edited f) l = f l
  own_step _ l = l

  abbrev pub own_all : List PageEvent → Operators.Scope → Operators.Scope
  own_all [] l = l
  own_all (e ∷ es) l = own_all es (own_step e l)

  -- The builder has its first list, and a ribbon that is set shows the latest.
  abbrev pub IsLoaded : Pages → Type 0
  IsLoaded p =
      (p.loading ≡ false)
      × ((list : List Category) × (p.builder.operator_list ≡ some list))
      × ((p.ribbon_set ≡ false) ⊎ (p.display_list ≡ p.builder.operator_list))

  after_answer-IsLoaded :
      (p : Pages) (o : Outcome Operators.Scope)
      → IsLoaded p
      → IsLoaded (state_of (after_answer p o))
        × ((state_of (after_answer p o)).library ≡ state_of o)
  unfolding after_answer updating_metadata
  after_answer-IsLoaded p (done l) h = (h, refl)
  after_answer-IsLoaded p (thrown l) h = (h, refl)

  page_step-IsLoaded :
      (e : PageEvent) (p : Pages)
      → IsLoaded p
      → IsLoaded (page_step e p) × ((page_step e p).library ≡ own_step e p.library)
  unfolding page_step op_message data_message refresh_ribbon set_ribbon receive_operators
  page_step-IsLoaded (answered answer) p h = after_answer-IsLoaded p (receive answer p.library) h
  page_step-IsLoaded (received copies given) p (h, listed, k) = elim (Bool-cases p.ribbon_set) [
    | inl set ↦ rw (h, set) ((refl, (_, refl), inr refl), refl)
    | inr unset ↦ rw (h, unset) ((refl, (_, refl), inl refl), refl)
  ]
  page_step-IsLoaded ribbon_ready p (h, (list, l), k) = rw l ((h, (list, l), inr (sym l)), refl)
  page_step-IsLoaded (edited f) p h = (h, refl)

  page_all-IsLoaded :
      (es : List PageEvent) (p : Pages)
      → IsLoaded p
      → IsLoaded (page_all es p) × ((page_all es p).library ≡ own_all es p.library)
  unfolding page_all
  page_all-IsLoaded [] p h = (h, refl)
  page_all-IsLoaded (e ∷ es) p h =
      let (l, k) = page_step-IsLoaded e p h in
      let (m, n) = page_all-IsLoaded es (page_step e p) l in (m, n ∙ ap (own_all es) k)

  -- When the builder receives its first list before the ribbon is set, then whatever answers, edits and
  -- later lists follow: the library's scope is what its own handlers make of that first list, and a
  -- ribbon that is set shows the latest list.
  pub page_all-received :
      (copies : List Operators.Operator) (given : List BuilderModel.Operator) (es : List PageEvent)
      (p : Pages)
      → p.loading ≡ true
      → p.ribbon_set ≡ false
      → ((page_all (received copies given ∷ es) p).library
          ≡ own_all es (record p.library { operators = copies }))
        × (((page_all (received copies given ∷ es) p).ribbon_set ≡ false)
            ⊎ ((page_all (received copies given ∷ es) p).display_list
                ≡ (page_all (received copies given ∷ es) p).builder.operator_list))
  unfolding page_all page_step data_message sending_operators receive_operators
  page_all-received copies given es p h k =
      let first = page_step (received copies given) p in
      let start : IsLoaded first × (first.library ≡ record p.library { operators = copies }) =
        rw (h, k) ((refl, (_, refl), inl refl), refl) in
      let (loaded, own) = page_all-IsLoaded es first start.0 in
      (own ∙ ap (own_all es) start.1, loaded.2)
