-- ===== src/Manager/Actions/Lifecycle.antt =====
-- What becomes of the user's requests at the next refresh of the manager.
use de_pipeline_tool.Prelude.{
  sym, Bool-cases, inl, inr, ◌==◌, ℕ, ◌≤◌, or_nil, is_some, eq_iff, String, true, false, List, [],
  ◌∷◌, ◌++◌, Option, none, some, ◌≡◌, refl, ◌∙◌, ap, eq_refl, if◌then◌else◌, arith, contains,
  contains-append,
}
use de_pipeline_tool.Monitor.Apps.{App}
use de_pipeline_tool.Manager.Model.{
  Class, online, errored, launching, Entry, Scope, same, has, drop_first,
}
use de_pipeline_tool.Manager.Refresh.{
  class_of, runs, is_up, launch_class, settle_launch, kill_class, visited, visit,
}
use de_pipeline_tool.Manager.Refresh.Listed.{running_states, has_state, runs-has_state}
use de_pipeline_tool.Manager.Actions.{toggle_system, request_kill, change_log_page}

same_refl : (a : Option String) → same a a ≡ true
same_refl none = refl
same_refl (some s) = eq_refl s

has-snoc : (xs : List (Option String)) (a : Option String) → has (xs ++ a ∷ []) a ≡ true
has-snoc [] a = ground (arith, same_refl a)
has-snoc (x ∷ xs) a = ground (arith, has-snoc xs a)

drop_first-snoc :
    (xs : List (Option String)) (a : Option String)
    → has xs a ≡ false
    → drop_first a (xs ++ a ∷ []) ≡ xs
drop_first-snoc [] a h = rw (same_refl a) refl
drop_first-snoc (x ∷ xs) a h = ground (arith, drop_first-snoc xs a)

toggle_system-running :
    (e : Entry) (s : Scope) → (toggle_system e s).running_system ≡ s.running_system ++ e.uuid ∷ []
unfolding toggle_system
toggle_system-running e s = refl

toggle_system-killing :
    (e : Entry) (s : Scope) → (toggle_system e s).killing_system ≡ s.killing_system
unfolding toggle_system
toggle_system-killing e s = refl

launch_class-snoc :
    (uuid : Option String) (c : Class) (xs : List (Option String))
    → launch_class uuid c (xs ++ uuid ∷ []) ≡ (if is_up c then c else launching)
unfolding launch_class
launch_class-snoc uuid c xs = ground (arith, has-snoc xs uuid)

settle_launch-snoc :
    (uuid : Option String) (c : Class) (xs : List (Option String))
    → has xs uuid ≡ false
    → settle_launch uuid c (xs ++ uuid ∷ []) ≡ (if is_up c then xs else xs ++ uuid ∷ [])
unfolding settle_launch
settle_launch-snoc uuid c xs h = ground (arith, has-snoc xs uuid, drop_first-snoc xs uuid)

-- The class of a system that has come up or has failed, by the state of its application; in any other state, and
-- without an application, it has not.
abbrev pub settled_class : Option App → Option Class
settled_class p =
    if has_state running_states p
    then some online
    else if has_state ("FAILED" ∷ []) p
    then some errored
    else none

class_of-failed : (a : App) → a.state ≡ "FAILED" → class_of (some a) ≡ errored
unfolding class_of runs
class_of-failed a h = rw h refl

offline_none : is_up (class_of none) ≡ false
unfolding class_of
offline_none = refl

class_of-running : (a : App) → runs (some a) ≡ true → class_of (some a) ≡ online
unfolding class_of
class_of-running a h = rw h refl

class_of-other :
    (a : App)
    → runs (some a) ≡ false
    → (a.state == "FAILED") ≡ false
    → is_up (class_of (some a)) ≡ false
unfolding class_of
class_of-other a h k = ground arith

failed_either_way : (t : String) → ("FAILED" == t) ≡ (t == "FAILED")
failed_either_way t = ground (arith, eq_iff t "FAILED", eq_iff "FAILED" t)

settled_class-class_of :
    (p : Option App) → settled_class p ≡ (if is_up (class_of p) then some (class_of p) else none)
settled_class-class_of none = settled_none
  where
    settled_none :
        settled_class none ≡ (if is_up (class_of none) then some (class_of none) else none)
    settled_none = rw offline_none refl
settled_class-class_of (some a) =
    let known = sym (runs-has_state (some a)) in
    elim (Bool-cases (runs (some a))) [
      | inl on ↦ rw (known ∙ on, class_of-running a on) refl
      | inr off ↦ elim (Bool-cases (a.state == "FAILED")) [
        | inl failed ↦
            let c = class_of-failed a ((eq_iff a.state "FAILED").0 failed) in
            rw (known ∙ off, failed_either_way a.state ∙ failed, c) refl
        | inr fine ↦
            rw (known ∙ off, failed_either_way a.state ∙ fine, class_of-other a off fine) refl
      ]
    ]

-- A system that was started, and is neither being started nor killed otherwise, is launching when a
-- refresh visits its new object, and stays on the list of these, until its application is running, accepted or
-- submitted, or has failed: then it is online or errored, and the list is as before the start.
pub toggle_system-visit :
    (show_time : ℕ → String) (e e' : Entry) (s : Scope)
    → e'.uuid ≡ e.uuid
    → has s.running_system e.uuid ≡ false
    → contains s.killing_system e'.name ≡ false
    → ((visited show_time e' (toggle_system e s)).class
        ≡ some (or_nil (settled_class e'.properties) launching))
      × ((visit show_time e' (toggle_system e s)).running_system ≡ (
          if is_some (settled_class e'.properties)
          then s.running_system
          else s.running_system ++ e.uuid ∷ []))
unfolding visited visit toggle_system kill_class
toggle_system-visit show_time e e' s u h k =
    let settled = settled_class-class_of e'.properties in
    rw (u, k)
      (
        ap some (launch_class-snoc e.uuid (class_of e'.properties) s.running_system ∙ ground arith),
        settle_launch-snoc e.uuid (class_of e'.properties) s.running_system h ∙ ground arith,
      )

-- A kill of a system whose kill is pending changes nothing of what was asked: one request goes out.
pub request_kill_twice :
    (e e' : Entry) (s : Scope)
    → e'.name ≡ e.name
    → request_kill e' (request_kill e s) ≡ request_kill e s
unfolding request_kill
request_kill_twice e e' s h =
    let k = contains-append e.name s.killing_system (e.name ∷ []) in
    rw h (ground (arith, k, eq_refl e.name))

abbrev pub change_log_pages : List String → Scope → Scope
change_log_pages [] s = s
change_log_pages (style ∷ styles) s = change_log_pages styles (change_log_page style s)

change_log_page-bounds :
    (style : String) (s : Scope)
    → 1 ≤ s.log_page
    → s.log_page ≤ 4
    → (1 ≤ (change_log_page style s).log_page) × ((change_log_page style s).log_page ≤ 4)
unfolding change_log_page
change_log_page-bounds style s h k = (ground arith, ground arith)

-- From a page between one and four, any sequence of moves leads to a page between one and four.
pub change_log_pages-bounds :
    (styles : List String) (s : Scope)
    → 1 ≤ s.log_page
    → s.log_page ≤ 4
    → (1 ≤ (change_log_pages styles s).log_page) × ((change_log_pages styles s).log_page ≤ 4)
change_log_pages-bounds [] s h k = (h, k)
change_log_pages-bounds (style ∷ styles) s h k =
    let (p, q) = change_log_page-bounds style s h k in
    change_log_pages-bounds styles (change_log_page style s) p q
