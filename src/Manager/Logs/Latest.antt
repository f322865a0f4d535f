-- ===== src/Manager/Logs/Latest.antt =====
-- What the logs of the systems hold.
use de_pipeline_tool.Prelude.{
  ◌+◌, ◌<◌, length, length-append, String, true, false, List, [], ◌∷◌, ◌++◌, append_assoc, subst,
  sym, done, append-nil, Option, none, some, ◌≡◌, refl, sym, ◌∙◌, ◌⊎◌, inl, inr, ◌==◌, eq_iff,
  if◌then◌else◌, leb, arith, Bool-cases, Option-cases,
}
use de_pipeline_tool.Builder.Model.{lookup-insert}
use de_pipeline_tool.Manager.Logs.{
  Logs, receive_log, messages_of, LogEntry, entry_of, log_of, max_entries, trimmed, push_entry,
  log_all,
}

-- The entries that messages make for a system, in their order.
abbrev pub entries_for : String → List String → List LogEntry
entries_for system [] = []
entries_for system (m ∷ ms) =
    let rest = entries_for system ms in
    elim (entry_of m) [ none ↦ rest | some e ↦ if e.system == system then e ∷ rest else rest ]

-- `kept` are the latest of `all`: all of them, or ninety-nine.
pub record IsLatest (all kept : List LogEntry) : Type 0 where
  pub gone : List LogEntry
  pub order : all ≡ gone ++ kept
  pub bound : length kept < max_entries
  pub full : (gone ≡ []) ⊎ (length kept + 1 ≡ max_entries)

order_behind :
    (gone kept : List LogEntry) {all : List LogEntry} (e : LogEntry)
    → all ≡ gone ++ kept
    → all ++ e ∷ [] ≡ gone ++ (kept ++ e ∷ [])
order_behind gone kept e h = rw (h, append_assoc gone kept (e ∷ [])) refl

push-IsLatest :
    (system : String) (all kept : List LogEntry) (e : LogEntry)
    → (system == "") ≡ false
    → IsLatest all kept
    → IsLatest (all ++ e ∷ []) (trimmed system (kept ++ e ∷ []))
unfolding trimmed
push-IsLatest system all [] e named l = rw named (record {
  gone = l.gone;
  order = order_behind l.gone _ e l.order;
  bound = omega arith;
  full = elim l.full [ inl g ↦ inl g | inr n ↦ absurd (omega arith) ];
})
push-IsLatest system all (k ∷ kept) e named l =
    let longer = length-append kept (e ∷ []) in
    elim (Bool-cases (leb max_entries (length ((k ∷ kept) ++ e ∷ [])))) [
      | inl over ↦
          rw (named, over)
            (record {
              gone = l.gone ++ k ∷ [];
              order =
                  order_behind l.gone _ e l.order
                  ∙ sym (append_assoc l.gone (k ∷ []) (kept ++ e ∷ []));
              bound = ground arith;
              full = inr (ground arith);
            })
      | inr under ↦
          rw (named, under)
            (record {
              gone = l.gone;
              order = order_behind l.gone _ e l.order;
              bound = ground arith;
              full = elim l.full [ inl g ↦ inl g | inr n ↦ absurd (ground arith) ];
            })
    ]

push_entry-IsLatest :
    (system : String) (errors : List (String × List LogEntry)) (all : List LogEntry) (e : LogEntry)
    → (e.system == system) ≡ true
    → (system == "") ≡ false
    → IsLatest all (log_of system errors)
    → IsLatest (all ++ e ∷ []) (log_of system (push_entry e errors))
unfolding push_entry
push_entry-IsLatest system errors all e same named l =
    let pushed = trimmed e.system (log_of e.system errors ++ e ∷ []) in
    rw (lookup-insert e.system system pushed errors, same)
      (subst (λ name. IsLatest (all ++ e ∷ []) (trimmed name (log_of name errors ++ e ∷ [])))
        (sym ((eq_iff e.system system).0 same))
        (push-IsLatest system all (log_of system errors) e named l))

push_entry-other :
    (system : String) (errors : List (String × List LogEntry)) (e : LogEntry)
    → (e.system == system) ≡ false
    → log_of system (push_entry e errors) ≡ log_of system errors
unfolding push_entry
push_entry-other system errors e other =
    let pushed = trimmed e.system (log_of e.system errors ++ e ∷ []) in
    rw (lookup-insert e.system system pushed errors, other) refl

log_all-IsLatest :
    (system : String) (ms : List String) (errors : List (String × List LogEntry))
    (all : List LogEntry)
    → (system == "") ≡ false
    → IsLatest all (log_of system errors)
    → IsLatest (all ++ entries_for system ms) (log_of system (log_all ms errors))
unfolding log_all push_entry
log_all-IsLatest system [] errors all named l = rw (append-nil all) l
log_all-IsLatest system (m ∷ ms) errors all named l = elim (Option-cases (entry_of m)) [
  | inl n ↦ rw (n, log_all, entries_for) (log_all-IsLatest system ms errors all named l)
  | inr (e, h) ↦
      rw (h, log_all, entries_for)
        (elim (Bool-cases (e.system == system)) [
          | inl same ↦
              rw (same, ← append_assoc all (e ∷ []) (entries_for system ms))
                (log_all-IsLatest system ms (push_entry e errors) (all ++ e ∷ []) named
                  (push_entry-IsLatest system errors all e same named l))
          | inr other ↦ rw other (
              log_all-IsLatest system ms (push_entry e errors) all named
                (rw (push_entry-other system errors e other) l))
        ])
]

-- Of the entries that messages have made for a system with a name, the log holds the latest, in their
-- order: all of them, or the last ninety-nine. If this is so before `onMessage` gets a text that it can
-- read, it is so behind it.
pub receive_log-IsLatest :
    (parse : String → Option (List String)) (system text : String) (ms : List String) (l : Logs)
    (all : List LogEntry)
    → (system == "") ≡ false
    → messages_of parse text ≡ some ms
    → IsLatest all (log_of system l.errors)
    → (behind : Logs) × (receive_log parse text l ≡ done behind)
      × IsLatest (all ++ entries_for system ms) (log_of system behind.errors)
unfolding receive_log
receive_log-IsLatest parse system text ms l all named e h = (
  record l { errors = log_all ms l.errors },
  rw (e, receive_log) refl,
  log_all-IsLatest system ms l.errors all named h,
)
