-- ===== src/Outbox/Relay/Keeps.antt =====
-- outbox_relay.py: the consistency of the tables across a pass of the relay.
use portfolio_copilot.Outbox.Bus.{
  done_injective, Outcome-cases, publish_sync, >>=-eq-done, done, handlers_for, EventBus,
}
use portfolio_copilot.Outbox.Store.{OutboxRow, Db}
use portfolio_copilot.Prelude.{Option-cases, Bool, String, inr, inl, ◌∷◌, [], ◌≡◌, All, List, ℕ}
use portfolio_copilot.Outbox.Relay.{
  relay_rows, run_once, relay_row, promote, claim, mark_published, record_error, insert_event_log,
}
use portfolio_copilot.Outbox.Envelope.{from_dict, Envelope}
use portfolio_copilot.Outbox.Relay.Consistent.{
  insert-Extends, insert-IsConsistent, append-IsConsistent, insert-is_logged, mark-IsConsistent,
  claim-IsConsistent, Extends-trans, with_rows, Extends-refl, IsFresh, Extends, deliver-follows,
  record_error-IsConsistent, IsConsistent, IsLawful,
}

-- A database that follows another: consistent, with the log extended.
abbrev Follows : Db → Db → Type 0
Follows db db' = IsConsistent db' × Extends db.event_log db'.event_log

mark-Follows :
    (now : ℕ) (e : Envelope) (db : Db) (new : List OutboxRow)
    → IsConsistent db
    → All IsFresh new
    → Follows db (mark_published now e.id (with_rows new (insert_event_log e db)))
mark-Follows now e db new c fresh = (
  mark-IsConsistent now e.id (with_rows new (insert_event_log e db)) (insert-is_logged e db)
      (append-IsConsistent (insert_event_log e db) new fresh (insert-IsConsistent e db c)),
  unfold mark_published in insert-Extends e db,
)

promote-Follows :
    (bus : EventBus Db) (now : ℕ) (e : Envelope) (db db' : Db)
    → IsLawful bus
    → IsConsistent db
    → promote bus now e db ≡ done db'
    → Follows db db'
unfolding promote publish_sync
promote-Follows bus now e db db' lawful c h =
    let (mid, p, q) =
      >>=-eq-done (publish_sync bus e (insert_event_log e db))
        (λ s. done (mark_published now e.id s)) h in
    let (new, fresh, same) =
      deliver-follows (handlers_for e.type bus.sync_handlers) e (insert_event_log e db) mid
        (lawful.follows e.type) p in
    rw (← done_injective q, same) (mark-Follows now e db new c fresh)

error-Follows :
    (id : ℕ) (x : String) (db : Db) → IsConsistent db → Follows db (record_error id x db)
error-Follows id x db c =
    (record_error-IsConsistent id x db c, unfold record_error in Extends-refl db.event_log)

relay_row-Follows :
    (bus : EventBus Db) (now : ℕ) (row : OutboxRow) (n : ℕ) (db : Db)
    → IsLawful bus
    → IsConsistent db
    → Follows db (relay_row bus now row n db).1
unfolding relay_row
relay_row-Follows bus now row n db lawful c = elim (Option-cases (from_dict row.envelope)) [
  | inl unread ↦ rw (unread) (error-Follows row.id _ db c)
  | inr (e, read) ↦ rw read (elim (Outcome-cases (promote bus now e db)) [
    | inl (db', p) ↦ rw p (promote-Follows bus now e db db' lawful c p)
    | inr (x, p) ↦ rw p (error-Follows row.id x db c)
  ])
]

pub relay_rows-Follows :
    (bus : EventBus Db) (now : ℕ) (rows : List OutboxRow) (n : ℕ) (db : Db)
    → IsLawful bus
    → IsConsistent db
    → Follows db (relay_rows bus now rows n db).1
unfolding relay_rows
relay_rows-Follows bus now [] n db lawful c = (c, Extends-refl db.event_log)
relay_rows-Follows bus now (row ∷ rows) n db lawful c =
    let (n', db') = relay_row bus now row n db in
    let (c', grown) = relay_row-Follows bus now row n db lawful c in
    let (c'', grown') = relay_rows-Follows bus now rows n' db' lawful c' in
    (c'', Extends-trans _ _ _ grown grown')

-- A pass of the relay over a consistent database leaves it consistent, whatever the handlers raise
-- and whichever rows cannot be read: every published row is in the event log, no event is in the
-- log twice, and each row holds its own envelope; and the log has only grown at its end. The
-- handlers may write follow-up events to the outbox.
pub run_once_keeps :
    (bus : EventBus Db) (limit now : ℕ) (worker : String) (busy : ℕ → Bool) (db : Db)
    → IsLawful bus
    → IsConsistent db
    → IsConsistent (run_once bus limit now worker busy db).1
      × Extends db.event_log (run_once bus limit now worker busy db).1.event_log
unfolding run_once
run_once_keeps bus limit now worker busy db lawful c =
    let (rows, db') = claim limit now worker busy db in
    relay_rows-Follows bus now rows 0 db' lawful (claim-IsConsistent limit now worker busy db c)
