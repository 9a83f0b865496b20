-- ===== src/Outbox/Relay/Consistent.antt =====
-- outbox_relay.py: a consistent outbox, and the statements of the relay on it.
use portfolio_copilot.Outbox.Bus.{>>=-eq-done, deliver, done, handlers_for, Handler, EventBus}
use portfolio_copilot.Outbox.Store.{
  has_id, is_logged, IsDistinct, is_published, EventLogRow, OutboxRow, Db,
}
use portfolio_copilot.Prelude.{
  ==_iff, Bool, ◌==◌, String, All-update_where, refl, All-append, inr, inl, arith, any-append_last,
  All-map, ap, any-append, ◌∷◌, ◌||◌, false, ◌∙◌, sym, true, not, [], ◌≡◌, All, Bool-cases, ◌++◌,
  List, ℕ,
}
use portfolio_copilot.Outbox.Relay.{
  failed_row, lock, published_row, claim, mark_published, record_error, insert_event_log,
}
use portfolio_copilot.Domain.Events.{EventType}
use portfolio_copilot.Outbox.Envelope.{printed, Envelope}
use mathlib.Core.List.{append_assoc, append-nil}

-- A published row is in the log.
abbrev pub IsLogged : List EventLogRow → OutboxRow → Type 0
IsLogged log r = (not (is_published r) || is_logged r.id log) ≡ true

abbrev pub HasOwnId : OutboxRow → Type 0
HasOwnId r = r.envelope.id ≡ printed r.id

-- A published row is in the log, no event is logged twice, and a row holds its own envelope.
pub record IsConsistent (db : Db) : Type 0 where
  pub distinct : IsDistinct db.event_log
  pub logged : All (IsLogged db.event_log) db.outbox
  pub own_id : All HasOwnId db.outbox

abbrev pub IsFresh : OutboxRow → Type 0
IsFresh r = (is_published r ≡ false) × HasOwnId r

-- What the documentation allows a handler to write: follow-up events in the outbox.
pub record FollowsUp (h : Handler Db) : Type 0 where
  pub rows :
      (e : Envelope) (db db' : Db)
      → h e db ≡ done db'
      → (new : List OutboxRow) × All IsFresh new × (db' ≡ record db { outbox = db.outbox ++ new })

pub record IsLawful (bus : EventBus Db) : Type 0 where
  pub follows : (t : EventType) → All FollowsUp (handlers_for t bus.sync_handlers)

-- The log has only grown at its end.
abbrev pub Extends : List EventLogRow → List EventLogRow → Type 0
Extends log log' = (tail : List EventLogRow) × (log' ≡ log ++ tail)

pub Extends-trans : (a b c : List EventLogRow) → Extends a b → Extends b c → Extends a c
Extends-trans a b c (t, p) (u, q) = (t ++ u, q ∙ ap (λ x. x ++ u) p ∙ append_assoc a t u)

pub Extends-refl : (a : List EventLogRow) → Extends a a
Extends-refl a = ([], sym (append-nil a))

pub logged_more :
    (id : ℕ) (log tail : List EventLogRow)
    → is_logged id log ≡ true
    → is_logged id (log ++ tail) ≡ true
logged_more id log tail h = any-append (has_id id) log tail h

pub IsDistinct-append :
    (log : List EventLogRow) (row : EventLogRow)
    → is_logged row.event_id log ≡ false
    → IsDistinct log
    → IsDistinct (log ++ row ∷ [])
IsDistinct-append [] row h d = (refl, tt)
IsDistinct-append (e ∷ log) row h d =
    (rw any-append_last (ground arith), IsDistinct-append log row (ground arith) d.1)

pub IsLogged-append :
    (log tail : List EventLogRow) (rows : List OutboxRow)
    → All (IsLogged log) rows
    → All (IsLogged (log ++ tail)) rows
IsLogged-append log tail rows h =
    All-map _ _ rows (λ r x. ground (arith, logged_more r.id log tail)) h

pub insert-IsConsistent :
    (e : Envelope) (db : Db) → IsConsistent db → IsConsistent (insert_event_log e db)
unfolding insert_event_log
insert-IsConsistent e db c = elim (Bool-cases (is_logged e.id db.event_log)) [
  | inl old ↦ rw old c
  | inr new ↦ rw new (record {
    distinct = IsDistinct-append db.event_log _ new c.distinct;
    logged = IsLogged-append db.event_log _ db.outbox c.logged;
    own_id = c.own_id;
  })
]

pub insert-Extends :
    (e : Envelope) (db : Db) → Extends db.event_log (insert_event_log e db).event_log
unfolding insert_event_log
insert-Extends e db = elim (Bool-cases (is_logged e.id db.event_log)) [
  | inl old ↦ rw old (Extends-refl db.event_log)
  | inr new ↦ rw new (_, refl)
]

pub insert-is_logged :
    (e : Envelope) (db : Db) → is_logged e.id (insert_event_log e db).event_log ≡ true
unfolding insert_event_log
insert-is_logged e db = elim (Bool-cases (is_logged e.id db.event_log)) [
  | inl old ↦ rw old old
  | inr new ↦ rw (new, any-append_last, new) (ground arith)
]

pub append-IsConsistent :
    (db : Db) (new : List OutboxRow)
    → All IsFresh new
    → IsConsistent db
    → IsConsistent (record db { outbox = db.outbox ++ new })
append-IsConsistent db new fresh c = record {
  distinct = c.distinct;
  logged =
      All-append (IsLogged db.event_log) db.outbox new c.logged
        (All-map IsFresh (IsLogged db.event_log) new (λ r f. rw (f.0)) fresh);
  own_id =
      All-append HasOwnId db.outbox new c.own_id (All-map IsFresh HasOwnId new (λ r f. f.1) fresh);
}

-- The database with rows behind those of the outbox.
abbrev pub with_rows : List OutboxRow → Db → Db
with_rows new db = record db { outbox = db.outbox ++ new }

pub with_rows-append :
    (db : Db) (new more : List OutboxRow)
    → with_rows more (with_rows new db) ≡ with_rows (new ++ more) db
with_rows-append db new more = rw append_assoc

-- Handlers in a row write follow-up events, and nothing else.
pub deliver-follows :
    (hs : List (Handler Db)) (e : Envelope) (db db' : Db)
    → All FollowsUp hs
    → deliver hs e db ≡ done db'
    → (new : List OutboxRow) × All IsFresh new × (db' ≡ with_rows new db)
unfolding deliver
deliver-follows [] e db db' lawful h = ([], tt, rw (append-nil db.outbox) (cc h))
deliver-follows (k ∷ hs) e db db' lawful h =
    let (mid, p, q) = >>=-eq-done (k e db) (deliver hs e) h in
    let (new, fresh, first) = lawful.0.rows e db mid p in
    let (more, fresh', rest) = deliver-follows hs e mid db' lawful.1 q in
    (
      new ++ more,
      All-append IsFresh new more fresh fresh',
      rest ∙ ap (with_rows more) first ∙ with_rows-append db new more,
    )

pub mark-IsConsistent :
    (now id : ℕ) (db : Db)
    → is_logged id db.event_log ≡ true
    → IsConsistent db
    → IsConsistent (mark_published now id db)
unfolding mark_published
mark-IsConsistent now id db here c = record {
  distinct = c.distinct;
  logged =
      All-update_where (IsLogged db.event_log) (IsLogged db.event_log) (λ r. r.id == id)
        (published_row now) db.outbox (λ r e h. rw ((==_iff r.id id).0 e) here) (λ r e h. h)
        c.logged;
  own_id =
      All-update_where HasOwnId HasOwnId (λ r. r.id == id) (published_row now) db.outbox
        (λ r e h. h) (λ r e h. h) c.own_id;
}

pub record_error-IsConsistent :
    (id : ℕ) (error : String) (db : Db) → IsConsistent db → IsConsistent (record_error id error db)
unfolding record_error
record_error-IsConsistent id error db c = record {
  distinct = c.distinct;
  logged =
      All-update_where (IsLogged db.event_log) (IsLogged db.event_log) (λ r. r.id == id)
        (failed_row error) db.outbox (λ r e h. h) (λ r e h. h) c.logged;
  own_id =
      All-update_where HasOwnId HasOwnId (λ r. r.id == id) (failed_row error) db.outbox (λ r e h. h)
        (λ r e h. h) c.own_id;
}

pub claim-IsConsistent :
    (limit now : ℕ) (worker : String) (busy : ℕ → Bool) (db : Db)
    → IsConsistent db
    → IsConsistent (claim limit now worker busy db).1
unfolding claim
claim-IsConsistent limit now worker busy db c = record {
  distinct = c.distinct;
  logged =
      All-update_where (IsLogged db.event_log) (IsLogged db.event_log) _ (lock now worker) db.outbox
        (λ r e h. h) (λ r e h. h) c.logged;
  own_id =
      All-update_where HasOwnId HasOwnId _ (lock now worker) db.outbox (λ r e h. h) (λ r e h. h)
        c.own_id;
}
