-- ===== src/Outbox/Relay.antt =====
-- outbox_relay.py: the SQL statements as functions on the tables, and the passes of `run_once`.
-- `now()` is read once for a pass. Rows under another transaction's lock are given by `busy`.
pub mod Consistent
pub mod Keeps
pub mod Progress
pub mod Retry
use portfolio_copilot.Prelude.{
  ℕ, ◌+◌, ◌-◌, ◌≡◌, refl, String, List, [], ◌∷◌, ◌++◌, Option, none, some, Bool, true, false, ◌==◌,
  ltb, ◌&&◌, ◌||◌, not, take, select, any, update_where, map, if◌then◌else◌, is_some,
}
use portfolio_copilot.Outbox.Envelope.{Envelope, EnvelopeDict, from_dict, to_dict}
use portfolio_copilot.Outbox.Store.{OutboxRow, EventLogRow, Db, is_logged, is_published}
use portfolio_copilot.Outbox.Bus.{◌>>=◌, EventBus, Outcome, done, raised, publish_sync}
use portfolio_copilot.Domain.Events.{aggregate_value, value}

-- `interval '5 minutes'`, in microseconds
abbrev pub lock_timeout : ℕ
lock_timeout = 300000000

is_lock_free : ℕ → Option ℕ → Bool
is_lock_free now none = true
is_lock_free now (some t) = ltb (t + lock_timeout) now

-- The `WHERE` of CLAIM_SQL.
unfoldable pub is_claimable : ℕ → OutboxRow → Bool
unfolding is_lock_free
is_claimable now r = not (is_published r) && is_lock_free now r.locked_at

-- `ORDER BY occurred_at, id`
is_before : OutboxRow → OutboxRow → Bool
is_before r s = ltb r.occurred_at s.occurred_at || r.occurred_at == s.occurred_at && ltb r.id s.id

insert_row : OutboxRow → List OutboxRow → List OutboxRow
insert_row r [] = r ∷ []
insert_row r (s ∷ rows) = if is_before r s then r ∷ s ∷ rows else s ∷ insert_row r rows

sort_rows : List OutboxRow → List OutboxRow
unfolding insert_row is_before
sort_rows [] = []
sort_rows (r ∷ rows) = insert_row r (sort_rows rows)

-- The rows that a claim takes.
pub claimed : ℕ → ℕ → (ℕ → Bool) → List OutboxRow → List OutboxRow
unfolding sort_rows is_claimable
claimed limit now busy rows =
    take limit (sort_rows (select (λ r. is_claimable now r && not (busy r.id)) rows))

pub lock : ℕ → String → OutboxRow → OutboxRow
lock now worker r = record r { locked_at = some now; locked_by = some worker }

abbrev pub is_among : List OutboxRow → OutboxRow → Bool
is_among rows r = any (λ c. c.id == r.id) rows

-- CLAIM_SQL: the rows taken, and the table with the marks of the worker.
pub claim : ℕ → ℕ → String → (ℕ → Bool) → Db → List OutboxRow × Db
unfolding claimed lock
claim limit now worker busy db =
    let rows = claimed limit now busy db.outbox in
    (rows, record db { outbox = update_where (is_among rows) (lock now worker) db.outbox })

-- The parameters of INSERT_EVENT_LOG_SQL in `_promote`.
unfoldable pub event_log_row : Envelope → EventLogRow
event_log_row e = record {
  event_id = e.id;
  event_type = value e.type;
  schema_version = e.schema_version;
  aggregate_id = e.aggregate_id;
  aggregate_type = aggregate_value e.aggregate_type;
  occurred_at = e.occurred_at;
  correlation_id = e.correlation_id;
  causation_id = e.causation_id;
  payload = e.payload;
  envelope = to_dict e;
}

-- INSERT_EVENT_LOG_SQL, with `ON CONFLICT (event_id) DO NOTHING`
unfoldable pub insert_event_log : Envelope → Db → Db
unfolding event_log_row
insert_event_log e db =
    if is_logged e.id db.event_log
    then db
    else record db { event_log = db.event_log ++ event_log_row e ∷ [] }

unfoldable pub published_row : ℕ → OutboxRow → OutboxRow
published_row now r = record r { published_at = some now; locked_at = none; locked_by = none }

-- MARK_PUBLISHED_SQL
unfoldable pub mark_published : ℕ → ℕ → Db → Db
unfolding published_row
mark_published now id db = record db {
  outbox = update_where (λ r. r.id == id) (published_row now) db.outbox;
}

unfoldable pub failed_row : String → OutboxRow → OutboxRow
failed_row error r = record r {
  retry_count = r.retry_count + 1;
  locked_at = none;
  locked_by = none;
  last_error = some error;
}

-- RECORD_ERROR_SQL, in a session of its own
unfoldable pub record_error : ℕ → String → Db → Db
unfolding failed_row
record_error id error db = record db {
  outbox = update_where (λ r. r.id == id) (failed_row error) db.outbox;
}

-- `_promote`, up to the commit
unfoldable pub promote : EventBus Db → ℕ → Envelope → Db → Outcome Db
unfolding insert_event_log mark_published
promote bus now e db = do
  db' ← publish_sync bus e (insert_event_log e db)
  done (mark_published now e.id db')

-- After the `try` block: a commit, or a rollback to `db` and the error on record.
unfoldable pub settle : ℕ → ℕ → Db → Outcome Db → ℕ × Db
settle id published db (done db') = (published + 1, db')
settle id published db (raised error) = (published, record_error id error db)

unfoldable pub from_row : EventBus Db → ℕ → Db → Option Envelope → Outcome Db
from_row bus now db none = raised "ValueError"
from_row bus now db (some e) = promote bus now e db

-- The body of the loop in `run_once`.
unfoldable pub relay_row : EventBus Db → ℕ → OutboxRow → ℕ → Db → ℕ × Db
unfolding promote settle from_row record_error
relay_row bus now row published db =
    settle row.id published db (from_row bus now db (from_dict row.envelope))

pub relay_rows : EventBus Db → ℕ → List OutboxRow → ℕ → Db → ℕ × Db
unfolding relay_row
relay_rows bus now [] published db = (published, db)
relay_rows bus now (row ∷ rows) published db =
    let (published', db') = relay_row bus now row published db in
    relay_rows bus now rows published' db'

-- `run_once`: the number of rows published, and the tables after the pass.
pub run_once : EventBus Db → ℕ → ℕ → String → (ℕ → Bool) → Db → ℕ × Db
unfolding claim relay_rows
run_once bus limit now worker busy db =
    let (rows, db') = claim limit now worker busy db in relay_rows bus now rows 0 db'
