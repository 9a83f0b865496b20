-- ===== src/Outbox/Relay/Progress.antt =====
-- outbox_relay.py: the publication of the rows that a pass claims.
use portfolio_copilot.Outbox.Bus.{handlers_for, publish_sync, deliver, EventBus, Handler, done}
use portfolio_copilot.Outbox.Relay.{
  is_before, is_among, insert_row, sort_rows, relay_rows, lock, claimed, run_once, relay_row, claim,
  published_row, promote, mark_published, insert_event_log,
}
use portfolio_copilot.Outbox.Store.{is_published, Db, OutboxRow}
use portfolio_copilot.Prelude.{
  inr, inl, Bool-cases, All-map, length, All-select, ◌+◌, String, All-take, any-append, ◌∙◌, ap,
  refl, ◌++◌, [], ◌&&◌, arith, any, true, some, ◌==◌, ◌∷◌, All, ◌≡◌, any-update_where, Bool, List,
  ℕ,
}
use portfolio_copilot.Outbox.Envelope.{from_dict, Envelope}
use portfolio_copilot.Domain.Events.{EventType}
use mathlib.Core.Path.{subst}
use portfolio_copilot.Outbox.Relay.Consistent.{deliver-follows, IsLawful}

abbrev pub is_present : ℕ → Db → Bool
is_present id db = any (λ r. r.id == id) db.outbox

-- Some row of the identifier is published.
abbrev pub is_delivered : ℕ → Db → Bool
is_delivered id db = any (λ r. r.id == id && is_published r) db.outbox

-- A row that the unit of work wrote: its envelope reads back under the row's identifier.
pub record IsReadable (r : OutboxRow) : Type 0 where
  pub envelope : Envelope
  pub reads : from_dict r.envelope ≡ some envelope
  pub same_id : envelope.id ≡ r.id

pub record Returns (h : Handler Db) : Type 0 where
  pub result : (e : Envelope) (db : Db) → (db' : Db) × (h e db ≡ done db')

pub record IsTotal (bus : EventBus Db) : Type 0 where
  pub returns : (t : EventType) → All Returns (handlers_for t bus.sync_handlers)

deliver-total :
    (hs : List (Handler Db)) (e : Envelope) (db : Db)
    → All Returns hs
    → (db' : Db) × (deliver hs e db ≡ done db')
unfolding deliver
deliver-total [] e db total = (db, refl)
deliver-total (h ∷ hs) e db total =
    let (mid, p) = total.0.result e db in
    let (db', q) = deliver-total hs e mid total.1 in (db', rw p q)

-- What a row's promotion does to the outbox.
record Advances (id : ℕ) (db db' : Db) : Type 0 where
  present : (i : ℕ) → is_present i db ≡ true → is_present i db' ≡ true
  delivered : (i : ℕ) → is_delivered i db ≡ true → is_delivered i db' ≡ true
  arrives : is_present id db ≡ true → is_delivered id db' ≡ true

mark-Advances : (now id : ℕ) (db : Db) → Advances id db (mark_published now id db)
unfolding mark_published
mark-Advances now id db = record {
  present = λ i.
      any-update_where (λ r. r.id == i) (λ r. r.id == i) (λ r. r.id == id) (published_row now)
        db.outbox (λ r e h. h) (λ r e h. h);
  delivered = λ i.
      any-update_where (λ r. r.id == i && is_published r) (λ r. r.id == i && is_published r)
        (λ r. r.id == id) (published_row now) db.outbox (λ r e h. ground arith) (λ r e h. h);
  arrives =
      any-update_where (λ r. r.id == id) (λ r. r.id == id && is_published r) (λ r. r.id == id)
        (published_row now) db.outbox (λ r e h. ground arith) (λ r e h. cc);
}

outbox-insert : (e : Envelope) (db : Db) → (insert_event_log e db).outbox ≡ db.outbox
unfolding insert_event_log
outbox-insert e db = ground arith

promote-Advances :
    (bus : EventBus Db) (now : ℕ) (e : Envelope) (db : Db)
    → IsLawful bus
    → IsTotal bus
    → (db' : Db) × (promote bus now e db ≡ done db') × Advances e.id db db'
unfolding promote publish_sync
promote-Advances bus now e db lawful total =
    let hs = handlers_for e.type bus.sync_handlers in
    let (mid, p) = deliver-total hs e (insert_event_log e db) (total.returns e.type) in
    let (new, fresh, same) =
      deliver-follows hs e (insert_event_log e db) mid (lawful.follows e.type) p in
    let a = mark-Advances now e.id mid in
    let out : mid.outbox ≡ db.outbox ++ new =
      ap (λ (d : Db). d.outbox) same ∙ ap (λ l. l ++ new) (outbox-insert e db) in
    (
      mark_published now e.id mid,
      rw p,
      record {
        present = λ i h. a.present i (rw out (any-append _ db.outbox new h));
        delivered = λ i h. a.delivered i (rw out (any-append _ db.outbox new h));
        arrives = λ h. a.arrives (rw out (any-append _ db.outbox new h));
      },
    )

relay_row-Advances :
    (bus : EventBus Db) (now : ℕ) (row : OutboxRow) (n : ℕ) (db : Db)
    → IsLawful bus
    → IsTotal bus
    → IsReadable row
    → ((relay_row bus now row n db).0 ≡ n + 1) × Advances row.id db (relay_row bus now row n db).1
unfolding relay_row
relay_row-Advances bus now row n db lawful total readable =
    let (db', p, a) = promote-Advances bus now readable.envelope db lawful total in
    rw (readable.reads, p) (refl, subst (λ i. Advances i db db') readable.same_id a)

abbrev IsPresent : Db → OutboxRow → Type 0
IsPresent db r = is_present r.id db ≡ true

abbrev pub IsDelivered : Db → OutboxRow → Type 0
IsDelivered db r = is_delivered r.id db ≡ true

relay_rows-publishes :
    (bus : EventBus Db) (now : ℕ) (rows : List OutboxRow) (n : ℕ) (db : Db)
    → IsLawful bus
    → IsTotal bus
    → All IsReadable rows
    → All (IsPresent db) rows
    → ((relay_rows bus now rows n db).0 ≡ n + length rows)
      × All (IsDelivered (relay_rows bus now rows n db).1) rows
      × ((i : ℕ)
          → is_delivered i db ≡ true
          → is_delivered i (relay_rows bus now rows n db).1 ≡ true)
unfolding relay_rows
relay_rows-publishes bus now [] n db lawful total readable present = (omega arith, tt, λ i h. h)
relay_rows-publishes bus now (row ∷ rows) n db lawful total readable present =
    let (n', db') = relay_row bus now row n db in
    let (count, a) = relay_row-Advances bus now row n db lawful total readable.0 in
    let (count', delivered, keeps) =
      relay_rows-publishes bus now rows n' db' lawful total readable.1
        (All-map (IsPresent db) (IsPresent db') rows (λ r h. a.present r.id h) present.1) in
    (
      omega (arith, count, count'),
      (keeps row.id (a.arrives present.0), delivered),
      λ i h. keeps i (a.delivered i h),
    )

-- Every row of a list is found in it.
present_in :
    (rows all : List OutboxRow)
    → ((i : ℕ) → any (λ r. r.id == i) rows ≡ true → any (λ r. r.id == i) all ≡ true)
    → All (λ r. any (λ s. s.id == r.id) all ≡ true) rows
present_in [] all f = tt
present_in (r ∷ rows) all f =
    (f r.id (ground arith), present_in rows all (λ i h. f i (ground arith)))

All-insert_row :
    (P : OutboxRow → Type 0) (r : OutboxRow) (rows : List OutboxRow)
    → P r
    → All P rows
    → All P (insert_row r rows)
unfolding insert_row
All-insert_row P r [] p h = (p, tt)
All-insert_row P r (s ∷ rows) p h = elim (Bool-cases (is_before r s)) [
  | inl e ↦ rw e (p, h)
  | inr e ↦ rw e (h.0, All-insert_row P r rows p h.1)
]

All-sort_rows :
    (P : OutboxRow → Type 0) (rows : List OutboxRow) → All P rows → All P (sort_rows rows)
unfolding sort_rows
All-sort_rows P [] h = tt
All-sort_rows P (r ∷ rows) h = All-insert_row P r (sort_rows rows) h.0 (All-sort_rows P rows h.1)

-- The claimed rows are rows of the table.
All-claimed :
    (P : OutboxRow → Type 0) (limit now : ℕ) (busy : ℕ → Bool) (rows : List OutboxRow)
    → All P rows
    → All P (claimed limit now busy rows)
unfolding claimed
All-claimed P limit now busy rows h = All-take P limit _ (All-sort_rows P _ (All-select P _ rows h))

claim-present :
    (limit now : ℕ) (worker : String) (busy : ℕ → Bool) (db : Db) (i : ℕ)
    → is_present i db ≡ true
    → is_present i (claim limit now worker busy db).1 ≡ true
unfolding claim lock
claim-present limit now worker busy db i h =
    any-update_where (λ r. r.id == i) (λ r. r.id == i) (is_among (claimed limit now busy db.outbox))
      (lock now worker) db.outbox (λ r e h. h) (λ r e h. h) h

-- Over an outbox of rows that read back, with handlers that return and write only follow-up events,
-- a pass publishes every row that it claims, and reports their number.
pub run_once_publishes :
    (bus : EventBus Db) (limit now : ℕ) (worker : String) (busy : ℕ → Bool) (db : Db)
    → IsLawful bus
    → IsTotal bus
    → All IsReadable db.outbox
    → let rows = claimed limit now busy db.outbox in
      let (published, db') = run_once bus limit now worker busy db in
      (published ≡ length rows) × All (IsDelivered db') rows
unfolding run_once
run_once_publishes bus limit now worker busy db lawful total readable =
    let rows = claimed limit now busy db.outbox in
    let db' = (claim limit now worker busy db).1 in
    let here =
      All-claimed (IsPresent db) limit now busy db.outbox
        (present_in db.outbox db.outbox (λ i h. h)) in
    let (count, delivered, keeps) =
      relay_rows-publishes bus now rows 0 db' lawful total
        (All-claimed IsReadable limit now busy db.outbox readable)
        (All-map (IsPresent db) (IsPresent db') rows
          (λ r h. claim-present limit now worker busy db r.id h) here) in
    (omega (arith, count), delivered)
