-- ===== src/Outbox/UnitOfWork.antt =====
-- unit_of_work.py. The session of a unit of work is the database with the writes that are not yet
-- committed; `committed` is what a rollback goes back to. `ids` are the identifiers that `uuid4`
-- draws, and `store_payload` is the blob store of the object-store adapter, which may replace a
-- large payload.
pub mod Commit
use portfolio_copilot.Prelude.{if◌then◌else◌, Bool, ℕ, List, [], ◌∷◌, ◌++◌, map, Option, none}
use portfolio_copilot.Domain.Events.{DomainEvent, Payload}
use portfolio_copilot.Outbox.Envelope.{Envelope, make_envelope}
use portfolio_copilot.Outbox.Store.{Db, outbox_row}

pub record UnitOfWork : Type 0 where
  pub session : Db
  pub committed : Db
  pub correlation_id : ℕ
  pub events : List DomainEvent
  pub causation_id : Option ℕ

unfoldable pub collect : List DomainEvent → UnitOfWork → UnitOfWork
collect es u = record u { events = u.events ++ es }

unfoldable pub set_causation : Option ℕ → UnitOfWork → UnitOfWork
set_causation c u = record u { causation_id = c }

-- `[make_envelope(…) for e in self._events]`
pub envelopes : ℕ → Option ℕ → ℕ → List ℕ → List DomainEvent → List Envelope
envelopes correlation cause now (id ∷ ids) (e ∷ es) =
    make_envelope id e correlation now cause ∷ envelopes correlation cause now ids es
envelopes correlation cause now _ _ = []

module _ (store_payload : ℕ → Payload → Payload) where
  unfoldable pub offload_payload : Envelope → Envelope
  offload_payload e = record e { payload = store_payload e.id e.payload }

  -- `commit`: every collected event becomes a row in the transaction of the other writes.
  unfoldable pub commit : ℕ → List ℕ → UnitOfWork → UnitOfWork
  unfolding envelopes offload_payload
  commit now ids u =
      let rows =
        map (λ e. outbox_row (offload_payload e))
          (envelopes u.correlation_id u.causation_id now ids u.events) in
      let db = record u.session { outbox = u.session.outbox ++ rows } in
      record u { session = db; committed = db; events = []; causation_id = none }

  -- `__aexit__`: a block that raised is rolled back, and the others are committed.
  unfoldable pub exit : Bool → ℕ → List ℕ → UnitOfWork → UnitOfWork
  exit raised now ids u = if raised then record u { session = u.committed } else commit now ids u
