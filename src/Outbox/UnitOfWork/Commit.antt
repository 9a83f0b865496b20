-- ===== src/Outbox/UnitOfWork/Commit.antt =====
-- unit_of_work.py: what `__aexit__` commits and rolls back.
use portfolio_copilot.Prelude.{
  ap, arith, ◌++◌, [], refl, false, ◌∷◌, Option, ◌≡◌, length, map, true, All, List, ℕ,
}
use portfolio_copilot.Domain.Events.{value, DomainEvent, Payload}
use portfolio_copilot.Outbox.UnitOfWork.{UnitOfWork, commit, offload_payload, exit, envelopes}
use portfolio_copilot.Outbox.Store.{OutboxRow, outbox_row}
use portfolio_copilot.Outbox.Envelope.{from_dict-to_dict, to_dict, make_envelope, Envelope}
use portfolio_copilot.Outbox.Relay.Progress.{IsReadable}

module _ (store_payload : ℕ → Payload → Payload) where
  stored_row : Envelope → OutboxRow
  stored_row e = outbox_row (offload_payload store_payload e)

  stored-IsReadable : (e : Envelope) → IsReadable (stored_row e)
  unfolding stored_row outbox_row offload_payload
  stored-IsReadable e = record {
    envelope = offload_payload store_payload e;
    reads = from_dict-to_dict (offload_payload store_payload e);
    same_id = refl;
  }

  stored_rows : List Envelope → List OutboxRow
  stored_rows es = map (λ e. outbox_row (offload_payload store_payload e)) es

  rows-IsReadable : (es : List Envelope) → All IsReadable (stored_rows es)
  unfolding stored_rows
  rows-IsReadable [] = tt
  rows-IsReadable (e ∷ es) = (unfold stored_row in stored-IsReadable e, rows-IsReadable es)

  rows_ids :
      (cause : Option ℕ) (correlation now : ℕ) (ids : List ℕ) (events : List DomainEvent)
      → length ids ≡ length events
      → (map (λ r. r.id) (stored_rows (envelopes correlation cause now ids events)) ≡ ids)
        × (map (λ r. r.envelope.type) (stored_rows (envelopes correlation cause now ids events))
            ≡ map (λ e. value e.type) events)
  unfolding stored_rows envelopes make_envelope outbox_row offload_payload to_dict
  rows_ids cause correlation now [] [] h = (refl, refl)
  rows_ids cause correlation now [] (e ∷ es) h = absurd (omega arith)
  rows_ids cause correlation now (i ∷ ids) [] h = absurd (omega arith)
  rows_ids cause correlation now (i ∷ ids) (e ∷ es) h =
      let (p, q) = rows_ids cause correlation now ids es (omega arith) in
      (ap (λ l. i ∷ l) p, ap (λ l. value e.type ∷ l) q)

  -- A block that ends well commits its writes together with one new outbox row for each collected
  -- event, in order, with the drawn identifiers and the events' types; each row reads back as an
  -- envelope under its identifier, and nothing is left to collect.
  pub exit_commits :
      (now : ℕ) (ids : List ℕ) (u : UnitOfWork)
      → length ids ≡ length u.events
      → let u' = exit store_payload false now ids u in
        (rows : List OutboxRow) × (u'.committed
          ≡ record u.session { outbox = u.session.outbox ++ rows })
        × (map (λ r. r.id) rows ≡ ids)
        × (map (λ r. r.envelope.type) rows ≡ map (λ e. value e.type) u.events)
        × All IsReadable rows
        × (u'.events ≡ [])
  unfolding exit commit
  exit_commits now ids u h =
      let es = envelopes u.correlation_id u.causation_id now ids u.events in
      let (p, q) = rows_ids u.causation_id u.correlation_id now ids u.events h in
      (stored_rows es, unfold stored_rows in refl, p, q, rows-IsReadable es, refl)

  -- A block that raises commits nothing, whatever it wrote and collected.
  pub exit_rolls_back :
      (now : ℕ) (ids : List ℕ) (u : UnitOfWork)
      → ((exit store_payload true now ids u).committed ≡ u.committed)
        × ((exit store_payload true now ids u).session ≡ u.committed)
  unfolding exit
  exit_rolls_back now ids u = (refl, refl)
