-- ===== src/Outbox/Tests.antt =====
-- The outbox with one event, and a bus with one handler that records a follow-up.
use portfolio_copilot.Prelude.{
  ◌==◌, update_where, String, str_eq, map, if◌then◌else◌, ◌++◌, Bool-cases, length, List, All, ◌≡◌,
  sym, [], ◌∷◌, refl, none, false, inl, inr,
}
use portfolio_copilot.Prelude.Dict
use portfolio_copilot.Outbox.Bus.{
  publish_sync-subscribe_sync, done_injective, empty_bus, deliver, handlers_for, publish_sync,
  subscribe_sync, ◌>>=◌, Handler, EventBus, done, raised,
}
use portfolio_copilot.Outbox.Store.{outbox_row, Db, OutboxRow}
use portfolio_copilot.Outbox.Relay.Progress.{
  run_once_publishes, IsDelivered, IsReadable, IsTotal, Returns,
}
use portfolio_copilot.Outbox.Relay.{failed_row, settle, promote, run_once, claimed, relay_row}
use portfolio_copilot.Outbox.UnitOfWork.{exit, UnitOfWork}
use portfolio_copilot.Domain.Events.{
  of_aggregate_value, of_value, aggregate_value, other, value, EventType, AggregateType,
  signal_produced, DomainEvent,
}
use portfolio_copilot.Outbox.Envelope.{
  unreadable, from_dict-to_dict, to_dict, make_envelope, from_dict, Envelope,
}
use portfolio_copilot.Positions.Tables.{from_row}
use portfolio_copilot.Outbox.UnitOfWork.Commit.{exit_commits}
use portfolio_copilot.Outbox.Relay.Retry.{relay_row_rolls_back, IsClaimableAgain}
use portfolio_copilot.Outbox.Relay.Consistent.{Extends, FollowsUp, IsConsistent, IsLawful}
use portfolio_copilot.Outbox.Relay.Keeps.{run_once_keeps}

abbrev signal : DomainEvent
signal = record {
  type = signal_produced;
  aggregate_id = "AAPL";
  aggregate_type = AggregateType.signal;
  payload = other;
  schema_version = 1;
}

abbrev first : Envelope
first = make_envelope 5 signal 100 60 none

abbrev second : Envelope
second = make_envelope 6 signal 100 61 none

-- A handler that writes a follow-up event.
follow_up : Handler Db
unfolding outbox_row make_envelope to_dict value aggregate_value
follow_up e db = done (record db { outbox = db.outbox ++ outbox_row second ∷ [] })

abbrev bus : EventBus Db
bus = subscribe_sync signal_produced follow_up (empty_bus Db)

abbrev one_row : Db
one_row = record { outbox = outbox_row first ∷ []; event_log = [] }

follow_up-FollowsUp : FollowsUp follow_up
unfolding follow_up outbox_row make_envelope to_dict
follow_up-FollowsUp = record {
  rows = λ e db db' h. (outbox_row second ∷ [], ((refl, refl), tt), sym (done_injective h));
}

follow_up-Returns : Returns follow_up
unfolding follow_up
follow_up-Returns = record { result = λ e db. (_, refl) }

-- What holds of the one handler holds of every list of handlers on the bus.
on_bus :
    (P : Handler Db → Type 0)
    → P follow_up
    → (t : EventType) → All P (handlers_for t bus.sync_handlers)
unfolding subscribe_sync handlers_for Dict.get
on_bus P h t = elim (Bool-cases (str_eq (value signal_produced) (value t))) [
  | inl e ↦ rw (Dict.get-put, e) (h, tt)
  | inr e ↦ rw (Dict.get-put, e) tt
]

bus-IsLawful : IsLawful bus
bus-IsLawful = record { follows = on_bus FollowsUp follow_up-FollowsUp }

bus-IsTotal : IsTotal bus
bus-IsTotal = record { returns = on_bus Returns follow_up-Returns }

one_row-IsConsistent : IsConsistent one_row
unfolding outbox_row make_envelope to_dict
one_row-IsConsistent = record { distinct = tt; logged = (refl, tt); own_id = (refl, tt) }

run_once_keeps_example :
    IsConsistent (run_once bus 10 99 "worker" (λ _. false) one_row).1
    × Extends one_row.event_log (run_once bus 10 99 "worker" (λ _. false) one_row).1.event_log
run_once_keeps_example =
    run_once_keeps bus 10 99 "worker" (λ _. false) one_row bus-IsLawful one_row-IsConsistent

one_row-IsReadable : All IsReadable one_row.outbox
unfolding outbox_row make_envelope
one_row-IsReadable =
    (record { envelope = first; reads = from_dict-to_dict first; same_id = refl }, tt)

run_once_publishes_example :
    let rows = claimed 10 99 (λ _. false) one_row.outbox in
    let (published, db') = run_once bus 10 99 "worker" (λ _. false) one_row in
    (published ≡ length rows) × All (IsDelivered db') rows
run_once_publishes_example =
    run_once_publishes bus 10 99 "worker" (λ _. false) one_row bus-IsLawful bus-IsTotal
      one_row-IsReadable

-- A handler that raises.
abbrev broken : EventBus Db
broken = subscribe_sync signal_produced (λ e db. raised "timeout") (empty_bus Db)

relay_row_rolls_back_example :
    let db' = (relay_row broken 99 (outbox_row first) 0 one_row).1 in
    (x : String) × (db'.event_log ≡ one_row.event_log)
    × (db'.outbox ≡ update_where (λ r. r.id == (outbox_row first).id) (failed_row x) one_row.outbox)
    × All (IsClaimableAgain (outbox_row first).id 500) db'.outbox
unfolding relay_row promote publish_sync handlers_for subscribe_sync deliver make_envelope
    outbox_row from_dict to_dict Dict.get Dict.put settle from_row of_value of_aggregate_value value
    aggregate_value
relay_row_rolls_back_example = relay_row_rolls_back broken 99 500 (outbox_row first) 0 one_row refl

abbrev work : UnitOfWork
work = record {
  session = one_row;
  committed = record { outbox = []; event_log = [] };
  correlation_id = 100;
  events = signal ∷ signal ∷ [];
  causation_id = none;
}

exit_commits_example :
    let u' = exit (λ id p. p) false 70 (8 ∷ 9 ∷ []) work in
    (rows : List OutboxRow) × (u'.committed
      ≡ record work.session { outbox = work.session.outbox ++ rows })
    × (map (λ r. r.id) rows ≡ 8 ∷ 9 ∷ [])
    × (map (λ r. r.envelope.type) rows ≡ map (λ e. value e.type) work.events)
    × All IsReadable rows
    × (u'.events ≡ [])
exit_commits_example = exit_commits (λ id p. p) 70 (8 ∷ 9 ∷ []) work refl

publish_sync-subscribe_sync_example :
    publish_sync (subscribe_sync signal_produced follow_up bus) first one_row ≡ (
      if str_eq (value signal_produced) (value first.type)
      then publish_sync bus first one_row >>= follow_up first
      else publish_sync bus first one_row)
publish_sync-subscribe_sync_example =
    publish_sync-subscribe_sync signal_produced follow_up bus first one_row

bad_id : from_dict (record (to_dict first) { id = unreadable "x" }) ≡ none
unfolding from_dict
bad_id = refl
