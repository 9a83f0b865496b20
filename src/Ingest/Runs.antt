-- ===== src/Ingest/Runs.antt =====
-- `execute`: what a run returns, stores and emits, and a second run on the same feed.
use mathlib.Core.List.{append-nil}
use portfolio_copilot.Prelude.{◌+◌, [], ◌∷◌, length, ◌++◌, ◌≡◌, Result, List, ℕ, Option, refl, ok}
use portfolio_copilot.Ingest.{
  TradeDisclosureRow, IngestResult, execute, IngestCommand, collect_some, store_batch, Work,
}
use portfolio_copilot.Outbox.UnitOfWork.{UnitOfWork, collect}
use portfolio_copilot.Prelude.Int.{ℤ}
use portfolio_copilot.Domain.Events.{DomainEvent}
use portfolio_copilot.Domain.Congress.{TradeDisclosure}
use portfolio_copilot.Ingest.Loops.{unstored, ingest_batch-eq, events_of}
use portfolio_copilot.Ingest.Stored.{
  store_batch-stored, AllStored, store_batch-again, store_batch_lem, IsUnique,
}

store_batch-fetched :
    (now : ℕ) (ds : List TradeDisclosure) (w : Work) → (store_batch now ds w).0.fetched ≡ length ds
unfolding store_batch
store_batch-fetched now ds w = refl

collect_some-eq :
    (es : List DomainEvent) (u : UnitOfWork)
    → collect_some es u ≡ record u { events = u.events ++ es }
unfolding collect_some collect
collect_some-eq [] u = rw (append-nil u.events) refl
collect_some-eq (e ∷ es) u = refl

store_batch-uow :
    (now : ℕ) (ds : List TradeDisclosure) (w : Work)
    → (store_batch now ds w).1.uow ≡ record w.uow {
      events = w.uow.events ++ events_of now (store_batch now ds w).0.new_disclosures;
    }
unfolding store_batch
store_batch-uow now ds w =
    rw (ingest_batch-eq now ds w.trade_disclosures)
      (collect_some-eq (events_of now (unstored w.trade_disclosures ds)) w.uow)

pub execute-answered :
    (cmd : IngestCommand) (feed : Option ℕ → ℤ → Result (List TradeDisclosure)) (now : ℕ) (w : Work)
    (ds : List TradeDisclosure)
    → feed cmd.since cmd.limit ≡ ok ds
    → execute cmd feed now w ≡ (ok (store_batch now ds w).0, (store_batch now ds w).1)
unfolding execute
execute-answered cmd feed now w ds e = rw (execute, e) refl

-- `execute` on a feed that answers: it returns, and the table keeps its rows at their places with
-- their values. No filing stands in the table twice, if none did before, and every fetched filing
-- has a row. The counts add up, and the unit of work has collected one event for each disclosure
-- that is returned as new.
pub execute-stores :
    (cmd : IngestCommand) (feed : Option ℕ → ℤ → Result (List TradeDisclosure)) (now : ℕ) (w : Work)
    (ds : List TradeDisclosure)
    → feed cmd.since cmd.limit ≡ ok ds
    → IsUnique w.trade_disclosures
    → (r : IngestResult) × (w' : Work) × (execute cmd feed now w ≡ (ok r, w'))
      × IsUnique w'.trade_disclosures
      × AllStored ds w'.trade_disclosures
      × ((added : List TradeDisclosureRow) × (w'.trade_disclosures ≡ w.trade_disclosures ++ added))
      × (r.fetched ≡ length ds)
      × (r.inserted + r.duplicates_skipped ≡ r.fetched)
      × (w'.uow ≡ record w.uow { events = w.uow.events ++ events_of now r.new_disclosures })
execute-stores cmd feed now w ds e v =
    let (distinct, stored, kept, counts) = store_batch_lem now ds w v in
    let (r, w') = store_batch now ds w in
    (
      r,
      w',
      execute-answered cmd feed now w ds e,
      distinct,
      stored,
      kept,
      store_batch-fetched now ds w,
      counts,
      store_batch-uow now ds w,
    )

-- The same feed again, right after: nothing is inserted, every disclosure is counted as a
-- duplicate, and neither the table nor the collected events change.
pub execute-execute :
    (cmd : IngestCommand) (feed : Option ℕ → ℤ → Result (List TradeDisclosure)) (now later : ℕ)
    (w : Work) (ds : List TradeDisclosure)
    → feed cmd.since cmd.limit ≡ ok ds
    → execute cmd feed later (execute cmd feed now w).1 ≡ (
      ok (record {
        fetched = length ds;
        inserted = 0;
        duplicates_skipped = length ds;
        ingested_at = later;
        new_disclosures = [];
      }),
      (execute cmd feed now w).1,
    )
execute-execute cmd feed now later w ds e =
    rw
      (
        execute-answered cmd feed now w ds e,
        execute-answered cmd feed later (store_batch now ds w).1 ds e,
        store_batch-again later ds (store_batch now ds w).1 (store_batch-stored now ds w),
      )
      refl
