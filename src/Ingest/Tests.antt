-- ===== src/Ingest/Tests.antt =====
-- Three disclosures, of which one has a row, and a filing that comes twice in a batch.
use portfolio_copilot.Prelude.{
  ◌+◌, ◌++◌, List, Result, [], ◌∷◌, ℕ, ◌≡◌, length, String, Option, refl, ok, none, some,
}
use portfolio_copilot.Domain.Congress.{TradeDisclosure, purchase}
use portfolio_copilot.Ingest.{
  TradeDisclosureRow, execute, IngestCommand, IngestResult, ingest_batch, disclosure_row, Work,
}
use portfolio_copilot.Ingest.Batches.{
  backfill-execute, no_totals, exhausted, execute_each, batch, Feed, backfill,
}
use portfolio_copilot.Prelude.Int.{ℤ, pos}
use portfolio_copilot.Ingest.Runs.{execute-stores, execute-execute}
use portfolio_copilot.Ingest.Stored.{AllStored, IsUnique}
use portfolio_copilot.Ingest.Loops.{events_of}

abbrev filing : String → TradeDisclosure
filing id = record {
  filing_id = id;
  member_id = "P000197";
  member_name = "A Member";
  symbol = none;
  asset_description = "a bond";
  transaction_type = purchase;
  transaction_date = 10;
  disclosure_date = 40;
  amount_range_low = some (pos 1001);
  amount_range_high = some (pos 15000);
  raw_blob_key = none;
}

abbrev answer : Option ℕ → ℤ → Result (List TradeDisclosure)
answer since limit = ok (filing "a" ∷ filing "b" ∷ [])

abbrev command : IngestCommand
command = record { correlation_id = 1; actor = "scheduler"; since = none; limit = pos 100 }

abbrev work : Work
work = record {
  trade_disclosures = disclosure_row (filing "a") 5 ∷ [];
  uow = record {
    session = record { outbox = []; event_log = [] };
    committed = record { outbox = []; event_log = [] };
    correlation_id = 1;
    events = [];
    causation_id = none;
  };
}

one_is_new :
    (execute command answer 9 work).1.trade_disclosures
    ≡ disclosure_row (filing "a") 5 ∷ disclosure_row (filing "b") 9 ∷ []
unfolding execute
one_is_new = refl

-- A filing that a batch holds twice is stored once, but returned and announced twice.
twice_in_a_batch :
    (length (ingest_batch 9 (filing "c" ∷ filing "c" ∷ []) []).rows ≡ 1)
    × (length (ingest_batch 9 (filing "c" ∷ filing "c" ∷ []) []).events ≡ 2)
unfolding ingest_batch
twice_in_a_batch = (refl, refl)

execute-stores_example :
    (r : IngestResult) × (w' : Work) × (execute command answer 9 work ≡ (ok r, w'))
    × IsUnique w'.trade_disclosures
    × AllStored (filing "a" ∷ filing "b" ∷ []) w'.trade_disclosures
    × ((added : List TradeDisclosureRow) × (w'.trade_disclosures ≡ work.trade_disclosures ++ added))
    × (r.fetched ≡ 2)
    × (r.inserted + r.duplicates_skipped ≡ r.fetched)
    × (w'.uow ≡ record work.uow { events = [] ++ events_of 9 r.new_disclosures })
execute-stores_example =
    execute-stores command answer 9 work (filing "a" ∷ filing "b" ∷ []) refl (refl, tt)

execute-execute_example : execute command answer 12 (execute command answer 9 work).1 ≡ (
  ok (record {
    fetched = 2;
    inserted = 0;
    duplicates_skipped = 2;
    ingested_at = 12;
    new_disclosures = [];
  }),
  (execute command answer 9 work).1,
)
execute-execute_example =
    execute-execute command answer 9 12 work (filing "a" ∷ filing "b" ∷ []) refl

abbrev two_batches : Feed
two_batches = batch (filing "b" ∷ []) (batch (filing "b" ∷ filing "c" ∷ []) exhausted)

backfill-execute_example :
    backfill two_batches 9 work ≡ execute_each command 9 two_batches no_totals work
backfill-execute_example = backfill-execute command two_batches 9 work
