-- ===== src/Ingest.antt =====
-- application/congressional/ingest_disclosures.py. The table `trade_disclosures` and the unit of
-- work are the state; the feed is the answer of the Quiver client, a list of disclosures or its
-- exception. The surrogate key that the database draws for a row is left out.
pub mod Loops
pub mod Stored
pub mod Runs
pub mod Batches
mod Tests
use portfolio_copilot.Prelude.{
  Exec, str_eq, Result, any, ◌-◌, ◌++◌, if◌then◌else◌, Bool, length, ◌∷◌, [], String, Option, ℕ,
  List, refl, ok, err, none, some, true, false,
}
use portfolio_copilot.Domain.Congress.{TradeDisclosure, TransactionType, lag_days}
use portfolio_copilot.Domain.Events.{EventType, AggregateType, DomainEvent, disclosed}
use portfolio_copilot.Outbox.UnitOfWork.{UnitOfWork, collect}
use portfolio_copilot.Prelude.Int.{ℤ}

pub record IngestCommand : Type 0 where
  pub correlation_id : ℕ
  pub actor : String
  pub since : Option ℕ
  pub limit : ℤ

pub record IngestResult : Type 0 where
  pub fetched : ℕ
  pub inserted : ℕ
  pub duplicates_skipped : ℕ
  pub ingested_at : ℕ
  pub new_disclosures : List TradeDisclosure

pub record TradeDisclosureRow : Type 0 where
  pub filing_id : String
  pub member_id : String
  pub member_name : String
  pub symbol : Option String
  pub asset_class : Option String
  pub asset_description : String
  pub transaction_type : TransactionType
  pub transaction_date : ℕ
  pub disclosure_date : ℕ
  pub amount_range_low : Option ℤ
  pub amount_range_high : Option ℤ
  pub raw_blob_key : Option String
  pub ingested_at : ℕ

-- What a request reads and writes.
pub record Work : Type 0 where
  pub trade_disclosures : List TradeDisclosureRow
  pub uow : UnitOfWork

abbrev pub has_filing : String → TradeDisclosureRow → Bool
has_filing id r = str_eq r.filing_id id

abbrev pub is_stored : String → List TradeDisclosureRow → Bool
is_stored id rows = any (has_filing id) rows

-- `d.symbol.ticker if d.symbol else None`
unfoldable pub ticker_of : TradeDisclosure → Option String
ticker_of d = elim d.symbol [ none ↦ none | some s ↦ some s.ticker ]

unfoldable pub filing_ids : List TradeDisclosure → List String
filing_ids [] = []
filing_ids (d ∷ ds) = d.filing_id ∷ filing_ids ds

-- `SELECT filing_id … WHERE filing_id IN (…)`
unfoldable pub find_existing_filing_ids : List TradeDisclosureRow → List String → List String
find_existing_filing_ids [] ids = []
find_existing_filing_ids (r ∷ rows) ids =
    let rest = find_existing_filing_ids rows ids in
    if any (str_eq r.filing_id) ids then r.filing_id ∷ rest else rest

unfoldable pub disclosure_row : TradeDisclosure → ℕ → TradeDisclosureRow
unfolding ticker_of
disclosure_row d now = record {
  filing_id = d.filing_id;
  member_id = d.member_id;
  member_name = d.member_name;
  symbol = ticker_of d;
  asset_class = some "EQUITY";
  asset_description = d.asset_description;
  transaction_type = d.transaction_type;
  transaction_date = d.transaction_date;
  disclosure_date = d.disclosure_date;
  amount_range_low = d.amount_range_low;
  amount_range_high = d.amount_range_high;
  raw_blob_key = d.raw_blob_key;
  ingested_at = now;
}

-- `INSERT … ON CONFLICT (filing_id) DO NOTHING`
unfoldable pub insert_disclosure :
    TradeDisclosure → ℕ → List TradeDisclosureRow → List TradeDisclosureRow
unfolding disclosure_row
insert_disclosure d now rows =
    if is_stored d.filing_id rows then rows else rows ++ disclosure_row d now ∷ []

unfoldable pub make_disclosure_event : TradeDisclosure → ℕ → DomainEvent
unfolding ticker_of lag_days
make_disclosure_event d now = record {
  type = EventType.trade_disclosure_received;
  aggregate_id = d.filing_id;
  aggregate_type = AggregateType.trade_disclosure;
  payload =
      disclosed d.filing_id d.member_id d.member_name (ticker_of d) d.transaction_type
        d.transaction_date d.disclosure_date d.amount_range_low d.amount_range_high (lag_days d)
        now;
  schema_version = 1;
}

-- The variables of the loop of `execute`.
pub record Loop : Type 0 where
  pub rows : List TradeDisclosureRow
  pub new_disclosures : List TradeDisclosure
  pub events : List DomainEvent

unfoldable pub add_new : TradeDisclosure → ℕ → Loop → Loop
unfolding insert_disclosure make_disclosure_event
add_new d now l = record {
  rows = insert_disclosure d now l.rows;
  new_disclosures = l.new_disclosures ++ d ∷ [];
  events = l.events ++ make_disclosure_event d now ∷ [];
}

-- `existing` does not change while the batch is inserted.
unfoldable pub ingest_loop : List String → ℕ → List TradeDisclosure → Loop → Loop
unfolding add_new
ingest_loop existing now [] l = l
ingest_loop existing now (d ∷ ds) l =
    ingest_loop existing now ds (if any (str_eq d.filing_id) existing then l else add_new d now l)

-- `if events: uow.collect(*events)`
unfoldable pub collect_some : List DomainEvent → UnitOfWork → UnitOfWork
unfolding collect
collect_some [] u = u
collect_some (e ∷ es) u = collect (e ∷ es) u

unfoldable pub ingest_batch : ℕ → List TradeDisclosure → List TradeDisclosureRow → Loop
unfolding ingest_loop filing_ids find_existing_filing_ids
ingest_batch now ds rows =
    ingest_loop (find_existing_filing_ids rows (filing_ids ds)) now ds
      (record { rows = rows; new_disclosures = []; events = [] })

unfoldable pub store_batch : ℕ → List TradeDisclosure → Work → IngestResult × Work
unfolding ingest_batch collect_some
store_batch now ds w =
    let l = ingest_batch now ds w.trade_disclosures in
    (
      record {
        fetched = length ds;
        inserted = length l.new_disclosures;
        duplicates_skipped = length ds - length l.new_disclosures;
        ingested_at = now;
        new_disclosures = l.new_disclosures;
      },
      record { trade_disclosures = l.rows; uow = collect_some l.events w.uow },
    )

unfoldable pub execute :
    IngestCommand → (Option ℕ → ℤ → Result (List TradeDisclosure)) → ℕ → Exec Work IngestResult
unfolding store_batch
execute cmd get_recent_disclosures now w = elim (get_recent_disclosures cmd.since cmd.limit) [
  | ok ds ↦ let (r, w') = store_batch now ds w in (ok r, w')
  | err e ↦ (err e, w)
]
