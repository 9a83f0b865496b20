-- ===== src/Ingest/Batches.antt =====
-- `backfill`, which ingests the feed's batches with counters of its own, next to `execute`.
use mathlib.Core.List.{append-nil, append_assoc}
use portfolio_copilot.Prelude.{
  not, length-select-le, suc, ◌≤◌, arith, Bool-cases, str_eq, ◌-◌, length, any, if◌then◌else◌, ◌∷◌,
  ◌≡◌, String, ◌++◌, Exec, ℕ, Error, ◌+◌, Result, List, [], refl, ok, err, inl, inr,
}
use portfolio_copilot.Ingest.{
  execute, filing_ids, find_existing_filing_ids, make_disclosure_event, ingest_batch,
  TradeDisclosureRow, IngestCommand, collect_some, insert_disclosure, store_batch, IngestResult,
  Work,
}
use portfolio_copilot.Domain.Congress.{TradeDisclosure}
use portfolio_copilot.Domain.Events.{DomainEvent}
use portfolio_copilot.Ingest.Runs.{execute-answered}
use portfolio_copilot.Ingest.Loops.{events_of, fresh, insert_all, ingest_loop-eq}

-- What the generator `feed.backfill` yields, up to its end or its exception.
pub data Feed : Type 0 where
  exhausted : Feed
  failed : Error → Feed
  batch : List TradeDisclosure → Feed → Feed

-- The variables of the inner loop.
pub record BatchLoop : Type 0 where
  pub rows : List TradeDisclosureRow
  pub total_inserted : ℕ
  pub total_skipped : ℕ
  pub all_new : List TradeDisclosure
  pub events : List DomainEvent

unfoldable pub skip_one : BatchLoop → BatchLoop
skip_one l = record l { total_skipped = l.total_skipped + 1 }

unfoldable pub insert_one : TradeDisclosure → ℕ → BatchLoop → BatchLoop
unfolding insert_disclosure make_disclosure_event
insert_one d now l = record {
  rows = insert_disclosure d now l.rows;
  total_inserted = l.total_inserted + 1;
  total_skipped = l.total_skipped;
  all_new = l.all_new ++ d ∷ [];
  events = l.events ++ make_disclosure_event d now ∷ [];
}

unfoldable pub batch_loop : List String → ℕ → List TradeDisclosure → BatchLoop → BatchLoop
unfolding skip_one insert_one
batch_loop existing now [] l = l
batch_loop existing now (d ∷ ds) l =
    batch_loop existing now ds
      (if any (str_eq d.filing_id) existing then skip_one l else insert_one d now l)

-- The variables of the outer loop.
pub record Totals : Type 0 where
  pub fetched : ℕ
  pub inserted : ℕ
  pub skipped : ℕ
  pub all_new : List TradeDisclosure

abbrev pub no_totals : Totals
no_totals = record { fetched = 0; inserted = 0; skipped = 0; all_new = [] }

-- A turn of the outer loop.
unfoldable pub backfill_batch : ℕ → List TradeDisclosure → Totals × Work → Totals × Work
unfolding batch_loop collect_some
backfill_batch now ds (t, w) =
    let existing = find_existing_filing_ids w.trade_disclosures (filing_ids ds) in
    let l = batch_loop existing now ds (record {
      rows = w.trade_disclosures;
      total_inserted = t.inserted;
      total_skipped = t.skipped;
      all_new = t.all_new;
      events = [];
    }) in
    (
      record {
        fetched = t.fetched + length ds;
        inserted = l.total_inserted;
        skipped = l.total_skipped;
        all_new = l.all_new;
      },
      record { trade_disclosures = l.rows; uow = collect_some l.events w.uow },
    )

abbrev pub result_of : ℕ → Totals → IngestResult
result_of now t = record {
  fetched = t.fetched;
  inserted = t.inserted;
  duplicates_skipped = t.skipped;
  ingested_at = now;
  new_disclosures = t.all_new;
}

unfoldable pub backfill_batches : ℕ → Feed → Totals × Work → Result IngestResult × Work
unfolding backfill_batch
backfill_batches now exhausted (t, w) = (ok (result_of now t), w)
backfill_batches now (failed e) (t, w) = (err e, w)
backfill_batches now (batch ds feed) (t, w) =
    backfill_batches now feed (backfill_batch now ds (t, w))

unfoldable pub backfill : Feed → ℕ → Exec Work IngestResult
unfolding backfill_batches
backfill feed now w = backfill_batches now feed (no_totals, w)

-- The reference: one `execute` for each batch, whose results are added up.
abbrev pub add_result : Totals → IngestResult → Totals
add_result t r = record {
  fetched = t.fetched + r.fetched;
  inserted = t.inserted + r.inserted;
  skipped = t.skipped + r.duplicates_skipped;
  all_new = t.all_new ++ r.new_disclosures;
}

abbrev pub then_add :
    (Totals → Work → Result IngestResult × Work)
    → Totals
    → Result IngestResult × Work
    → Result IngestResult × Work
then_add next t (ok r, w) = next (add_result t r) w
then_add next t (err e, w) = (err e, w)

abbrev pub execute_each : IngestCommand → ℕ → Feed → Totals → Work → Result IngestResult × Work
execute_each cmd now exhausted t w = (ok (result_of now t), w)
execute_each cmd now (failed e) t w = (err e, w)
execute_each cmd now (batch ds feed) t w =
    then_add (execute_each cmd now feed) t (execute cmd (λ since limit. ok ds) now w)

add_zero : (n : ℕ) → n + 0 ≡ n
add_zero n = omega arith

skipped_more : (a n k : ℕ) → k ≤ n → a + 1 + (n - k) ≡ a + (suc n - k)
skipped_more a n k h = omega arith

inserted_more : (a k : ℕ) → a + 1 + k ≡ a + suc k
inserted_more a k = omega arith

sub_suc : (n k : ℕ) → suc n - suc k ≡ n - k
sub_suc n k = omega arith

batch_loop-eq :
    (existing : List String) (now : ℕ) (ds : List TradeDisclosure) (l : BatchLoop)
    → batch_loop existing now ds l ≡ record {
      rows = insert_all now (fresh existing ds) l.rows;
      total_inserted = l.total_inserted + length (fresh existing ds);
      total_skipped = l.total_skipped + (length ds - length (fresh existing ds));
      all_new = l.all_new ++ fresh existing ds;
      events = l.events ++ events_of now (fresh existing ds);
    }
unfolding batch_loop skip_one insert_one
batch_loop-eq existing now [] l =
    rw
      (
        append-nil l.all_new,
        append-nil l.events,
        add_zero l.total_inserted,
        add_zero l.total_skipped,
      )
      refl
batch_loop-eq existing now (d ∷ ds) l = elim (Bool-cases (any (str_eq d.filing_id) existing)) [
  | inl e ↦
      rw
        (
          e,
          batch_loop-eq existing now ds (skip_one l),
          skipped_more l.total_skipped (length ds) (length (fresh existing ds))
              (length-select-le (λ c. not (any (str_eq c.filing_id) existing)) ds),
        )
        refl
  | inr e ↦
      rw
        (
          e,
          batch_loop-eq existing now ds (insert_one d now l),
          append_assoc l.all_new (d ∷ []) (fresh existing ds),
          append_assoc l.events (make_disclosure_event d now ∷ [])
              (events_of now (fresh existing ds)),
          inserted_more l.total_inserted (length (fresh existing ds)),
          sub_suc (length ds) (length (fresh existing ds)),
        )
        refl
]

backfill_batch-eq :
    (now : ℕ) (ds : List TradeDisclosure) (t : Totals) (w : Work)
    → backfill_batch now ds (t, w)
      ≡ (add_result t (store_batch now ds w).0, (store_batch now ds w).1)
unfolding backfill_batch store_batch ingest_batch
backfill_batch-eq now ds t w = rw (batch_loop-eq, ingest_loop-eq) refl

backfill_batches-eq :
    (cmd : IngestCommand) (now : ℕ) (feed : Feed) (t : Totals) (w : Work)
    → backfill_batches now feed (t, w) ≡ execute_each cmd now feed t w
unfolding backfill_batches
backfill_batches-eq cmd now exhausted t w = refl
backfill_batches-eq cmd now (failed e) t w = refl
backfill_batches-eq cmd now (batch ds feed) t w =
    rw (backfill_batch-eq now ds t w, execute-answered cmd (λ since limit. ok ds) now w ds refl)
      (backfill_batches-eq cmd now feed _ _)

-- `backfill` is one `execute` for each batch that the feed yields, in their order, at one time, with
-- the results added up: the same table, the same collected events and the same counts. When the
-- feed raises, what its earlier batches stored is in the session, and the exception goes on.
pub backfill-execute :
    (cmd : IngestCommand) (feed : Feed) (now : ℕ) (w : Work)
    → backfill feed now w ≡ execute_each cmd now feed no_totals w
unfolding backfill
backfill-execute cmd feed now w = backfill_batches-eq cmd now feed no_totals w
