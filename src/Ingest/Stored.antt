-- ===== src/Ingest/Stored.antt =====
-- What `execute` leaves in the table, and a second run on the same feed.
use mathlib.Core.List.{append-nil, append_assoc}
use text.Mathlib.TextPositions.{eq_refl}
use portfolio_copilot.Prelude.{
  ◌-◌, length-select-le, ◌+◌, length, eq_iff, sym, any-append_last, All-map, ◌++◌, ◌||◌, not, arith,
  ◌≡◌, Bool-cases, str_eq, [], select, All, ◌∷◌, List, ℕ, Bool, String, refl, true, false, inl, inr,
}
use portfolio_copilot.Ingest.{
  has_filing, is_stored, disclosure_row, collect_some, store_batch, TradeDisclosureRow,
  insert_disclosure, Work,
}
use portfolio_copilot.Domain.Congress.{TradeDisclosure}
use portfolio_copilot.Ingest.Loops.{insert_all, unstored, ingest_batch-eq}

abbrev pub IsUnique : List TradeDisclosureRow → Type 0
IsUnique [] = Unit
IsUnique (r ∷ rows) = (is_stored r.filing_id rows ≡ false) × IsUnique rows

-- Every disclosure of a list has a row.
abbrev pub AllStored : List TradeDisclosure → List TradeDisclosureRow → Type 0
AllStored ds rows = All (λ d. is_stored d.filing_id rows ≡ true) ds

-- What was inserted stands behind the old rows, which do not change.
pub insert_all-keeps :
    (now : ℕ) (ds : List TradeDisclosure) (rows : List TradeDisclosureRow)
    → (added : List TradeDisclosureRow) × (insert_all now ds rows ≡ rows ++ added)
unfolding insert_disclosure
insert_all-keeps now [] rows = ([], sym (append-nil rows))
insert_all-keeps now (d ∷ ds) rows = elim (Bool-cases (is_stored d.filing_id rows)) [
  | inl e ↦ rw e (insert_all-keeps now ds rows)
  | inr e ↦
      let (added, p) = insert_all-keeps now ds (rows ++ disclosure_row d now ∷ []) in
      (
        disclosure_row d now ∷ added,
        rw (e, p) (append_assoc rows (disclosure_row d now ∷ []) added),
      )
]

insert-stored :
    (i : String) (now : ℕ) (d : TradeDisclosure) (rows : List TradeDisclosureRow)
    → is_stored i (insert_disclosure d now rows) ≡ is_stored i rows || str_eq d.filing_id i
unfolding insert_disclosure disclosure_row
insert-stored i now d rows =
    ground (arith, any-append_last (has_filing i) rows (disclosure_row d now), eq_iff d.filing_id i)

insert_all-grows :
    (i : String) (now : ℕ) (ds : List TradeDisclosure) (rows : List TradeDisclosureRow)
    → is_stored i rows ≡ true
    → is_stored i (insert_all now ds rows) ≡ true
insert_all-grows i now [] rows h = h
insert_all-grows i now (d ∷ ds) rows h =
    insert_all-grows i now ds (insert_disclosure d now rows)
      (rw (insert-stored i now d rows) (ground (arith, h)))

AllStored-cong :
    (ds : List TradeDisclosure) {rows rows' : List TradeDisclosureRow}
    → rows' ≡ rows
    → AllStored ds rows
    → AllStored ds rows'
AllStored-cong ds e h = All-map _ _ ds (λ d k. rw e k) h

-- If what `p` leaves out has a row, then inserting what it selects gives every disclosure a row.
insert_selected :
    (now : ℕ) (p : TradeDisclosure → Bool) (ds : List TradeDisclosure)
    (rows : List TradeDisclosureRow)
    → ((d : TradeDisclosure) → p d ≡ false → is_stored d.filing_id rows ≡ true)
    → AllStored ds (insert_all now (select p ds) rows)
insert_selected now p [] rows h = tt
insert_selected now p (d ∷ ds) rows h = elim (Bool-cases (p d)) [
  | inl e ↦
      let step : insert_all now (select p (d ∷ ds)) rows
          ≡ insert_all now (select p ds) (insert_disclosure d now rows) =
        rw e refl in
      AllStored-cong (d ∷ ds) step (
        insert_all-grows d.filing_id now (select p ds) (insert_disclosure d now rows)
            (rw (insert-stored d.filing_id now d rows, eq_refl d.filing_id) (ground arith)),
        insert_selected now p ds (insert_disclosure d now rows)
            (λ c k. rw (insert-stored c.filing_id now d rows, h c k) refl),
      )
  | inr e ↦
      let step : insert_all now (select p (d ∷ ds)) rows ≡ insert_all now (select p ds) rows =
        rw e refl in
      AllStored-cong (d ∷ ds) step (
        insert_all-grows d.filing_id now (select p ds) rows (h d e),
        insert_selected now p ds rows h,
      )
]

insert-IsUnique :
    (r : TradeDisclosureRow) (rows : List TradeDisclosureRow)
    → is_stored r.filing_id rows ≡ false
    → IsUnique rows
    → IsUnique (rows ++ r ∷ [])
insert-IsUnique r [] h v = (refl, tt)
insert-IsUnique r (s ∷ rows) h v = (
  rw (any-append_last (has_filing s.filing_id) rows r, v.0)
      (ground (arith, eq_iff r.filing_id s.filing_id, eq_iff s.filing_id r.filing_id)),
  insert-IsUnique r rows (ground (arith, h)) v.1,
)

pub insert_all-IsUnique :
    (now : ℕ) (ds : List TradeDisclosure) (rows : List TradeDisclosureRow)
    → IsUnique rows
    → IsUnique (insert_all now ds rows)
unfolding insert_disclosure disclosure_row
insert_all-IsUnique now [] rows v = v
insert_all-IsUnique now (d ∷ ds) rows v = elim (Bool-cases (is_stored d.filing_id rows)) [
  | inl e ↦ rw e (insert_all-IsUnique now ds rows v)
  | inr e ↦ rw e (
      insert_all-IsUnique now ds (rows ++ disclosure_row d now ∷ [])
        (insert-IsUnique (disclosure_row d now) rows e v))
]

unstored-nil :
    (rows : List TradeDisclosureRow) (ds : List TradeDisclosure)
    → AllStored ds rows
    → unstored rows ds ≡ []
unstored-nil rows [] h = refl
unstored-nil rows (d ∷ ds) h = rw (h.0) (unstored-nil rows ds h.1)

pub store_batch-stored :
    (now : ℕ) (ds : List TradeDisclosure) (w : Work)
    → AllStored ds (store_batch now ds w).1.trade_disclosures
unfolding store_batch
store_batch-stored now ds w =
    rw (ingest_batch-eq now ds w.trade_disclosures)
      (insert_selected now _ ds w.trade_disclosures (λ d k. ground (arith, k)))

-- A batch, ingested: the table keeps its rows at their places and their values, no filing stands in
-- it twice, every fetched filing has a row, and the counts add up to what was fetched.
pub store_batch_lem :
    (now : ℕ) (ds : List TradeDisclosure) (w : Work)
    → IsUnique w.trade_disclosures
    → let (r, w') = store_batch now ds w in
      IsUnique w'.trade_disclosures
      × AllStored ds w'.trade_disclosures
      × ((added : List TradeDisclosureRow) × (w'.trade_disclosures ≡ w.trade_disclosures ++ added))
      × (r.inserted + r.duplicates_skipped ≡ r.fetched)
unfolding store_batch
store_batch_lem now ds w v =
    let new = unstored w.trade_disclosures ds in
    rw (ingest_batch-eq now ds w.trade_disclosures) (
      insert_all-IsUnique now new w.trade_disclosures v,
      insert_selected now _ ds w.trade_disclosures (λ d k. ground (arith, k)),
      insert_all-keeps now new w.trade_disclosures,
      omega (arith, length-select-le (λ d. not (is_stored d.filing_id w.trade_disclosures)) ds),
    )

sub_zero : (n : ℕ) → n - 0 ≡ n
sub_zero n = omega arith

-- A batch whose filings all have a row changes nothing.
pub store_batch-again :
    (now : ℕ) (ds : List TradeDisclosure) (w : Work)
    → AllStored ds w.trade_disclosures
    → store_batch now ds w ≡ (
      record {
        fetched = length ds;
        inserted = 0;
        duplicates_skipped = length ds;
        ingested_at = now;
        new_disclosures = [];
      },
      w,
    )
unfolding store_batch collect_some
store_batch-again now ds w h =
    rw
      (
        ingest_batch-eq now ds w.trade_disclosures,
        unstored-nil w.trade_disclosures ds h,
        sub_zero (length ds),
      )
      refl
