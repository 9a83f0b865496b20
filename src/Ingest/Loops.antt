-- ===== src/Ingest/Loops.antt =====
-- The loop of `execute` in closed form: what it inserts, returns and emits.
use mathlib.Core.List.{append-nil, append_assoc}
use text.Mathlib.TextPositions.{eq_refl}
use portfolio_copilot.Prelude.{
  All-map, eq_iff, Bool-cases, arith, [], ◌++◌, str_eq, not, map, ◌∷◌, any, select, ◌≡◌, String,
  All, Bool, ℕ, List, refl, true, inl, inr,
}
use portfolio_copilot.Ingest.{
  is_stored, make_disclosure_event, insert_disclosure, TradeDisclosureRow, find_existing_filing_ids,
  filing_ids, Loop, add_new, ingest_loop, ingest_batch,
}
use portfolio_copilot.Domain.Congress.{TradeDisclosure}
use portfolio_copilot.Domain.Events.{DomainEvent}

-- The disclosures that the loop does not skip.
abbrev pub fresh : List String → List TradeDisclosure → List TradeDisclosure
fresh existing ds = select (λ d. not (any (str_eq d.filing_id) existing)) ds

abbrev pub unstored : List TradeDisclosureRow → List TradeDisclosure → List TradeDisclosure
unstored rows ds = select (λ d. not (is_stored d.filing_id rows)) ds

abbrev pub insert_all : ℕ → List TradeDisclosure → List TradeDisclosureRow → List TradeDisclosureRow
insert_all now [] rows = rows
insert_all now (d ∷ ds) rows = insert_all now ds (insert_disclosure d now rows)

abbrev pub events_of : ℕ → List TradeDisclosure → List DomainEvent
events_of now ds = map (λ d. make_disclosure_event d now) ds

pub ingest_loop-eq :
    (existing : List String) (now : ℕ) (ds : List TradeDisclosure) (l : Loop)
    → ingest_loop existing now ds l ≡ record {
      rows = insert_all now (fresh existing ds) l.rows;
      new_disclosures = l.new_disclosures ++ fresh existing ds;
      events = l.events ++ events_of now (fresh existing ds);
    }
unfolding ingest_loop add_new
ingest_loop-eq existing now [] l = rw (append-nil l.new_disclosures, append-nil l.events) refl
ingest_loop-eq existing now (d ∷ ds) l = elim (Bool-cases (any (str_eq d.filing_id) existing)) [
  | inl e ↦ rw e (ingest_loop-eq existing now ds l)
  | inr e ↦
      rw
        (
          e,
          ingest_loop-eq existing now ds (add_new d now l),
          append_assoc l.new_disclosures (d ∷ []) (fresh existing ds),
          append_assoc l.events (make_disclosure_event d now ∷ [])
              (events_of now (fresh existing ds)),
        )
        refl
]

-- The query finds the filings of the batch that have a row.
pub any-find_existing :
    (i : String) (ids : List String) (rows : List TradeDisclosureRow)
    → any (str_eq i) ids ≡ true
    → any (str_eq i) (find_existing_filing_ids rows ids) ≡ is_stored i rows
unfolding find_existing_filing_ids
any-find_existing i ids [] h = refl
any-find_existing i ids (r ∷ rows) h =
    ground (arith, eq_iff i r.filing_id, eq_iff r.filing_id i, any-find_existing i ids rows h)

pub select_same {ℓ} :
    {A : Type ℓ} (p q : A → Bool) (xs : List A)
    → All (λ x. p x ≡ q x) xs
    → select p xs ≡ select q xs
select_same p q [] h = refl
select_same p q (x ∷ xs) h = rw (h.0, select_same p q xs h.1) refl

pub filing_ids-All :
    (ds : List TradeDisclosure) (ids : List String)
    → ((i : String) → any (str_eq i) (filing_ids ds) ≡ true → any (str_eq i) ids ≡ true)
    → All (λ d. any (str_eq d.filing_id) ids ≡ true) ds
unfolding filing_ids
filing_ids-All [] ids h = tt
filing_ids-All (d ∷ ds) ids h = (
  h d.filing_id (rw (eq_refl d.filing_id) refl),
  filing_ids-All ds ids (λ i k. h i (ground (arith, k))),
)

find_existing-All :
    (rows : List TradeDisclosureRow) (ds : List TradeDisclosure) (ids : List String)
    → All (λ d. any (str_eq d.filing_id) ids ≡ true) ds
    → All
        (λ d.
          not (any (str_eq d.filing_id) (find_existing_filing_ids rows ids))
          ≡ not (is_stored d.filing_id rows))
        ds
find_existing-All rows ds ids h =
    All-map _ _ ds (λ d k. rw (any-find_existing d.filing_id ids rows k) refl) h

fresh-eq :
    (rows : List TradeDisclosureRow) (ds : List TradeDisclosure)
    → fresh (find_existing_filing_ids rows (filing_ids ds)) ds ≡ unstored rows ds
fresh-eq rows ds =
    select_same _ _ ds
      (find_existing-All rows ds (filing_ids ds) (filing_ids-All ds (filing_ids ds) (λ i k. k)))

pub ingest_batch-eq :
    (now : ℕ) (ds : List TradeDisclosure) (rows : List TradeDisclosureRow)
    → ingest_batch now ds rows ≡ record {
      rows = insert_all now (unstored rows ds) rows;
      new_disclosures = unstored rows ds;
      events = events_of now (unstored rows ds);
    }
unfolding ingest_batch
ingest_batch-eq now ds rows = rw (ingest_loop-eq, fresh-eq rows ds) refl
