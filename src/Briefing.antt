-- ===== src/Briefing.antt =====
-- application/signals/generate_briefing.py: the template (Template), the model's answer (Model) and
-- the use case. Dates are days. The texts of dates and numbers are given by `Format`; the provider of
-- the language model is a function from the prompt to its answer or an exception.
pub mod Template
pub mod Model
pub mod Printable
mod Tests
use portfolio_copilot.Prelude.{
  ltb, ◌&&◌, Result, select, leb, not, if◌then◌else◌, Bool, Option, take, List, ℕ, String, refl, ok,
  err, none, some, true, false, [], ◌∷◌, ◌>>=◌,
}
use portfolio_copilot.Decimal
use portfolio_copilot.Decimal.{Decimal}
use portfolio_copilot.Domain.Events.{EventType, AggregateType, DomainEvent, briefed}
use portfolio_copilot.Outbox.UnitOfWork.{UnitOfWork, collect}
use portfolio_copilot.Ingest.{TradeDisclosureRow}
use portfolio_copilot.Positions.Tables.{PositionRow}
use portfolio_copilot.Prelude.Text.{is_blank, concat, one_of}

pub record GenerateBriefingCommand : Type 0 where
  pub correlation_id : ℕ
  pub actor : String
  pub for_date : Option ℕ

pub record BriefingContent : Type 0 where
  pub briefing_id : String
  pub briefing_date : ℕ
  pub period_start : ℕ
  pub period_end : ℕ
  pub summary_markdown : String
  pub push_excerpt : String
  pub referenced_disclosure_ids : List String
  pub disclosures_count : ℕ
  pub portfolio_overlaps : ℕ
  pub market_regime : String
  pub generated_at : ℕ

pub record BriefingRow : Type 0 where
  pub briefing_id : String
  pub briefing_date : ℕ
  pub period_start : ℕ
  pub period_end : ℕ
  pub summary_markdown : String
  pub push_excerpt : String
  pub referenced_signal_ids : List String
  pub referenced_disclosure_ids : List String
  pub body_blob_key : Option String
  pub generated_at : ℕ

-- What the use case reads and writes.
pub record Work : Type 0 where
  pub trade_disclosures : List TradeDisclosureRow
  pub positions : List PositionRow
  pub briefings : List BriefingRow
  pub uow : UnitOfWork

-- `ORDER BY disclosure_date DESC`
insert_by_date : TradeDisclosureRow → List TradeDisclosureRow → List TradeDisclosureRow
insert_by_date d [] = d ∷ []
insert_by_date d (e ∷ es) =
    let rest = insert_by_date d es in
    if leb e.disclosure_date d.disclosure_date then d ∷ e ∷ es else e ∷ rest

newest_first : List TradeDisclosureRow → List TradeDisclosureRow
unfolding insert_by_date
newest_first [] = []
newest_first (d ∷ ds) = insert_by_date d (newest_first ds)

unfoldable pub fetch_disclosures : ℕ → ℕ → List TradeDisclosureRow → List TradeDisclosureRow
unfolding newest_first
fetch_disclosures start end rows =
    take 100
      (newest_first (select (λ d. leb start d.disclosure_date && ltb d.disclosure_date end) rows))

-- `SELECT DISTINCT symbol`
unfoldable pub fetch_held_tickers : List PositionRow → List String
fetch_held_tickers [] = []
fetch_held_tickers (p ∷ ps) =
    let rest = fetch_held_tickers ps in if one_of p.symbol rest then rest else p.symbol ∷ rest

-- `d.symbol and d.symbol in held_tickers`
abbrev pub is_overlap : List String → TradeDisclosureRow → Bool
is_overlap held d = elim d.symbol [ none ↦ false | some s ↦ not (is_blank s) && one_of s held ]

-- The regime that a VIX stands for.
regime_of : (Decimal → String) → Decimal → String
regime_of show vix =
    if Decimal.same_value vix (Decimal.of_ℕ 0)
    then "unknown"
    else if Decimal.lt (Decimal.of_ℕ 30) vix
    then "risk_off (high vol)"
    else if Decimal.lt vix (Decimal.of_ℕ 15)
    then "risk_on (low vol)"
    else concat ("neutral (VIX=" ∷ show vix ∷ ")" ∷ [])

-- `get_vix` answers, raises, or is not there.
unfoldable pub assess_market_regime : (Decimal → String) → Option (Result Decimal) → String
unfolding regime_of
assess_market_regime show none = "unknown"
assess_market_regime show (some (err e)) = "unknown"
assess_market_regime show (some (ok vix)) = regime_of show vix

abbrev pub filings : List TradeDisclosureRow → List String
filings [] = []
filings (d ∷ ds) = d.filing_id ∷ filings ds
