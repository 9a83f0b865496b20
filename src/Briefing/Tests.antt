-- ===== src/Briefing/Tests.antt =====
-- One holding and a disclosure about it, with a closed and with an open-ended range.
use portfolio_copilot.Prelude.{
  ◌++◌, type_error, broker_failure, ◌==◌, ◌≡◌, Result, if◌then◌else◌, Option, String, refl, ok, err,
  none, some, [], ◌∷◌,
}
use portfolio_copilot.Decimal
use portfolio_copilot.Decimal.{Decimal}
use portfolio_copilot.Domain.Congress.{TransactionType}
use portfolio_copilot.Ingest.{TradeDisclosureRow}
use portfolio_copilot.Positions.Tables.{PositionRow}
use portfolio_copilot.Briefing.{
  filings, BriefingRow, assess_market_regime, Work, BriefingContent, GenerateBriefingCommand,
}
use portfolio_copilot.Briefing.Template.{excerpt_of, Format}
use portfolio_copilot.Prelude.Int.{magnitude, ℤ, pos}
use portfolio_copilot.Domain.Symbol.{equity}
use portfolio_copilot.Briefing.Model.{execute, context_of, split_push}
use portfolio_copilot.Domain.Events.{DomainEvent}
use portfolio_copilot.Briefing.Printable.{execute-IsPrintable, is_printable}

-- Texts that are told apart, in place of Python's.
abbrev plain : Format
plain = record {
  iso = λ day. "2026-07-01";
  commas = λ z. if magnitude z == 1001 then "1,001" else "15,000";
  show = λ n. if n == 0 then "0" else "1";
  decimal = λ d. "20";
}

abbrev trade : Option ℤ → TradeDisclosureRow
trade high = record {
  filing_id = "f1";
  member_id = "m1";
  member_name = "A Member";
  symbol = some "AAPL";
  asset_class = some "EQUITY";
  asset_description = "Apple";
  transaction_type = TransactionType.purchase;
  transaction_date = 15;
  disclosure_date = 20;
  amount_range_low = some (pos 1001);
  amount_range_high = high;
  raw_blob_key = none;
  ingested_at = 0;
}

abbrev held : PositionRow
held = record {
  account_id = "A1";
  symbol = "AAPL";
  asset_class = equity;
  quantity = Decimal.of_ℕ 1;
  average_cost = Decimal.of_ℕ 1;
  average_cost_currency = "USD";
  market_value = Decimal.of_ℕ 1;
  unrealized_pnl = Decimal.of_ℕ 0;
  as_of = 0;
}

abbrev work : Option ℤ → Work
work high = record {
  trade_disclosures = trade high ∷ [];
  positions = held ∷ [];
  briefings = [];
  uow = record {
    session = record { outbox = []; event_log = [] };
    committed = record { outbox = []; event_log = [] };
    correlation_id = 1;
    events = [];
    causation_id = none;
  };
}

abbrev command : GenerateBriefingCommand
command = record { correlation_id = 1; actor = "scheduler"; for_date = some 21 }

abbrev no_model : String → Option (String → Result String)
no_model provider = none

-- The open-ended range raises, although no model is asked.
open_ended_raises :
    execute plain command none no_model "" "" "x" 0 (work none) ≡ (err type_error, work none)
unfolding execute
open_ended_raises = refl

excerpt :
    excerpt_of plain (context_of plain 21 none (work none))
    ≡ "📊 2026-07-01 — Action: HOLD. 1 new disclosure(s). 1 overlap(s) with your portfolio. Regime: unknown."
unfolding excerpt_of context_of
excerpt = refl

pushes :
    (split_push plain "-" "Body \nPUSH: a PUSH: b " ≡ ("Body \nPUSH: a", "b"))
    × (split_push plain "-" "Body" ≡ ("Body", "-"))
unfolding split_push portfolio_copilot.Prelude.Text.split_last portfolio_copilot.Prelude.Text.rstrip
    portfolio_copilot.Prelude.Text.strip
pushes = (refl, refl)

regimes :
    (assess_market_regime plain.decimal (some (ok (Decimal.of_ℕ 31))) ≡ "risk_off (high vol)")
    × (assess_market_regime plain.decimal (some (ok (Decimal.of_ℕ 20))) ≡ "neutral (VIX=20)")
    × (assess_market_regime plain.decimal (some (err broker_failure)) ≡ "unknown")
unfolding assess_market_regime
regimes = (refl, refl, refl)

execute-IsPrintable_example :
    let w = work (some (pos 15000)) in
    let ctx = context_of plain 21 none w in
    (c : BriefingContent) × (w' : Work) × (row : BriefingRow) × (event : DomainEvent) × (execute
        plain command none no_model "" "" "x" 0 w
      ≡ (if is_printable plain ctx then (ok c, w') else (err type_error, w)))
    × (w'
        ≡ record w { briefings = [] ++ row ∷ []; uow = record w.uow { events = [] ++ event ∷ [] } })
    × (row.referenced_disclosure_ids ≡ filings ctx.disclosures)
    × (event.aggregate_id ≡ row.briefing_id)
    × (c.summary_markdown ≡ row.summary_markdown)
execute-IsPrintable_example =
    execute-IsPrintable plain no_model "" "" command none "x" 0 (work (some (pos 15000)))
