-- ===== src/Ledger/Tests.antt =====
-- A ledger with one overdue recommendation and one that was acted on.
use portfolio_copilot.Prelude.{
  invalid_operation, ◌+◌, All, ◌++◌, map, ◌∷◌, ◌≡◌, [], ◌*◌, ℕ, Result, Option, List, none, some,
  false, ok, err, refl,
}
use portfolio_copilot.Decimal
use portfolio_copilot.Decimal.{Decimal}
use portfolio_copilot.Ledger.Row.{
  number, nan, this_week, day, is_overdue, immediate, expired_row, RecommendationRow, buy, active,
  acted_on, superseded, expired,
}
use portfolio_copilot.Ledger.Record.{
  run_ledger, record_recommendation, new_row, superseded_row, ParsedRecommendation,
}
use portfolio_copilot.Domain.Portfolio.{Account, Position}
use portfolio_copilot.Ledger.Detect.{
  ledger_pre_digest, LiveBroker, fetch_live_self_directed, check_one,
}
use portfolio_copilot.Domain.Money.{Money}
use portfolio_copilot.Domain.Symbol.{equity}
use portfolio_copilot.Ledger.Expiry.{pre_digest_clears, no_baseline_no_detection}
use portfolio_copilot.Ledger.Lifecycle.{run_ledger_steps, Step, Reaches, Pointwise}
use portfolio_copilot.Ledger.Final.{Run, row_at, run_all, resolved_is_final}
use portfolio_copilot.Ledger.Supersede.{record_supersedes_itself}

-- To buy NVDA for 1000 dollars within a week of day 100.
abbrev buy_nvda : RecommendationRow
buy_nvda = record {
  recommendation_id = "rec-100";
  digest_date = 100 * day;
  verb = buy;
  symbol = some "NVDA";
  amount_usd = some (number (Decimal.of_ℕ 1000));
  window = this_week;
  due_date = 107 * day;
  rationale = "";
  status = active;
  superseded_by = none;
  acted_on_detail = none;
  baseline_qty = some (Decimal.of_ℕ 0);
  baseline_cash = some (Decimal.of_ℕ 5000);
  created_at = 100 * day;
  updated_at = 100 * day;
}

abbrev overdue : RecommendationRow
overdue = record buy_nvda { recommendation_id = "rec-90"; due_date = 97 * day }

abbrev no_baseline : RecommendationRow
no_baseline = record buy_nvda { baseline_qty = none; baseline_cash = none }

abbrev rows : List RecommendationRow
rows = overdue ∷ buy_nvda ∷ []

abbrev dollars : ℕ → Money
dollars n = record { amount = Decimal.of_ℕ n; currency = "USD" }

-- Ten shares bought at 100 dollars.
abbrev nvda : Position
nvda = record {
  account_id = "A1";
  symbol = record { ticker = "NVDA"; asset_class = equity };
  quantity = Decimal.of_ℕ 10;
  average_cost = dollars 100;
  market_value = dollars 1000;
  unrealized_pnl = dollars 0;
  as_of = 0;
}

abbrev account : Account
account = record {
  account_id = "A1";
  cash = dollars 4000;
  market_value = dollars 1000;
  net_liquidation = dollars 5000;
  buying_power = dollars 4000;
  margin_balance = none;
  day_pnl = none;
  positions = nvda ∷ [];
  as_of = 0;
}

abbrev broker : Option LiveBroker
broker = some (record { get_positions = λ id. ok (nvda ∷ []); get_account = λ id. ok account })

-- The model pivots from day 100 to MSFT.
abbrev pivot : ParsedRecommendation
pivot = record {
  verb = buy;
  symbol = some "MSFT";
  amount_usd = some (number (Decimal.of_ℕ 500));
  window = immediate;
  due_date = 102 * day;
  rationale = "pivot";
  supersedes_day = some 101;
}

abbrev or_nothing : Result (List RecommendationRow) → List RecommendationRow
or_nothing (ok l) = l
or_nothing (err e) = []

abbrev now : ℕ
now = 101 * day + 1

abbrev after : List RecommendationRow
after = or_nothing (run_ledger broker "A1" pivot "rec-101" (101 * day) now rows)

ran : run_ledger broker "A1" pivot "rec-101" (101 * day) now rows ≡ ok after
unfolding run_ledger portfolio_copilot.Prelude.Dict.get
    portfolio_copilot.Positions.Refresh.by_symbol portfolio_copilot.Prelude.Dict.put
    portfolio_copilot.Decimal.Division.div portfolio_copilot.Decimal.Number.sub
    portfolio_copilot.Prelude.Int.◌-ℤ◌ portfolio_copilot.Prelude.Int.◌*ℤ◌
ran = refl

statuses : map (λ (r : RecommendationRow). r.status) after ≡ expired ∷ acted_on ∷ superseded ∷ []
unfolding run_ledger portfolio_copilot.Prelude.Dict.get
    portfolio_copilot.Positions.Refresh.by_symbol portfolio_copilot.Prelude.Dict.put
    portfolio_copilot.Decimal.Division.div portfolio_copilot.Decimal.Number.sub
    portfolio_copilot.Prelude.Int.◌-ℤ◌ portfolio_copilot.Prelude.Int.◌*ℤ◌
statuses = refl

run_ledger_steps_example :
    let (positions, cash) = fetch_live_self_directed broker "A1" in
    (kept : List RecommendationRow) × (last : RecommendationRow) × (after ≡ kept ++ last ∷ [])
    × Pointwise Reaches rows kept
    × Step (new_row pivot "rec-101" (101 * day) now positions cash) last
run_ledger_steps_example = run_ledger_steps broker "A1" pivot "rec-101" (101 * day) now rows ran

record_supersedes_itself_example :
    record_recommendation pivot "rec-101" (101 * day) now [] none rows
    ≡ rows ++ superseded_row "rec-101" now (new_row pivot "rec-101" (101 * day) now [] none) ∷ []
record_supersedes_itself_example =
    record_supersedes_itself pivot "rec-101" 101 now [] none rows refl refl

undetected : check_one no_baseline (("NVDA", nvda) ∷ []) (Decimal.of_ℕ 4000) ≡ ok none
undetected =
    no_baseline_no_detection no_baseline (("NVDA", nvda) ∷ []) (Decimal.of_ℕ 4000) refl refl

pre_digest_clears_example :
    let (positions, cash) = fetch_live_self_directed broker "A1" in
    (rows' : List RecommendationRow) × (ledger_pre_digest broker "A1" now rows
      ≡ ok (rows', positions, cash))
    × All (λ r. is_overdue now r ≡ false) rows'
pre_digest_clears_example = pre_digest_clears broker "A1" now rows (tt, (tt, tt))

-- The same run once more, on the table that the first one left.
abbrev once_more : Run
once_more = record {
  broker = broker;
  account = "A1";
  parsed = pivot;
  id = "rec-101b";
  digest_dt = 101 * day;
  now = now;
}

abbrev later_rows : List RecommendationRow
later_rows = or_nothing (run_all (once_more ∷ []) after)

ran_again : run_all (once_more ∷ []) after ≡ ok later_rows
unfolding run_all run_ledger portfolio_copilot.Prelude.Dict.get
    portfolio_copilot.Positions.Refresh.by_symbol portfolio_copilot.Prelude.Dict.put
    portfolio_copilot.Decimal.Division.div portfolio_copilot.Decimal.Number.sub
    portfolio_copilot.Prelude.Int.◌-ℤ◌ portfolio_copilot.Prelude.Int.◌*ℤ◌
ran_again = refl

first_expired : row_at 0 after ≡ some (expired_row now overdue)
unfolding run_ledger portfolio_copilot.Prelude.Dict.get
    portfolio_copilot.Positions.Refresh.by_symbol portfolio_copilot.Prelude.Dict.put
    portfolio_copilot.Decimal.Division.div portfolio_copilot.Decimal.Number.sub
    portfolio_copilot.Prelude.Int.◌-ℤ◌ portfolio_copilot.Prelude.Int.◌*ℤ◌
first_expired = refl

resolved_is_final_example : row_at 0 later_rows ≡ some (expired_row now overdue)
unfolding expired_row
resolved_is_final_example =
    resolved_is_final (once_more ∷ []) after 0 (expired_row now overdue) first_expired refl
      ran_again

-- An amount of NaN, with more cash at the time than there is now.
abbrev stuck : RecommendationRow
stuck = record buy_nvda { amount_usd = some nan; baseline_cash = some (Decimal.of_ℕ 9000) }
