-- ===== src/Positions/Tests.antt =====
-- A broker with two positions, and a table with an old quantity and an orphan.
use portfolio_copilot.Prelude.{
  err, Result, str_eq, if◌then◌else◌, ◌+◌, ◌≡◌, ℕ, List, String, length, [], ◌∷◌, refl, ok, false,
}
use portfolio_copilot.Decimal
use portfolio_copilot.Decimal.{Decimal}
use portfolio_copilot.Domain.Money.{Money}
use portfolio_copilot.Positions.Refresh.{
  execute, BrokerPort, RefreshPositionsCommand, RefreshPositionsResult,
}
use portfolio_copilot.Positions.Tables.{position_row, PositionRow, load_local_positions, Tables}
use portfolio_copilot.Positions.Rows.{reported, rows_at}
use portfolio_copilot.Domain.Portfolio.{Position, AccountType, BrokerAccount}
use portfolio_copilot.Domain.Events.{DomainEvent}
use portfolio_copilot.Domain.Symbol.{fund, equity}
use portfolio_copilot.Positions.Events.{refresh_counts, refresh_returns}
use portfolio_copilot.Positions.Mirror.{mirrored, refresh_mirrors}
use portfolio_copilot.Positions.Drift.{refresh_again_is_quiet}

abbrev dollars : ℕ → Money
dollars n = record { amount = Decimal.of_ℕ n; currency = "USD" }

abbrev holding : String → ℕ → Position
holding ticker n = record {
  account_id = "A1";
  symbol = record { ticker = ticker; asset_class = equity };
  quantity = Decimal.of_ℕ n;
  average_cost = dollars 100;
  market_value = dollars 500;
  unrealized_pnl = dollars 20;
  as_of = 40;
}

abbrev main_account : BrokerAccount
main_account = record {
  account_id = "A1";
  nickname = "main";
  masked_schwab_id = "...1";
  account_type = AccountType.taxable;
  margin_enabled = false;
  allowed_instruments = fund ∷ equity ∷ [];
}

abbrev fresh : List Position
fresh = holding "AAPL" 5 ∷ holding "MSFT" 2 ∷ []

abbrev broker : BrokerPort
broker = record { get_positions = λ id. ok fresh; get_accounts = ok (main_account ∷ []) }

abbrev cmd : RefreshPositionsCommand
cmd = record { account_id = "A1"; correlation_id = 9; actor = "scheduler" }

-- The row of a holding, read at time 30.
abbrev row : String → ℕ → PositionRow
row ticker n = record {
  account_id = "A1";
  symbol = ticker;
  asset_class = equity;
  quantity = Decimal.of_ℕ n;
  average_cost = Decimal.of_ℕ 100;
  average_cost_currency = "USD";
  market_value = Decimal.of_ℕ 500;
  unrealized_pnl = Decimal.of_ℕ 20;
  as_of = 30;
}

abbrev table : Tables
table = record { accounts = []; positions = row "AAPL" 4 ∷ row "TSLA" 1 ∷ [] }

abbrev prior : List Position
prior = record (holding "AAPL" 4) { as_of = 30 } ∷ record (holding "TSLA" 1) { as_of = 30 } ∷ []

prior_loaded : load_local_positions "A1" table ≡ ok prior
unfolding load_local_positions portfolio_copilot.Domain.Symbol.coerce_symbol
    portfolio_copilot.Domain.Symbol.make_symbol portfolio_copilot.Domain.Money.make_money
prior_loaded = refl

refresh_returns_example :
    (r : Tables × List DomainEvent × RefreshPositionsResult) × (execute cmd broker 50 table ≡ ok r)
refresh_returns_example =
    refresh_returns cmd broker 50 table (main_account ∷ []) fresh prior refl refl refl
      (refl, (refl, tt)) (refl, (refl, tt)) prior_loaded

abbrev Refreshed : Type 0
Refreshed = Tables × List DomainEvent × RefreshPositionsResult

abbrev nothing : Refreshed
nothing = (
  table,
  [],
  record {
    account_id = "A1";
    refreshed_positions = [];
    drift_detected = false;
    drift_details = [];
    refreshed_at = 0;
  },
)

abbrev or_nothing : Result Refreshed → Refreshed
or_nothing (ok r) = r
or_nothing (err e) = nothing

-- The result of a refresh at time 50, and that of a second one at time 60.
abbrev once : Refreshed
once = or_nothing (execute cmd broker 50 table)

abbrev twice : Refreshed
twice = or_nothing (execute cmd broker 60 once.0)

executed : execute cmd broker 50 table ≡ ok once
unfolding execute portfolio_copilot.Positions.Tables.upsert_local_account
    portfolio_copilot.Domain.Symbol.coerce_symbol portfolio_copilot.Domain.Symbol.make_symbol
    portfolio_copilot.Domain.Money.make_money portfolio_copilot.Positions.Refresh.refresh_position
    portfolio_copilot.Positions.Tables.upsert_local_position portfolio_copilot.Prelude.Dict.get
    portfolio_copilot.Prelude.Dict.put portfolio_copilot.Decimal.Number.abs
    portfolio_copilot.Decimal.Number.sub portfolio_copilot.Prelude.Int.◌-ℤ◌
    portfolio_copilot.Prelude.Int.◌*ℤ◌
executed = refl

executed_again : execute cmd broker 60 once.0 ≡ ok twice
unfolding execute portfolio_copilot.Positions.Tables.upsert_local_account
    portfolio_copilot.Domain.Symbol.coerce_symbol portfolio_copilot.Domain.Symbol.make_symbol
    portfolio_copilot.Domain.Money.make_money portfolio_copilot.Positions.Refresh.refresh_position
    portfolio_copilot.Positions.Tables.upsert_local_position portfolio_copilot.Prelude.Dict.get
    portfolio_copilot.Prelude.Dict.put portfolio_copilot.Decimal.Number.abs
    portfolio_copilot.Decimal.Number.sub portfolio_copilot.Prelude.Int.◌-ℤ◌
    portfolio_copilot.Prelude.Int.◌*ℤ◌ portfolio_copilot.Prelude.Dict.pop
    portfolio_copilot.Positions.Refresh.drop_orphan
executed_again = refl

refresh_mirrors_example : rows_at "A1" "AAPL" once.0.positions ≡ (
    if str_eq "A1" "A1"
    then mirrored 50 (reported "AAPL" fresh)
    else rows_at "A1" "AAPL" table.positions)
refresh_mirrors_example =
    refresh_mirrors cmd broker 50 table fresh "A1" "AAPL" refl (refl, (refl, tt)) executed

refresh_counts_example :
    length once.1 ≡ length once.2.refreshed_positions + length once.2.drift_details
refresh_counts_example = refresh_counts cmd broker 50 table executed

refresh_again_is_quiet_example : (twice.2.drift_details ≡ []) × (twice.2.drift_detected ≡ false)
refresh_again_is_quiet_example =
    refresh_again_is_quiet cmd broker 50 60 table fresh refl (refl, (refl, tt)) (refl, (refl, tt))
      executed executed_again
