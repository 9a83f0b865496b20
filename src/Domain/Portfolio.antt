-- ===== src/Domain/Portfolio.antt =====
-- src/trading/domain/portfolio/entities.py, market_data/entities.py and the enums that they use.
-- Times are microseconds since the epoch.
use portfolio_copilot.Prelude.{ℕ, Bool, String, List, Option}
use portfolio_copilot.Decimal.{Decimal}
use portfolio_copilot.Domain.Money.{Money}
use portfolio_copilot.Domain.Symbol.{AssetClass, Symbol}

pub data AccountType : Type 0 where
  taxable ira roth_ira margin cash unknown : AccountType

pub data Severity : Type 0 where
  info warning critical : Severity

pub data DriftKind : Type 0 where
  quantity cost_basis missing_local missing_broker : DriftKind

pub record BrokerAccount : Type 0 where
  pub account_id : String
  pub nickname : String
  pub masked_schwab_id : String
  pub account_type : AccountType
  pub margin_enabled : Bool
  pub allowed_instruments : List AssetClass

pub record Position : Type 0 where
  pub account_id : String
  pub symbol : Symbol
  pub quantity : Decimal
  pub average_cost : Money
  pub market_value : Money
  pub unrealized_pnl : Money
  pub as_of : ℕ

pub record Account : Type 0 where
  pub account_id : String
  pub cash : Money
  pub market_value : Money
  pub net_liquidation : Money
  pub buying_power : Money
  pub margin_balance : Option Money
  pub day_pnl : Option Money
  pub positions : List Position
  pub as_of : ℕ

pub record Quote : Type 0 where
  pub symbol : Symbol
  pub bid : Decimal
  pub ask : Decimal
  pub last : Decimal
  pub timestamp : ℕ
  pub volume : Option ℕ
