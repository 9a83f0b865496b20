-- ===== src/Domain/Congress.antt =====
-- src/trading/domain/congressional/entities.py and the enums that it uses. A date is its number of
-- days.
use portfolio_copilot.Prelude.{ℕ, String, Option}
use portfolio_copilot.Prelude.Int.{ℤ, sub_ℕ}
use portfolio_copilot.Domain.Symbol.{Symbol}

pub data TransactionType : Type 0 where
  purchase sale sale_partial exchange other : TransactionType

pub data Chamber : Type 0 where
  house senate : Chamber

pub data Party : Type 0 where
  democrat republican independent unknown : Party

pub record TradeDisclosure : Type 0 where
  pub filing_id : String
  pub member_id : String
  pub member_name : String
  pub symbol : Option Symbol
  pub asset_description : String
  pub transaction_type : TransactionType
  pub transaction_date : ℕ
  pub disclosure_date : ℕ
  pub amount_range_low : Option ℤ
  pub amount_range_high : Option ℤ
  pub raw_blob_key : Option String

-- Negative for a filing that is dated before its transaction.
unfoldable pub lag_days : TradeDisclosure → ℤ
lag_days d = sub_ℕ d.disclosure_date d.transaction_date
