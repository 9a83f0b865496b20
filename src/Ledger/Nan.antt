-- ===== src/Ledger/Nan.antt =====
-- generate_digest.py: an amount that is NaN, in the steps before a digest.
use portfolio_copilot.Prelude.{
  ◌⊎◌, none, ok, invalid_operation, false, err, true, some, Option, ◌≡◌, Result, ℕ,
}
use portfolio_copilot.Decimal
use portfolio_copilot.Decimal.{Decimal}
use portfolio_copilot.Ledger.Row.{Detail, nan, RecommendationRow, is_active, is_overdue}
use portfolio_copilot.Ledger.Detect.{is_buy}
use portfolio_copilot.Prelude.Dict.{Dict}

-- The first rule raises on NaN or says nothing.
abbrev RaisesOrNothing : Result (Option Detail) → Type 0
RaisesOrNothing r = (r ≡ err invalid_operation) ⊎ (r ≡ ok none)

-- A recommendation to buy for an amount of NaN, active and not past its due date, issued when the
-- account had more cash than it has now.
pub record IsStuck (now : ℕ) (cash : Decimal) (r : RecommendationRow) : Type 0 where
  pub active : is_active r ≡ true
  pub buys : is_buy r ≡ true
  pub due : is_overdue now r ≡ false
  pub amount : r.amount_usd ≡ some nan
  pub base : Decimal
  pub cash_then : r.baseline_cash ≡ some base
  pub spent : Decimal.is_pos (Decimal.sub base cash) ≡ true
