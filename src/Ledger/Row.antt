-- ===== src/Ledger/Row.antt =====
-- The table `recommendations` of persistence/models.py, less the reference to the digest, and
-- `_expire_overdue`.
use portfolio_copilot.Prelude.{
  update_where, select, ltb, length, Option, List, ◌&&◌, Bool, ℕ, String, true, false,
}
use portfolio_copilot.Decimal.{Decimal}

pub data Verb : Type 0 where
  buy hold : Verb

pub data Status : Type 0 where
  active acted_on expired superseded : Status

pub data Window : Type 0 where
  immediate this_week two_three_weeks this_month : Window

-- `_WINDOW_DAYS`
unfoldable pub window_days : Window → ℕ
window_days immediate = 1
window_days this_week = 7
window_days two_three_weeks = 21
window_days this_month = 30

abbrev pub day : ℕ
day = 86400000000

-- What the detector saw.
pub data Detail : Type 0 where
  shares_grew : (delta estimate : Decimal) → Detail
  cash_dropped : (delta target : Decimal) → Detail

-- `Decimal` of an amount reads `NaN` as well, which the column keeps.
pub data Amount : Type 0 where
  nan : Amount
  number : Decimal → Amount

pub record RecommendationRow : Type 0 where
  pub recommendation_id : String
  pub digest_date : ℕ
  pub verb : Verb
  pub symbol : Option String
  pub amount_usd : Option Amount
  pub window : Window
  pub due_date : ℕ
  pub rationale : String
  pub status : Status
  pub superseded_by : Option String
  pub acted_on_detail : Option Detail
  pub baseline_qty : Option Decimal
  pub baseline_cash : Option Decimal
  pub created_at : ℕ
  pub updated_at : ℕ

abbrev pub is_active : RecommendationRow → Bool
is_active r = elim r.status [
  | active ↦ true
  | acted_on ↦ false
  | expired ↦ false
  | superseded ↦ false
]

abbrev pub is_overdue : ℕ → RecommendationRow → Bool
is_overdue now r = is_active r && ltb r.due_date now

unfoldable pub expired_row : ℕ → RecommendationRow → RecommendationRow
expired_row now r = record r { status = expired; updated_at = now }

-- `_expire_overdue`: the number of rows that expire, and the table after it.
unfoldable pub expire_overdue : ℕ → List RecommendationRow → ℕ × List RecommendationRow
unfolding expired_row
expire_overdue now rows =
    (length (select (is_overdue now) rows), update_where (is_overdue now) (expired_row now) rows)
