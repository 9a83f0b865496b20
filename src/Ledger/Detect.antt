-- ===== src/Ledger/Detect.antt =====
-- Which recommendations were acted on: `_check_one`, `_detect_acted_on` and the steps before a
-- digest.
use portfolio_copilot.Prelude.{
  invalid_operation, err, codes, ◌∷◌, ◌&&◌, not, [], List, ℕ, if◌then◌else◌, Option, Bool, Result,
  String, ◌>>=◌, none, some, true, false, ok,
}
use portfolio_copilot.Prelude.Dict
use portfolio_copilot.Prelude.Dict.{Dict}
use portfolio_copilot.Domain.Symbol.{is_empty}
use portfolio_copilot.Decimal
use portfolio_copilot.Decimal.{Decimal}
use portfolio_copilot.Positions.Refresh.{by_symbol}
use portfolio_copilot.Ledger.Row.{
  nan, number, Amount, is_active, shares_grew, cash_dropped, expire_overdue, buy, hold, acted_on,
  Detail, RecommendationRow,
}
use portfolio_copilot.Prelude.Int.{pos}
use portfolio_copilot.Domain.Portfolio.{Account, Position}

-- One less and one more than `DETECTION_TOLERANCE`.
abbrev pub low : Decimal
low = record { int = pos 85; scale = 2 }

abbrev pub high : Decimal
high = record { int = pos 115; scale = 2 }

-- `rec.amount_usd or Decimal("0")`
unfoldable pub or_zero : Option Amount → Amount
or_zero none = number (Decimal.of_ℕ 0)
or_zero (some a) = a

-- `avg_cost or Decimal("1")`
unfoldable pub or_one : Decimal → Decimal
or_one a = if Decimal.is_zero a then Decimal.of_ℕ 1 else a

-- The quantity of a position against its baseline. A NaN is neither less nor greater than a number:
-- the comparison raises.
unfoldable pub grew : Amount → Position → Decimal → Result (Option Detail)
unfolding or_one
grew nan p baseline =
    if Decimal.is_pos (Decimal.sub p.quantity baseline) then err invalid_operation else ok none
grew (number amount) p baseline = do
  estimate ← Decimal.div amount (or_one p.average_cost.amount)
  let delta = Decimal.sub p.quantity baseline
  if Decimal.is_pos delta && Decimal.is_pos estimate
      then (do
        ratio ← Decimal.div delta estimate
        ok (if Decimal.le low ratio then some (shares_grew delta estimate) else none))
      else ok none

pub held_at : String → Dict Position → Option Position
held_at s positions = if is_empty (codes s) then none else Dict.get s positions

-- Rule 1 of `_check_one`.
unfoldable pub rule_1 :
    Option String → Option Decimal → Option Amount → Dict Position → Result (Option Detail)
unfolding grew held_at or_zero
rule_1 (some s) (some baseline) amount positions = elim (held_at s positions) [
  | none ↦ ok none
  | some p ↦ grew (or_zero amount) p baseline
]
rule_1 _ _ amount positions = ok none

-- Rule 2.
unfoldable pub rule_2 : Option Amount → Option Decimal → Decimal → Result (Option Detail)
rule_2 (some nan) (some baseline) cash =
    if Decimal.is_pos (Decimal.sub baseline cash) then err invalid_operation else ok none
rule_2 (some (number amount)) (some baseline) cash =
    let delta = Decimal.sub baseline cash in
    if not (Decimal.is_zero amount) && Decimal.is_pos delta
    then (do
      ratio ← Decimal.div delta amount
      ok (
          if Decimal.le low ratio && Decimal.le ratio high
          then some (cash_dropped delta amount)
          else none))
    else ok none
rule_2 _ _ cash = ok none

-- `_check_one`; `none` is the pair of False and no detail.
unfoldable pub check_one : RecommendationRow → Dict Position → Decimal → Result (Option Detail)
unfolding rule_1 rule_2
check_one rec positions cash = do
  first ← rule_1 rec.symbol rec.baseline_qty rec.amount_usd positions
  elim first [ some d ↦ ok (some d) | none ↦ rule_2 rec.amount_usd rec.baseline_cash cash ]

abbrev pub is_buy : RecommendationRow → Bool
is_buy r = elim r.verb [ buy ↦ true | hold ↦ false ]

unfoldable pub marked : ℕ → Option Detail → RecommendationRow → RecommendationRow
marked now none r = r
marked now (some d) r = record r { status = acted_on; acted_on_detail = some d; updated_at = now }

-- `_detect_acted_on`: the table after it.
unfoldable pub detect_acted_on :
    Dict Position → Decimal → ℕ → List RecommendationRow → Result (List RecommendationRow)
unfolding check_one marked
detect_acted_on positions cash now [] = ok []
detect_acted_on positions cash now (r ∷ rows) = do
  seen ← if is_active r && is_buy r then check_one r positions cash else ok none
  rest ← detect_acted_on positions cash now rows
  ok (marked now seen r ∷ rest)

-- What `_fetch_live_self_directed` asks of the broker.
pub record LiveBroker : Type 0 where
  pub get_positions : String → Result (List Position)
  pub get_account : String → Result Account

live_snapshot : Result (List Position) → Result Account → Dict Position × Option Decimal
live_snapshot (ok ps) (ok account) = (by_symbol ps [], some account.cash.amount)
live_snapshot _ _ = ([], none)

-- `_fetch_live_self_directed`; an exception of the broker is no snapshot.
unfoldable pub fetch_live_self_directed :
    Option LiveBroker → String → Dict Position × Option Decimal
unfolding live_snapshot
fetch_live_self_directed none id = ([], none)
fetch_live_self_directed (some broker) id =
    if is_empty (codes id)
    then ([], none)
    else live_snapshot (broker.get_positions id) (broker.get_account id)

unfoldable pub detect_live :
    Dict Position → Option Decimal → ℕ → List RecommendationRow → Result (List RecommendationRow)
unfolding detect_acted_on
detect_live positions none now rows = ok rows
detect_live positions (some cash) now rows = detect_acted_on positions cash now rows

-- `_ledger_pre_digest`: the table after it, and the snapshot.
unfoldable pub ledger_pre_digest :
    Option LiveBroker
    → String
    → ℕ
    → List RecommendationRow
    → Result (List RecommendationRow × Dict Position × Option Decimal)
unfolding expire_overdue fetch_live_self_directed detect_live
ledger_pre_digest broker id now rows = do
  let (positions, cash) = fetch_live_self_directed broker id
  rows' ← detect_live positions cash now (expire_overdue now rows).1
  ok (rows', positions, cash)
