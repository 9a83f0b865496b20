-- ===== src/Trading/Command.antt =====
-- application/execution/place_order.py: the command and the checks, which ask no broker.
use portfolio_copilot.Prelude.{
  quantity_not_positive, target_not_positive, limit_price_missing, [], quantity_and_target, ◌∷◌,
  zero_shares, no_quantity_or_target, is_some, insufficient_buying_power, fractional_quantity, ok,
  err, ◌&&◌, not, if◌then◌else◌, Bool, List, String, Option, Result, ◌>>=◌, none, some, true, false,
}
use portfolio_copilot.Decimal
use portfolio_copilot.Decimal.{Decimal}
use portfolio_copilot.Domain.Execution.{OrderType, OrderSide, buy, buy_to_open, limit}
use portfolio_copilot.Prelude.Int.{ltb_ℤ, ℤ, pos}

pub record PlaceOrderCommand : Type 0 where
  pub account_id : String
  pub symbol : String
  pub side : OrderSide
  pub order_type : OrderType
  pub quantity : Option Decimal
  pub target_usd : Option Decimal
  pub limit_price : Option Decimal
  pub actor : String

is_limit : OrderType → Bool
is_limit limit = true
is_limit _ = false

-- `x is not None and x <= 0`
is_given_nonpositive : Option Decimal → Bool
is_given_nonpositive none = false
is_given_nonpositive (some x) = Decimal.le x (Decimal.of_ℕ 0)

-- `PlaceOrderCommand.__post_init__`
unfoldable pub make_command : PlaceOrderCommand → Result PlaceOrderCommand
unfolding is_limit is_given_nonpositive
make_command cmd =
    if not (is_some cmd.quantity) && not (is_some cmd.target_usd)
    then err no_quantity_or_target
    else if is_some cmd.quantity && is_some cmd.target_usd
    then err quantity_and_target
    else if is_limit cmd.order_type && not (is_some cmd.limit_price)
    then err limit_price_missing
    else if is_given_nonpositive cmd.target_usd
    then err target_not_positive
    else if is_given_nonpositive cmd.quantity
    then err quantity_not_positive
    else ok cmd

-- `cmd.side in (OrderSide.BUY, OrderSide.BUY_TO_OPEN)`
abbrev pub is_buy : OrderSide → Bool
is_buy buy = true
is_buy buy_to_open = true
is_buy _ = false

-- `Decimal("0.95")`
abbrev most : Decimal
most = record { int = pos 95; scale = 2 }

-- The quantity of a command with a quantity.
unfoldable pub explicit_quantity : Decimal → Result ℤ
explicit_quantity quantity =
    if Decimal.same_value (Decimal.of_ℤ (Decimal.to_int quantity)) quantity
    then ok (Decimal.to_int quantity)
    else err fractional_quantity

-- The quantity of a command with a dollar amount.
unfoldable pub dollar_quantity : Decimal → Decimal → Result ℤ
dollar_quantity target price = do
  ratio ← Decimal.div target price
  let qty = Decimal.to_int (Decimal.quantize_down ratio 0)
  if ltb_ℤ qty (pos 1) then err zero_shares else ok qty

-- A command without either does not pass `make_command`: `assert cmd.target_usd is not None`.
unfoldable pub quantity_at : Option Decimal → Option Decimal → Decimal → Result ℤ
unfolding explicit_quantity dollar_quantity
quantity_at (some quantity) target price = explicit_quantity quantity
quantity_at none (some target) price = dollar_quantity target price
quantity_at none none price = err no_quantity_or_target

-- The buying-power check of `preview`, and the share of it that a warning shows.
unfoldable pub check_buying_power : OrderSide → Decimal → Decimal → Result (List Decimal)
check_buying_power side cost power =
    if is_buy side && Decimal.lt power cost
    then err insufficient_buying_power
    else if Decimal.lt (Decimal.mul power most) cost && is_buy side
    then (Decimal.div cost power >>= λ share. ok (share ∷ []))
    else ok []
