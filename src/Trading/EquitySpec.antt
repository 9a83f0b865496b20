-- ===== src/Trading/EquitySpec.antt =====
-- adapters/schwab/orders.py. The builders of schwab-py are not under the repository: they are the
-- operations of `SchwabOrders`, and `ReadsAsDocumented` is what each of them writes into an order: the
-- templates fill in the normal session and the day, and an empty builder does not.
pub mod Reads
use portfolio_copilot.Prelude.{
  true, none, unsupported_order_type, some, fractional_quantity, limit_price_missing,
  quantity_not_positive, false, err, Bool, ok, Option, not, ◌≡◌, if◌then◌else◌, ℕ, Result, String,
  ◌>>=◌,
}
use portfolio_copilot.Decimal
use portfolio_copilot.Decimal.{Decimal}
use portfolio_copilot.Domain.Execution.{
  market, sell_to_close, sell_to_open, buy_to_close, buy_to_open, sell, buy, OrderType, limit,
  OrderSide,
}
use portfolio_copilot.Prelude.Int.{magnitude}

-- What is given as the symbol of a leg: a text, or an `EquityInstrument` around one.
pub data LegSymbol : Type 0 where
  ticker equity_instrument : String → LegSymbol

pub record SchwabOrders : Type 1 where
  pub Builder : Type 0
  pub Spec : Type 0
  pub equity_buy_market : String → ℕ → Builder
  pub equity_sell_market : String → ℕ → Builder
  pub equity_buy_limit : String → ℕ → Decimal → Builder
  pub equity_sell_limit : String → ℕ → Decimal → Builder
  pub order_builder : Builder
  pub add_sell_short_leg : LegSymbol → ℕ → Builder → Builder
  pub set_order_type : OrderType → Builder → Builder
  pub set_price : Decimal → Builder → Builder
  pub set_session_normal : Builder → Builder
  pub set_duration_day : Builder → Builder
  pub build : Builder → Spec

module _ (schwab : SchwabOrders) where
  open schwab use {
    Builder, Spec, equity_buy_market, equity_sell_market, equity_buy_limit, equity_sell_limit,
    order_builder, add_sell_short_leg, set_order_type, set_price, set_session_normal,
    set_duration_day, build,
  }

  -- `_validate_quantity`
  unfoldable pub validate_quantity : Decimal → Result ℕ
  validate_quantity quantity =
      if not (Decimal.is_pos quantity)
      then err quantity_not_positive
      else if not (Decimal.same_value (Decimal.of_ℤ (Decimal.to_int quantity)) quantity)
      then err fractional_quantity
      else ok (magnitude (Decimal.to_int quantity))

  equity_sell_short_market_builder : String → ℕ → Builder
  equity_sell_short_market_builder symbol qty =
      set_order_type market (add_sell_short_leg (equity_instrument symbol) qty order_builder)

  equity_sell_short_limit_builder : String → ℕ → Decimal → Builder
  equity_sell_short_limit_builder symbol qty price =
      set_price price
        (set_order_type limit (add_sell_short_leg (equity_instrument symbol) qty order_builder))

  unfoldable pub market_builder : String → OrderSide → ℕ → Builder
  unfolding equity_sell_short_market_builder
  market_builder symbol buy qty = equity_buy_market symbol qty
  market_builder symbol sell qty = equity_sell_market symbol qty
  market_builder symbol buy_to_open qty = equity_buy_market symbol qty
  market_builder symbol buy_to_close qty = equity_buy_market symbol qty
  market_builder symbol sell_to_open qty = equity_sell_short_market_builder symbol qty
  market_builder symbol sell_to_close qty = equity_sell_market symbol qty

  unfoldable pub limit_builder : String → OrderSide → ℕ → Decimal → Builder
  unfolding equity_sell_short_limit_builder
  limit_builder symbol buy qty price = equity_buy_limit symbol qty price
  limit_builder symbol buy_to_open qty price = equity_buy_limit symbol qty price
  limit_builder symbol buy_to_close qty price = equity_buy_limit symbol qty price
  limit_builder symbol sell qty price = equity_sell_limit symbol qty price
  limit_builder symbol sell_to_close qty price = equity_sell_limit symbol qty price
  limit_builder symbol sell_to_open qty price = equity_sell_short_limit_builder symbol qty price

  pub choose_builder : String → OrderSide → ℕ → OrderType → Option Decimal → Result Builder
  unfolding market_builder limit_builder
  choose_builder symbol side qty market price = ok (market_builder symbol side qty)
  choose_builder symbol side qty limit none = err limit_price_missing
  choose_builder symbol side qty limit (some price) = ok (limit_builder symbol side qty price)
  choose_builder symbol side qty _ price = err unsupported_order_type

  unfoldable pub build_equity_spec :
      String → OrderSide → Decimal → OrderType → Option Decimal → Result Spec
  unfolding validate_quantity choose_builder
  build_equity_spec symbol side quantity order_type limit_price = do
    qty ← validate_quantity quantity
    builder ← choose_builder symbol side qty order_type limit_price
    ok (build (set_duration_day (set_session_normal builder)))

pub data Instruction : Type 0 where
  buys sells sells_short no_leg : Instruction

-- What an order says.
pub record Reading : Type 0 where
  pub instruction : Instruction
  pub symbol : LegSymbol
  pub quantity : ℕ
  pub order_type : Option OrderType
  pub price : Option Decimal
  pub session_normal : Bool
  pub duration_day : Bool

-- A day order of the normal session.
abbrev pub day_order : Instruction → LegSymbol → ℕ → OrderType → Option Decimal → Reading
day_order i s q t p = record {
  instruction = i;
  symbol = s;
  quantity = q;
  order_type = some t;
  price = p;
  session_normal = true;
  duration_day = true;
}

abbrev pub empty_order : Reading
empty_order = record {
  instruction = no_leg;
  symbol = ticker "";
  quantity = 0;
  order_type = none;
  price = none;
  session_normal = false;
  duration_day = false;
}

pub record ReadsAsDocumented (schwab : SchwabOrders) : Type 0 where
  pub read : schwab.Builder → Reading
  pub read_spec : schwab.Spec → Reading
  pub buy_market :
      (s : String) (q : ℕ)
      → read (schwab.equity_buy_market s q) ≡ day_order buys (ticker s) q market none
  pub sell_market :
      (s : String) (q : ℕ)
      → read (schwab.equity_sell_market s q) ≡ day_order sells (ticker s) q market none
  pub buy_limit :
      (s : String) (q : ℕ) (p : Decimal)
      → read (schwab.equity_buy_limit s q p) ≡ day_order buys (ticker s) q limit (some p)
  pub sell_limit :
      (s : String) (q : ℕ) (p : Decimal)
      → read (schwab.equity_sell_limit s q p) ≡ day_order sells (ticker s) q limit (some p)
  pub empty : read schwab.order_builder ≡ empty_order
  pub short_leg :
      (s : LegSymbol) (q : ℕ) (b : schwab.Builder)
      → read (schwab.add_sell_short_leg s q b)
        ≡ record (read b) { instruction = sells_short; symbol = s; quantity = q }
  pub typed :
      (t : OrderType) (b : schwab.Builder)
      → read (schwab.set_order_type t b) ≡ record (read b) { order_type = some t }
  pub priced :
      (p : Decimal) (b : schwab.Builder)
      → read (schwab.set_price p b) ≡ record (read b) { price = some p }
  pub normal :
      (b : schwab.Builder)
      → read (schwab.set_session_normal b) ≡ record (read b) { session_normal = true }
  pub day :
      (b : schwab.Builder)
      → read (schwab.set_duration_day b) ≡ record (read b) { duration_day = true }
  pub built : (b : schwab.Builder) → read_spec (schwab.build b) ≡ read b
