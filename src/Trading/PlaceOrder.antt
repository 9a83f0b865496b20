-- ===== src/Trading/PlaceOrder.antt =====
-- application/execution/place_order.py. The broker is the protocol `_BrokerLike`: its calls change
-- a state, as a service's do, and may raise.
pub mod Checks
use portfolio_copilot.Prelude.Effect.{pure, lift, ◌>>=◌}
use portfolio_copilot.Decimal
use portfolio_copilot.Decimal.{Decimal}
use portfolio_copilot.Trading.EquitySpec.{build_equity_spec, SchwabOrders}
use portfolio_copilot.Prelude.{List, Exec, String}
use portfolio_copilot.Trading.Command.{PlaceOrderCommand, check_buying_power, quantity_at}
use portfolio_copilot.Domain.Execution.{OrderType, OrderSide}
use portfolio_copilot.Domain.Portfolio.{Quote, Account}
use portfolio_copilot.Prelude.Int.{ℤ}
use portfolio_copilot.Domain.Symbol.{equity, make_symbol, Symbol}

-- The order spec is that of the Schwab adapter.
pub record BrokerLike (Spec : Type 0) : Type 1 where
  pub State : Type 0
  pub Preview : Type 0
  pub OrderId : Type 0
  pub get_account : String → Exec State Account
  pub get_quote : Symbol → Exec State Quote
  pub preview_order : String → Spec → Exec State Preview
  pub submit_place_order : String → Spec → Exec State OrderId

pub record OrderPreview (Spec Preview : Type 0) : Type 0 where
  pub order_spec : Spec
  pub symbol : String
  pub side : OrderSide
  pub order_type : OrderType
  pub quantity : ℤ
  pub estimated_cost : Decimal
  pub buying_power_before : Decimal
  pub buying_power_after : Decimal
  pub broker_preview : Preview
  pub warnings : List Decimal

module _ (schwab : SchwabOrders) (broker : BrokerLike schwab.Spec) where
  open broker use {
    State, Preview, OrderId, get_account, get_quote, preview_order, submit_place_order,
  }

  unfoldable pub resolve_quantity : PlaceOrderCommand → Exec State (ℤ × Decimal)
  unfolding quantity_at
  resolve_quantity cmd = lift (make_symbol cmd.symbol equity) >>= λ symbol.
      get_quote symbol >>= λ quote.
      lift (quantity_at cmd.quantity cmd.target_usd quote.last) >>= λ qty. pure (qty, quote.last)

  -- After the quantity and its reference price are known.
  unfoldable pub preview_of :
      PlaceOrderCommand → ℤ × Decimal → Exec State (OrderPreview schwab.Spec Preview)
  unfolding check_buying_power
  preview_of cmd (qty, ref_price) = get_account cmd.account_id >>= λ account.
      let power = account.buying_power.amount in
      let cost = Decimal.mul (Decimal.of_ℤ qty) ref_price in
      lift (check_buying_power cmd.side cost power) >>= λ warnings.
      lift (
        build_equity_spec schwab cmd.symbol cmd.side (Decimal.of_ℤ qty) cmd.order_type
          cmd.limit_price)
      >>= λ spec. preview_order cmd.account_id spec >>= λ answer. pure (record {
        order_spec = spec;
        symbol = cmd.symbol;
        side = cmd.side;
        order_type = cmd.order_type;
        quantity = qty;
        estimated_cost = cost;
        buying_power_before = power;
        buying_power_after = Decimal.sub power cost;
        broker_preview = answer;
        warnings = warnings;
      })

  unfoldable pub preview : PlaceOrderCommand → Exec State (OrderPreview schwab.Spec Preview)
  unfolding resolve_quantity preview_of
  preview cmd = resolve_quantity cmd >>= preview_of cmd

  unfoldable pub submit : PlaceOrderCommand → Exec State OrderId
  unfolding preview
  submit cmd = preview cmd >>= λ pv. submit_place_order cmd.account_id pv.order_spec
