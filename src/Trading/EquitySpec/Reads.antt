-- ===== src/Trading/EquitySpec/Reads.antt =====
-- What the order built by adapters/schwab/orders.py says.
use portfolio_copilot.Decimal
use portfolio_copilot.Prelude.{
  refl, zero, suc, ltb, arith, inr, inl, Bool-cases, >>=-eq-ok, ◌<◌, ok_injective, some, ok, true,
  ◌≡◌, none, ℕ, Option, String,
}
use portfolio_copilot.Trading.EquitySpec.{
  build_equity_spec, validate_quantity, Reading, day_order, ticker, equity_instrument, LegSymbol,
  sells_short, limit_builder, market_builder, choose_builder, sells, buys, ReadsAsDocumented,
  SchwabOrders, Instruction,
}
use portfolio_copilot.Domain.Execution.{
  market, sell_to_open, sell_to_close, sell, buy_to_close, buy_to_open, limit, buy, OrderSide,
  OrderType,
}
use portfolio_copilot.Decimal.Number.{SameValue, Decimal}
use portfolio_copilot.Prelude.Int.{pos_part, ℤ}

-- What the side of a command asks of the broker: equities that are sold to open are sold short.
abbrev pub instruction_of : OrderSide → Instruction
instruction_of buy = buys
instruction_of buy_to_open = buys
instruction_of buy_to_close = buys
instruction_of sell = sells
instruction_of sell_to_close = sells
instruction_of sell_to_open = sells_short

-- The price of an order: a market order has none.
abbrev pub price_of : OrderType → Option Decimal → Option Decimal
price_of limit p = p
price_of _ p = none

-- What a leg is given as its symbol: the short sale gives an instrument.
abbrev pub leg_symbol : OrderSide → String → LegSymbol
leg_symbol sell_to_open s = equity_instrument s
leg_symbol _ s = ticker s

-- An order with the session and the duration set.
abbrev set_day : Reading → Reading
set_day x = record x { session_normal = true; duration_day = true }

module _ (schwab : SchwabOrders) (docs : ReadsAsDocumented schwab) where
  market_reads :
      (s : String) (side : OrderSide) (q : ℕ)
      → set_day (docs.read (market_builder schwab s side q))
        ≡ day_order (instruction_of side) (leg_symbol side s) q market none
  unfolding market_builder
  market_reads s buy q = rw docs.buy_market refl
  market_reads s sell q = rw docs.sell_market refl
  market_reads s buy_to_open q = rw docs.buy_market refl
  market_reads s buy_to_close q = rw docs.buy_market refl
  market_reads s sell_to_close q = rw docs.sell_market refl
  market_reads s sell_to_open q = rw (docs.typed, docs.short_leg, docs.empty) refl

  limit_reads :
      (s : String) (side : OrderSide) (q : ℕ) (p : Decimal)
      → set_day (docs.read (limit_builder schwab s side q p))
        ≡ day_order (instruction_of side) (leg_symbol side s) q limit (some p)
  unfolding limit_builder
  limit_reads s buy q p = rw docs.buy_limit refl
  limit_reads s sell q p = rw docs.sell_limit refl
  limit_reads s buy_to_open q p = rw docs.buy_limit refl
  limit_reads s buy_to_close q p = rw docs.buy_limit refl
  limit_reads s sell_to_close q p = rw docs.sell_limit refl
  limit_reads s sell_to_open q p = rw (docs.priced, docs.typed, docs.short_leg) refl

  choose_reads :
      (s : String) (side : OrderSide) (q : ℕ) (t : OrderType) (p : Option Decimal)
      {b : schwab.Builder}
      → choose_builder schwab s side q t p ≡ ok b
      → set_day (docs.read b)
        ≡ day_order (instruction_of side) (leg_symbol side s) q t (price_of t p)
  unfolding choose_builder
  choose_reads s side q market p h = rw (← ok_injective h) (market_reads s side q)
  choose_reads s side q limit none h = cc h
  choose_reads s side q limit (some p) h = rw (← ok_injective h) (limit_reads s side q p)
  choose_reads s side q _ p h = cc h

same_pos :
    (z : ℤ) (k n : ℕ)
    → ltb 0 (pos_part z) ≡ true
    → SameValue (Decimal.of_ℕ n) (record { int = z; scale = k })
    → 0 < n
same_pos z k zero h e = ground arith
same_pos z k (suc n) h e = ground arith

pub validate_quantity-eq-ok :
    (schwab : SchwabOrders) (q : Decimal) {n : ℕ}
    → validate_quantity schwab q ≡ ok n
    → (0 < n) × SameValue (Decimal.of_ℕ n) q
unfolding validate_quantity
validate_quantity-eq-ok schwab q {n} h = elim (Bool-cases (Decimal.is_pos q)) [
  | inr e ↦ ground arith
  | inl e ↦
      let (m, p) = Decimal.to_int_pos q e in
      let same : SameValue (Decimal.of_ℕ n) q = ground (arith, p) in
      (same_pos q.int q.scale n e same, same)
]

module _ (schwab : SchwabOrders) (docs : ReadsAsDocumented schwab) where
  -- An order that is built is for a positive whole number of shares, equal to the quantity of the
  -- command. It is a day order of the normal session that says what the command's side means, the
  -- symbol and the type, with the limit price exactly if it is a limit order. Its leg is given the
  -- symbol as a text, but for a sale to open, whose leg is given an instrument in place of the text.
  pub build_equity_spec_reads :
      (s : String) (side : OrderSide) (q : Decimal) (t : OrderType) (p : Option Decimal)
      {spec : schwab.Spec}
      → build_equity_spec schwab s side q t p ≡ ok spec
      → (n : ℕ) × (0 < n)
        × SameValue (Decimal.of_ℕ n) q
        × (docs.read_spec spec
            ≡ day_order (instruction_of side) (leg_symbol side s) n t (price_of t p))
  unfolding build_equity_spec
  build_equity_spec_reads s side q t p h =
      let (n, valid, h₁) = >>=-eq-ok (validate_quantity schwab q) _ h in
      let (b, chosen, h₂) = >>=-eq-ok (choose_builder schwab s side n t p) _ h₁ in
      let (positive, same) = validate_quantity-eq-ok schwab q valid in
      (
        n,
        positive,
        same,
        rw (← ok_injective h₂, docs.built, docs.day, docs.normal)
            (choose_reads schwab docs s side n t p chosen),
      )
