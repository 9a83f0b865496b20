-- ===== src/Trading/Tests.antt =====
-- A builder library that reads as documented, and a broker that keeps the orders it is given.
use portfolio_copilot.Prelude.{
  ◌++◌, String, insufficient_buying_power, ◌∷◌, ◌≡◌, ◌<◌, List, [], ℕ, refl, ok, err, some, none,
  true,
}
use portfolio_copilot.Decimal
use portfolio_copilot.Decimal.{Decimal}
use portfolio_copilot.Domain.Money.{Money}
use portfolio_copilot.Trading.EquitySpec.{
  empty_order, ticker, day_order, sells_short, sells, buys, build_equity_spec, Reading,
  SchwabOrders, ReadsAsDocumented,
}
use portfolio_copilot.Trading.Command.{PlaceOrderCommand, make_command}
use portfolio_copilot.Trading.PlaceOrder.Checks.{
  submit_needs_preview, submit_places_one, preview_places_none, preview-IsChecked, PlacesOnSubmit,
  IsChecked,
}
use portfolio_copilot.Trading.PlaceOrder.{submit, OrderPreview, preview, BrokerLike}
use portfolio_copilot.Domain.Symbol.{Symbol}
use portfolio_copilot.Domain.Portfolio.{Quote, Account}
use portfolio_copilot.Domain.Execution.{limit, market, buy}
use portfolio_copilot.Decimal.Number.{SameValue}
use portfolio_copilot.Prelude.Int.{pos}
use portfolio_copilot.Trading.EquitySpec.Reads.{build_equity_spec_reads, instruction_of}

abbrev builders : SchwabOrders
builders = record {
  Builder = Reading;
  Spec = Reading;
  equity_buy_market = λ s q. day_order buys (ticker s) q market none;
  equity_sell_market = λ s q. day_order sells (ticker s) q market none;
  equity_buy_limit = λ s q p. day_order buys (ticker s) q limit (some p);
  equity_sell_limit = λ s q p. day_order sells (ticker s) q limit (some p);
  order_builder = empty_order;
  add_sell_short_leg = λ s q b. record b { instruction = sells_short; symbol = s; quantity = q };
  set_order_type = λ t b. record b { order_type = some t };
  set_price = λ p b. record b { price = some p };
  set_session_normal = λ b. record b { session_normal = true };
  set_duration_day = λ b. record b { duration_day = true };
  build = λ b. b;
}

builders-ReadsAsDocumented : ReadsAsDocumented builders
builders-ReadsAsDocumented = record {
  read = λ b. b;
  read_spec = λ s. s;
  buy_market = λ s q. refl;
  sell_market = λ s q. refl;
  buy_limit = λ s q p. refl;
  sell_limit = λ s q p. refl;
  empty = refl;
  short_leg = λ s q b. refl;
  typed = λ t b. refl;
  priced = λ p b. refl;
  normal = λ b. refl;
  day = λ b. refl;
  built = λ b. refl;
}

abbrev dollars : ℕ → Money
dollars n = record { amount = Decimal.of_ℕ n; currency = "USD" }

abbrev account : Account
account = record {
  account_id = "A1";
  cash = dollars 1000;
  market_value = dollars 0;
  net_liquidation = dollars 1000;
  buying_power = dollars 1000;
  margin_balance = none;
  day_pnl = none;
  positions = [];
  as_of = 0;
}

abbrev quote : Symbol → Quote
quote s = record {
  symbol = s;
  bid = Decimal.of_ℕ 99;
  ask = Decimal.of_ℕ 101;
  last = Decimal.of_ℕ 100;
  timestamp = 0;
  volume = none;
}

-- A share is quoted at 100 dollars, and the account has 1000.
abbrev broker : BrokerLike Reading
broker = record {
  State = List (String × Reading);
  Preview = ℕ;
  OrderId = ℕ;
  get_account = λ id s. (ok account, s);
  get_quote = λ x s. (ok (quote x), s);
  preview_order = λ id spec s. (ok 1, s);
  submit_place_order = λ id spec s. (ok 7, s ++ (id, spec) ∷ []);
}

broker-PlacesOnSubmit : PlacesOnSubmit broker
broker-PlacesOnSubmit = record {
  placed = λ s. s;
  get_account = λ id s. refl;
  get_quote = λ x s. refl;
  preview_order = λ id spec s. refl;
  submit_place_order = λ id spec s h. refl;
}

-- An order for shares worth 350 dollars: three whole shares.
abbrev buy_350 : PlaceOrderCommand
buy_350 = record {
  account_id = "A1";
  symbol = "AAPL";
  side = buy;
  order_type = market;
  quantity = none;
  target_usd = some (Decimal.of_ℕ 350);
  limit_price = none;
  actor = "agent";
}

-- An order for eleven shares, which the account cannot pay.
abbrev buy_11 : PlaceOrderCommand
buy_11 = record buy_350 { quantity = some (Decimal.of_ℕ 11); target_usd = none }

abbrev three : Reading
three = day_order buys (ticker "AAPL") 3 market none

abbrev shown : OrderPreview Reading ℕ
shown = record {
  order_spec = three;
  symbol = "AAPL";
  side = buy;
  order_type = market;
  quantity = pos 3;
  estimated_cost = Decimal.of_ℕ 300;
  buying_power_before = Decimal.of_ℕ 1000;
  buying_power_after = Decimal.of_ℕ 700;
  broker_preview = 1;
  warnings = [];
}

previewed : (preview builders broker buy_350 []).0 ≡ ok shown
unfolding preview portfolio_copilot.Prelude.Effect.◌>>=◌ portfolio_copilot.Domain.Symbol.make_symbol
    portfolio_copilot.Decimal.Division.div portfolio_copilot.Decimal.Rounding.to_int
    portfolio_copilot.Decimal.Rounding.quantize_down portfolio_copilot.Decimal.Number.mul
    portfolio_copilot.Prelude.Int.◌*ℤ◌ build_equity_spec portfolio_copilot.Decimal.Number.sub
    portfolio_copilot.Prelude.Int.◌-ℤ◌
previewed = refl

submitted : (submit builders broker buy_350 []).0 ≡ ok 7
unfolding submit portfolio_copilot.Prelude.Effect.◌>>=◌ portfolio_copilot.Domain.Symbol.make_symbol
    portfolio_copilot.Decimal.Division.div portfolio_copilot.Decimal.Rounding.to_int
    portfolio_copilot.Decimal.Rounding.quantize_down portfolio_copilot.Decimal.Number.mul
    portfolio_copilot.Prelude.Int.◌*ℤ◌ build_equity_spec
submitted = refl

refused : (preview builders broker buy_11 []).0 ≡ err insufficient_buying_power
unfolding preview portfolio_copilot.Prelude.Effect.◌>>=◌ portfolio_copilot.Domain.Symbol.make_symbol
    portfolio_copilot.Decimal.Rounding.to_int portfolio_copilot.Decimal.Number.mul
    portfolio_copilot.Prelude.Int.◌*ℤ◌
refused = refl

built : build_equity_spec builders "AAPL" buy (Decimal.of_ℕ 3) market none ≡ ok three
unfolding build_equity_spec portfolio_copilot.Decimal.Rounding.to_int
built = refl

accepted : make_command buy_350 ≡ ok buy_350
unfolding make_command
accepted = refl

build_equity_spec_reads_example :
    (n : ℕ) × (0 < n)
    × SameValue (Decimal.of_ℕ n) (Decimal.of_ℕ 3)
    × (three ≡ day_order (instruction_of buy) (ticker "AAPL") n market none)
unfolding builders-ReadsAsDocumented
build_equity_spec_reads_example =
    build_equity_spec_reads builders builders-ReadsAsDocumented "AAPL" buy (Decimal.of_ℕ 3) market
      none built

preview-IsChecked_example : IsChecked builders broker buy_350 [] shown
preview-IsChecked_example = preview-IsChecked builders broker buy_350 [] previewed

preview_places_none_example : (preview builders broker buy_350 []).1 ≡ []
unfolding preview broker-PlacesOnSubmit
preview_places_none_example = preview_places_none builders broker broker-PlacesOnSubmit buy_350 []

submit_places_one_example :
    (pv : OrderPreview Reading ℕ) × ((preview builders broker buy_350 []).0 ≡ ok pv)
    × IsChecked builders broker buy_350 [] pv
    × ((submit builders broker buy_350 []).1 ≡ ("A1", pv.order_spec) ∷ [])
unfolding submit broker-PlacesOnSubmit
submit_places_one_example =
    submit_places_one builders broker broker-PlacesOnSubmit buy_350 [] submitted

submit_needs_preview_example :
    ((submit builders broker buy_11 []).0 ≡ err insufficient_buying_power)
    × ((submit builders broker buy_11 []).1 ≡ [])
unfolding submit broker-PlacesOnSubmit
submit_needs_preview_example =
    submit_needs_preview builders broker broker-PlacesOnSubmit buy_11 [] refused
