-- ===== src/Broker/Tests.antt =====
-- The fake broker with one account.
use portfolio_copilot.Prelude.{
  ◌==◌, if◌then◌else◌, Result, ◌≡◌, [], ◌∷◌, false, ℕ, String, arith, refl, ok, some, none,
}
use portfolio_copilot.Prelude.Dict
use portfolio_copilot.Prelude.Dict.{Dict}
use portfolio_copilot.Decimal
use portfolio_copilot.Decimal.{Decimal}
use portfolio_copilot.Domain.Money
use portfolio_copilot.Domain.Money.{Money, IsMoney}
use portfolio_copilot.Broker.{
  held, find_order, cancel_order, submit_place_order, market_total, set_position, Balances,
  add_account, init, FakeBroker,
}
use portfolio_copilot.Domain.Portfolio.{Position, AccountType, BrokerAccount}
use portfolio_copilot.Prelude.Int.{pos}
use portfolio_copilot.Domain.Symbol.{equity, Symbol}
use portfolio_copilot.Broker.Consistent.{
  add_account_again_unbalances, set_position-IsBalanced, add_account-IsBalanced, IsBalanced,
}
use portfolio_copilot.Broker.PaperOrders.{submit-IsNumbered, IsNumbered, cancel_loses_order}

abbrev cash : Money
cash = record { amount = Decimal.of_ℕ 1000; currency = "USD" }

abbrev brokerage : BrokerAccount
brokerage = record {
  account_id = "A1";
  nickname = "main";
  masked_schwab_id = "...1";
  account_type = AccountType.taxable;
  margin_enabled = false;
  allowed_instruments = equity ∷ [];
}

abbrev apple : Symbol
apple = record { ticker = "AAPL"; asset_class = equity }

abbrev cost : Money
cost = record { amount = record { int = pos 15025; scale = 2 }; currency = "USD" }

abbrev empty_broker : FakeBroker ℕ
empty_broker = init ℕ

abbrev opened : FakeBroker ℕ
opened = add_account brokerage (some cash) empty_broker

empty-IsBalanced : IsBalanced empty_broker
unfolding Dict.get
empty-IsBalanced = record { at = λ id bal h. absurd (nothing id bal h) }
  where
    nothing : (id : String) (bal : Balances) → Dict.get id empty_broker.balances ≡ some bal → ⊥
    nothing id bal h = cc h

cash-IsMoney : IsMoney cash
cash-IsMoney = record { places = omega arith; code = refl }

opened-IsBalanced : IsBalanced opened
unfolding Dict.get portfolio_copilot.Decimal.Division.digit_count
opened-IsBalanced =
    add_account-IsBalanced brokerage cash empty_broker empty-IsBalanced refl cash-IsMoney refl refl

add_account-IsBalanced_example : IsBalanced opened
unfolding Dict.get portfolio_copilot.Decimal.Division.digit_count
add_account-IsBalanced_example =
    add_account-IsBalanced brokerage cash empty_broker empty-IsBalanced refl cash-IsMoney refl refl

-- Ten shares at 150.25, worth 1600.00.
abbrev worth : Money
worth = record { amount = Decimal.of_ℕ 1600; currency = "USD" }

abbrev bought : Result Position × FakeBroker ℕ
unfolding set_position add_account Dict.get Dict.put
bought = set_position "A1" apple (Decimal.of_ℕ 10) cost (some worth) 7 opened

abbrev apples : Position
apples = record {
  account_id = "A1";
  symbol = apple;
  quantity = Decimal.of_ℕ 10;
  average_cost = cost;
  market_value = worth;
  unrealized_pnl = record { amount = record { int = pos 975000; scale = 4 }; currency = "USD" };
  as_of = 7;
}

bought_apples :
    set_position "A1" apple (Decimal.of_ℕ 10) cost (some worth) 7 opened ≡ (ok apples, bought.1)
unfolding set_position add_account Dict.get Dict.put Dict.set_default Dict.values Money.make_money
    portfolio_copilot.Decimal.Rounding.quantize portfolio_copilot.Decimal.Number.sub
    portfolio_copilot.Decimal.Number.mul Money.add portfolio_copilot.Decimal.Number.add
    portfolio_copilot.Prelude.Int.◌*ℤ◌ portfolio_copilot.Prelude.Int.◌-ℤ◌
    portfolio_copilot.Decimal.Division.in_context portfolio_copilot.Prelude.Int.◌+ℤ◌
bought_apples = refl

set_position-IsBalanced_example : IsBalanced bought.1
set_position-IsBalanced_example =
    set_position-IsBalanced "A1" apple (Decimal.of_ℕ 10) cost (some worth) 7 opened bought.1
      opened-IsBalanced bought_apples

add_account_again_unbalances_example :
    let b' = add_account brokerage (some cash) bought.1 in
    (held "A1" b'.positions ≡ ("AAPL", apples) ∷ [])
    × ((bal : Balances) × (Dict.get "A1" b'.balances ≡ some bal)
        × (bal.market_value ≡ Money.zero_usd)
        × (bal.net_liquidation ≡ bal.cash)
        × (bal.buying_power ≡ bal.cash))
    × ¬ IsBalanced b'
unfolding set_position add_account Dict.get Dict.put Dict.set_default Dict.values market_total
    Money.make_money portfolio_copilot.Decimal.Rounding.quantize
    portfolio_copilot.Decimal.Number.sub portfolio_copilot.Decimal.Number.mul
    portfolio_copilot.Prelude.Int.◌*ℤ◌ portfolio_copilot.Prelude.Int.◌-ℤ◌ Money.add
    portfolio_copilot.Decimal.Number.add portfolio_copilot.Prelude.Int.◌+ℤ◌
    portfolio_copilot.Decimal.Division.in_context
add_account_again_unbalances_example =
    add_account_again_unbalances brokerage (some cash) bought.1 (("AAPL", apples) ∷ []) worth refl
      refl refl

submit-IsNumbered_example :
    let (r, b') = submit_place_order "A1" 77 opened in
    (r ≡ ok 1)
    × (find_order 1 opened.paper_orders ≡ none)
    × (find_order 1 b'.paper_orders
        ≡ (if 1 == 1 then some 77 else find_order 1 opened.paper_orders))
    × IsNumbered 1 b'.paper_orders
unfolding add_account Dict.get Dict.put
submit-IsNumbered_example = submit-IsNumbered "A1" 77 opened 1 refl tt

cancel_loses_order_example :
    let b₁ = (submit_place_order "A1" 11 opened).1 in
    let b₂ = (submit_place_order "A1" 22 b₁).1 in
    let b₃ = (cancel_order 1 b₂).1 in
    let (r, b₄) = submit_place_order "A1" 33 b₃ in
    ((submit_place_order "A1" 22 b₁).0 ≡ ok 2)
    × (find_order 2 b₃.paper_orders ≡ some 22)
    × (r ≡ ok 2)
    × (b₄.paper_orders ≡ (2, 33) ∷ [])
unfolding add_account Dict.get Dict.put
cancel_loses_order_example = cancel_loses_order "A1" 11 22 33 opened refl refl
