-- ===== src/Broker.antt =====
-- src/trading/adapters/fake/broker.py. An order spec is a value of any type `Spec`, and a paper order
-- is known by the number in its identifier. Times are arguments; `datetime.now` is not modelled.
pub mod Consistent
pub mod PaperOrders
mod Tests
use portfolio_copilot.Prelude.{◌>>=◌}
use portfolio_copilot.Prelude.Dict
use portfolio_copilot.Prelude.Dict.{Dict, contains}
use portfolio_copilot.Decimal
use portfolio_copilot.Decimal.{Decimal}
use portfolio_copilot.Domain.Money
use portfolio_copilot.Domain.Money.{Money}
use portfolio_copilot.Prelude.{
  ◌+◌, some, false, unknown_account, no_quote, not, ◌==◌, is_some, length, true, if◌then◌else◌, err,
  ok, ◌∷◌, Bool, Exec, none, List, [], Result, ℕ, String, Option,
}
use portfolio_copilot.Domain.Symbol.{Symbol}
use portfolio_copilot.Domain.Portfolio.{Account, Position, Quote, BrokerAccount}

-- The dict of an account's balances.
pub record Balances : Type 0 where
  pub cash : Money
  pub market_value : Money
  pub net_liquidation : Money
  pub buying_power : Money

pub record FakeBroker (Spec : Type 0) : Type 0 where
  pub accounts : Dict BrokerAccount
  pub positions : Dict (Dict Position)
  pub balances : Dict Balances
  pub quotes : Dict Quote
  pub paper_orders : List (ℕ × Spec)

abbrev pub init : (Spec : Type 0) → FakeBroker Spec
init Spec = record { accounts = []; positions = []; balances = []; quotes = []; paper_orders = [] }

pub held : String → Dict (Dict Position) → Dict Position
held id ps = elim (Dict.get id ps) [ none ↦ [] | some d ↦ d ]

or_zero : Option Money → Money
or_zero none = Money.zero_usd
or_zero (some m) = m

module _ {Spec : Type 0} where
  -- `add_account`, with the fields of the account it registers
  unfoldable pub add_account : BrokerAccount → Option Money → FakeBroker Spec → FakeBroker Spec
  unfolding or_zero
  add_account account cash b = record b {
    accounts = Dict.put account.account_id account b.accounts;
    positions = Dict.set_default account.account_id [] b.positions;
    balances =
        Dict.put account.account_id
          (record {
            cash = or_zero cash;
            market_value = Money.zero_usd;
            net_liquidation = or_zero cash;
            buying_power = or_zero cash;
          })
          b.balances;
  }

-- `for p in positions: market_value = market_value + p.market_value`
pub market_total : Money → List Position → Result Money
market_total acc [] = ok acc
market_total acc (p ∷ ps) = do acc' ← Money.add acc p.market_value; market_total acc' ps

-- The assignments of `_recompute_balances`, one by one: the market value is stored before the sum
-- with the cash can raise.
unfoldable pub recomputed : List Position → Balances → Result (Unit {0}) × Balances
unfolding market_total
recomputed ps bal = elim (market_total Money.zero_usd ps) [
  | err e ↦ (err e, bal)
  | ok total ↦ elim (Money.add bal.cash total) [
    | err e ↦ (err e, record bal { market_value = total })
    | ok net ↦
        (ok tt, record bal { market_value = total; net_liquidation = net; buying_power = net })
  ]
]

-- `average_value_currency`
pub average_value_currency : List Money → String
average_value_currency [] = "USD"
average_value_currency (m ∷ ms) = if Money.is_zero m then average_value_currency ms else m.currency

default_value : Option Money → Decimal → Money → Result Money
default_value none quantity cost = Money.make_money (Decimal.mul cost.amount quantity) cost.currency
default_value (some m) quantity cost = ok m

-- The position that `set_position` stores.
pub new_position : String → Symbol → Decimal → Money → Option Money → ℕ → Result Position
unfolding default_value average_value_currency
new_position id symbol quantity cost value now = do
  market_value ← default_value value quantity cost
  let raw_pnl = Decimal.sub market_value.amount (Decimal.mul cost.amount quantity)
  pnl ←
      Money.make_money (Decimal.quantize raw_pnl 4)
        (average_value_currency (cost ∷ market_value ∷ []))
  ok (record {
    account_id = id;
    symbol = symbol;
    quantity = quantity;
    average_cost = cost;
    market_value = market_value;
    unrealized_pnl = pnl;
    as_of = now;
  })

half_sum : Decimal → Decimal → Result Decimal
half_sum bid ask = Decimal.div (Decimal.add bid ask) (Decimal.of_ℕ 2)

last_or_mid : Option Decimal → Decimal → Decimal → Result Decimal
last_or_mid none bid ask = half_sum bid ask
last_or_mid (some last) bid ask = ok last

module _ {Spec : Type 0} where
  -- `_recompute_balances`
  pub recompute_balances : String → Exec (FakeBroker Spec) (Unit {0})
  unfolding recomputed held
  recompute_balances id b = elim (Dict.get id b.balances) [
    | none ↦ (err (unknown_account id), b)
    | some bal ↦
        let (r, bal') = recomputed (Dict.values (held id b.positions)) bal in
        (r, record b { balances = Dict.put id bal' b.balances })
  ]

  pub store_position : String → Position → FakeBroker Spec → FakeBroker Spec
  unfolding held
  store_position id p b = record b {
    positions = Dict.put id (Dict.put p.symbol.ticker p (held id b.positions)) b.positions;
  }

  unfoldable pub set_position :
      String → Symbol → Decimal → Money → Option Money → ℕ → Exec (FakeBroker Spec) Position
  unfolding new_position store_position recompute_balances
  set_position id symbol quantity cost value now b =
      elim (new_position id symbol quantity cost value now) [
        | err e ↦ (err e, b)
        | ok p ↦
            let (r, b') = recompute_balances id (store_position id p b) in (r >>= (λ _. ok p), b')
      ]

  unfoldable pub set_quote :
      Symbol → Decimal → Decimal → Option Decimal → Option ℕ → ℕ → Exec (FakeBroker Spec) Quote
  unfolding last_or_mid half_sum
  set_quote symbol bid ask last volume now b = elim (last_or_mid last bid ask) [
    | err e ↦ (err e, b)
    | ok price ↦
        let q : Quote = record {
          symbol = symbol;
          bid = bid;
          ask = ask;
          last = price;
          timestamp = now;
          volume = volume;
        } in
        (ok q, record b { quotes = Dict.put symbol.ticker q b.quotes })
  ]

  unfoldable pub get_accounts : FakeBroker Spec → List BrokerAccount
  get_accounts b = Dict.values b.accounts

  unfoldable pub get_account : String → ℕ → FakeBroker Spec → Result Account
  unfolding held
  get_account id now b =
      if not (contains id b.accounts)
      then err (unknown_account id)
      else elim (Dict.get id b.balances) [
        | none ↦ err (unknown_account id)
        | some bal ↦ ok (record {
          account_id = id;
          cash = bal.cash;
          market_value = bal.market_value;
          net_liquidation = bal.net_liquidation;
          buying_power = bal.buying_power;
          margin_balance = none;
          day_pnl = none;
          positions = Dict.values (held id b.positions);
          as_of = now;
        })
      ]

  unfoldable pub get_positions : String → FakeBroker Spec → Result (List Position)
  unfolding held
  get_positions id b =
      if not (contains id b.accounts)
      then err (unknown_account id)
      else ok (Dict.values (held id b.positions))

  -- The quotes that the stream yields.
  unfoldable pub stream_quotes : List Symbol → FakeBroker Spec → List Quote
  stream_quotes [] b = []
  stream_quotes (s ∷ ss) b =
      let rest = stream_quotes ss b in
      elim (Dict.get s.ticker b.quotes) [ none ↦ rest | some q ↦ q ∷ rest ]

  unfoldable pub get_quote : Symbol → FakeBroker Spec → Result Quote
  get_quote s b = elim (Dict.get s.ticker b.quotes) [
    | none ↦ err (no_quote s.ticker)
    | some q ↦ ok q
  ]

  -- `preview_order` accepts whatever an account that exists asks for.
  unfoldable pub preview_order : String → Spec → FakeBroker Spec → Result Bool
  preview_order id spec b = if contains id b.balances then ok true else err (unknown_account id)

  put_order : ℕ → Spec → List (ℕ × Spec) → List (ℕ × Spec)
  put_order n spec [] = (n, spec) ∷ []
  put_order n spec ((m, old) ∷ rest) =
      if m == n then (n, spec) ∷ rest else (m, old) ∷ put_order n spec rest

  unfoldable pub submit_place_order : String → Spec → Exec (FakeBroker Spec) ℕ
  unfolding put_order
  submit_place_order id spec b =
      if contains id b.balances
      then (let n = length b.paper_orders + 1 in
          (ok n, record b { paper_orders = put_order n spec b.paper_orders }))
      else (err (unknown_account id), b)

  unfoldable pub find_order : ℕ → List (ℕ × Spec) → Option Spec
  find_order n [] = none
  find_order n ((m, spec) ∷ rest) = if m == n then some spec else find_order n rest

  drop_order : ℕ → List (ℕ × Spec) → List (ℕ × Spec)
  drop_order n [] = []
  drop_order n ((m, spec) ∷ rest) = if m == n then rest else (m, spec) ∷ drop_order n rest

  unfoldable pub cancel_order : ℕ → FakeBroker Spec → Bool × FakeBroker Spec
  unfolding drop_order find_order
  cancel_order n b =
      if is_some (find_order n b.paper_orders)
      then (true, record b { paper_orders = drop_order n b.paper_orders })
      else (false, b)
