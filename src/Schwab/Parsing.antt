-- ===== src/Schwab/Parsing.antt =====
-- adapters/schwab/parsing.py: accounts, positions and quotes. `read` is `Decimal` of a text and `now`
-- is what `datetime.now` gives.
use portfolio_copilot.Prelude.{
  not, ◌&&◌, codes, length, str_eq, leb, List, str_append, ℕ, Bool, if◌then◌else◌, Option, Result,
  String, ok, none, some, true, false, [], ◌∷◌, ◌>>=◌,
}
use portfolio_copilot.Prelude.Dict
use portfolio_copilot.Prelude.Dict.{Dict}
use portfolio_copilot.Decimal
use portfolio_copilot.Decimal.{Decimal}
use portfolio_copilot.Domain.Money
use portfolio_copilot.Domain.Money.{Money}
use portfolio_copilot.Domain.Symbol.{coerce_symbol, make_symbol, Symbol, option, equity}
use portfolio_copilot.Domain.Portfolio.{Account, Position, Quote, BrokerAccount, AccountType}
use portfolio_copilot.Json.{Json}
use portfolio_copilot.Schwab.Values.{
  parse_money_or_none, parse_money, decimal, objects_at, number, or_zero, parse_decimal, text_at,
  dict_at, is_truthy, dict_or_self,
}
use portfolio_copilot.Prelude.Text.{last_chars, upper, is_blank}
use portfolio_copilot.Prelude.Int.{pos_part}

-- The dict of `parse_account_type`.
abbrev type_map : Dict AccountType
type_map =
    ("MARGIN", AccountType.margin)
    ∷ ("CASH", AccountType.cash)
    ∷ ("INDIVIDUAL", AccountType.taxable)
    ∷ ("JOINT", AccountType.taxable)
    ∷ ("IRA", AccountType.ira)
    ∷ ("ROTH_IRA", AccountType.roth_ira)
    ∷ ("ROTH", AccountType.roth_ira)
    ∷ ("TRADITIONAL_IRA", AccountType.ira)
    ∷ []

-- `d.get(key, default)` of a dict of the code
abbrev get_or {ℓ} : {A : Type ℓ} → A → Option A → A
get_or default none = default
get_or default (some v) = v

unfoldable pub parse_account_type : String → AccountType
parse_account_type type_str =
    if is_blank type_str
    then AccountType.unknown
    else get_or AccountType.unknown (Dict.get (upper type_str) type_map)

abbrev type_names : Dict String
type_names =
    ("MARGIN", "Margin")
    ∷ ("CASH", "Cash")
    ∷ ("INDIVIDUAL", "Individual")
    ∷ ("JOINT", "Joint")
    ∷ ("IRA", "IRA")
    ∷ ("ROTH_IRA", "Roth IRA")
    ∷ ("ROTH", "Roth IRA")
    ∷ ("TRADITIONAL_IRA", "Traditional IRA")
    ∷ []

unfoldable pub derive_nickname : String → String → String
derive_nickname account_type account_number =
    str_append (get_or "Account" (Dict.get (upper account_type) type_names))
      (str_append " ****" (last_chars 4 account_number))

unfoldable pub masked_id : String → String
masked_id number =
    if leb 4 (length (codes number)) then str_append "****" (last_chars 4 number) else number

unfoldable pub parse_broker_account : String → Dict Json → Result BrokerAccount
unfolding parse_account_type derive_nickname masked_id
parse_broker_account account_hash account_data = do
  sec_acct ← dict_or_self "securitiesAccount" account_data
  account_number ← text_at "accountNumber" "" sec_acct
  account_type_str ← text_at "type" "" sec_acct
  ok (record {
    account_id = account_hash;
    nickname = derive_nickname account_type_str account_number;
    masked_schwab_id = masked_id account_number;
    account_type = parse_account_type account_type_str;
    margin_enabled = str_eq (upper account_type_str) "MARGIN";
    allowed_instruments = equity ∷ [];
  })

-- `_parse_symbol`
unfoldable pub parse_symbol : String → String → Result Symbol
parse_symbol raw asset_type =
    if str_eq asset_type "OPTION" then make_symbol raw option else coerce_symbol raw

-- `_is_valid_position`
unfoldable pub is_valid_position : Dict Json → Result Bool
is_valid_position pos_data = do
  instrument ← dict_at "instrument" pos_data
  long ← number (or_zero (Dict.get "longQuantity" pos_data))
  short ← number (or_zero (Dict.get "shortQuantity" pos_data))
  ok (elim (Dict.get "symbol" instrument) [
    | none ↦ false
    | some symbol ↦ is_truthy symbol && not (Decimal.same_value long short)
  ])

module _ (read : String → Option Decimal) (now : ℕ) where
  abbrev or_now : Option ℕ → ℕ
  or_now none = now
  or_now (some t) = t

  unfoldable pub parse_position : String → Dict Json → Option ℕ → Result Position
  unfolding parse_symbol
  parse_position account_id pos_data as_of = do
    instrument ← dict_at "instrument" pos_data
    raw_symbol ← text_at "symbol" "" instrument
    asset_type ← text_at "assetType" "EQUITY" instrument
    symbol ← parse_symbol raw_symbol (upper asset_type)
    long_qty ← decimal read (or_zero (Dict.get "longQuantity" pos_data))
    short_qty ← decimal read (or_zero (Dict.get "shortQuantity" pos_data))
    let quantity = Decimal.sub long_qty short_qty
    let avg_price = parse_money read (or_zero (Dict.get "averagePrice" pos_data))
    let market_value = parse_money read (or_zero (Dict.get "marketValue" pos_data))
    cost ← Money.mul avg_price (Decimal.abs quantity)
    unrealized_pnl ← Money.sub market_value cost
    ok (record {
      account_id = account_id;
      symbol = symbol;
      quantity = quantity;
      average_cost = avg_price;
      market_value = market_value;
      unrealized_pnl = unrealized_pnl;
      as_of = or_now as_of;
    })

  -- The positions of `parse_account`: those that are valid, in their order.
  unfoldable pub parse_positions : String → List (Dict Json) → Result (List Position)
  unfolding is_valid_position parse_position
  parse_positions account_hash [] = ok []
  parse_positions account_hash (p ∷ ps) = do
    valid ← is_valid_position p
    let rest = parse_positions account_hash ps
    elim valid [
      | false ↦ rest
      | true ↦ (do position ← parse_position account_hash p none; more ← rest; ok (position ∷ more))
    ]

  unfoldable pub market_total : List Position → Decimal
  market_total [] = Decimal.of_ℕ 0
  market_total (p ∷ ps) = Decimal.add p.market_value.amount (market_total ps)

  -- `net_liq if net_liq.amount > 0 else cash + market_value`
  abbrev pub net_liquidation : Money → Money → Money → Result Money
  net_liquidation net_liq cash market_value =
      if Decimal.is_pos net_liq.amount then ok net_liq else Money.add cash market_value

  unfoldable pub parse_account : String → Dict Json → Option ℕ → Result Account
  unfolding parse_positions market_total
  parse_account account_hash account_data as_of = do
    sec_acct ← dict_or_self "securitiesAccount" account_data
    balances ← dict_at "currentBalances" sec_acct
    raw_positions ← objects_at "positions" sec_acct
    let cash = parse_money read (or_zero (Dict.get "cashBalance" balances))
    positions ← parse_positions account_hash raw_positions
    market_value ← Money.usd (market_total positions)
    let net_liq = parse_money read (or_zero (Dict.get "liquidationValue" balances))
    net ← net_liquidation net_liq cash market_value
    ok (record {
      account_id = account_hash;
      cash = cash;
      market_value = market_value;
      net_liquidation = net;
      buying_power = parse_money read (or_zero (Dict.get "buyingPower" balances));
      margin_balance = parse_money_or_none read (Dict.get "marginBalance" balances);
      day_pnl = parse_money_or_none read (Dict.get "dayPnl" balances);
      positions = positions;
      as_of = or_now as_of;
    })

  -- `int(v) if v else None`, for a volume that is not negative.
  abbrev volume_of : Option Json → Result (Option ℕ)
  volume_of none = ok none
  volume_of (some v) =
      if is_truthy v then (number v >>= λ n. ok (some (pos_part (Decimal.to_int n)))) else ok none

  -- Milliseconds of a quote are taken only when no time is given.
  abbrev time_of : Option ℕ → Option Json → Result ℕ
  time_of (some t) ms = ok t
  time_of none none = ok now
  time_of none (some v) =
      if is_truthy v
      then (number v >>= λ ms. ok (pos_part (Decimal.to_int (Decimal.mul ms (Decimal.of_ℕ 1000)))))
      else ok now

  -- `last if last > 0 else (bid + ask) / 2`
  abbrev last_or_mid : Decimal → Decimal → Decimal → Result Decimal
  last_or_mid last bid ask =
      if Decimal.is_pos last then ok last else Decimal.div (Decimal.add bid ask) (Decimal.of_ℕ 2)

  unfoldable pub parse_quote : Symbol → Dict Json → Option ℕ → Result Quote
  parse_quote symbol quote_data as_of = do
    inner ← dict_or_self symbol.ticker quote_data
    quote_obj ← dict_or_self "quote" inner
    let bid = parse_decimal read (or_zero (Dict.get "bidPrice" quote_obj))
    let ask = parse_decimal read (or_zero (Dict.get "askPrice" quote_obj))
    let last = parse_decimal read (or_zero (Dict.get "lastPrice" quote_obj))
    volume ← volume_of (Dict.get "totalVolume" quote_obj)
    timestamp ← time_of as_of (Dict.get "quoteTime" quote_obj)
    price ← last_or_mid last bid ask
    ok (record {
      symbol = symbol;
      bid = bid;
      ask = ask;
      last = price;
      timestamp = timestamp;
      volume = volume;
    })
