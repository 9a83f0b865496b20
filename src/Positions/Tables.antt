-- ===== src/Positions/Tables.antt =====
-- The tables `broker_accounts` and `positions` of persistence/models.py, and the statements of
-- refresh_positions.py on them.
use portfolio_copilot.Prelude.{
  ◌++◌, update_where, integrity_error, err, [], not, Option, ◌||◌, false, ◌&&◌, ◌∷◌, select,
  if◌then◌else◌, true, any, ok, str_eq, List, ℕ, Bool, String, Result, ◌>>=◌, none, some,
}
use portfolio_copilot.Decimal
use portfolio_copilot.Decimal.{Decimal}
use portfolio_copilot.Domain.Money
use portfolio_copilot.Domain.Money.{Money}
use portfolio_copilot.Domain.Symbol.{coerce_symbol, AssetClass, equity, option, fixed_income, fund}
use portfolio_copilot.Domain.Portfolio.{AccountType, BrokerAccount, Position}

pub record AccountRow : Type 0 where
  pub account_id : String
  pub nickname : String
  pub masked_schwab_id : String
  pub account_type : AccountType
  pub margin_enabled : Bool
  pub allowed_instruments : List AssetClass
  pub is_paper : Bool
  pub updated_at : ℕ

pub record PositionRow : Type 0 where
  pub account_id : String
  pub symbol : String
  pub asset_class : AssetClass
  pub quantity : Decimal
  pub average_cost : Decimal
  pub average_cost_currency : String
  pub market_value : Decimal
  pub unrealized_pnl : Decimal
  pub as_of : ℕ

pub record Tables : Type 0 where
  pub accounts : List AccountRow
  pub positions : List PositionRow

-- `WHERE account_id = … AND symbol = …`
abbrev pub is_at : String → String → PositionRow → Bool
is_at id ticker r = str_eq r.account_id id && str_eq r.symbol ticker

-- `_delete_local_position`, which is also the first statement of the upsert
unfoldable pub delete_local_position : String → String → Tables → Tables
delete_local_position id ticker t = record t {
  positions = select (λ r. not (is_at id ticker r)) t.positions;
}

-- The row of a position.
unfoldable pub position_row : ℕ → Position → PositionRow
position_row now p = record {
  account_id = p.account_id;
  symbol = p.symbol.ticker;
  asset_class = p.symbol.asset_class;
  quantity = p.quantity;
  average_cost = p.average_cost.amount;
  average_cost_currency = p.average_cost.currency;
  market_value = p.market_value.amount;
  unrealized_pnl = p.unrealized_pnl.amount;
  as_of = now;
}

abbrev pub has_account : String → Tables → Bool
has_account id t = any (λ (a : AccountRow). str_eq a.account_id id) t.accounts

-- An insertion, with the constraints of the table: the quantity is not zero, the account exists, and
-- no other row has the account and the symbol.
unfoldable pub insert_position : PositionRow → Tables → Result Tables
insert_position row t =
    if Decimal.is_zero row.quantity
      || (not (has_account row.account_id t) || any (is_at row.account_id row.symbol) t.positions)
    then err integrity_error
    else ok (record t { positions = t.positions ++ row ∷ [] })

-- `_upsert_local_position`
unfoldable pub upsert_local_position : Position → ℕ → Tables → Result Tables
unfolding insert_position delete_local_position position_row
upsert_local_position p now t =
    insert_position (position_row now p) (delete_local_position p.account_id p.symbol.ticker t)

-- The position of a row; the values of a row are in dollars.
unfoldable pub from_row : PositionRow → Result Position
from_row r = do
  symbol ← coerce_symbol r.symbol
  average_cost ← Money.make_money r.average_cost r.average_cost_currency
  market_value ← Money.make_money r.market_value "USD"
  unrealized_pnl ← Money.make_money r.unrealized_pnl "USD"
  ok (record {
    account_id = r.account_id;
    symbol = symbol;
    quantity = r.quantity;
    average_cost = average_cost;
    market_value = market_value;
    unrealized_pnl = unrealized_pnl;
    as_of = r.as_of;
  })

unfoldable pub from_rows : List PositionRow → Result (List Position)
unfolding from_row
from_rows [] = ok []
from_rows (r ∷ rows) = do p ← from_row r; ps ← from_rows rows; ok (p ∷ ps)

-- `_load_local_positions`
unfoldable pub load_local_positions : String → Tables → Result (List Position)
unfolding from_rows
load_local_positions id t =
    from_rows (select (λ (r : PositionRow). str_eq r.account_id id) t.positions)

is_class : AssetClass → AssetClass → Bool
is_class equity equity = true
is_class option option = true
is_class fixed_income fixed_income = true
is_class fund fund = true
is_class _ _ = false

-- `sorted(a.name for a in allowed)` of a set: the members in the order of their names
sorted_instruments : List AssetClass → List AssetClass
unfolding is_class
sorted_instruments allowed =
    select (λ a. any (is_class a) allowed) (equity ∷ fixed_income ∷ fund ∷ option ∷ [])

unfoldable pub refreshed_row : ℕ → BrokerAccount → AccountRow → AccountRow
unfolding sorted_instruments
refreshed_row now a row = record row {
  nickname = a.nickname;
  masked_schwab_id = a.masked_schwab_id;
  account_type = a.account_type;
  margin_enabled = a.margin_enabled;
  allowed_instruments = sorted_instruments a.allowed_instruments;
  updated_at = now;
}

-- A new row, with the column defaults.
unfoldable pub new_row : ℕ → BrokerAccount → AccountRow
unfolding sorted_instruments
new_row now a = record {
  account_id = a.account_id;
  nickname = a.nickname;
  masked_schwab_id = a.masked_schwab_id;
  account_type = a.account_type;
  margin_enabled = a.margin_enabled;
  allowed_instruments = sorted_instruments a.allowed_instruments;
  is_paper = false;
  updated_at = now;
}

unfoldable pub find_account : String → List BrokerAccount → Option BrokerAccount
find_account id [] = none
find_account id (a ∷ accounts) = if str_eq a.account_id id then some a else find_account id accounts

-- `_upsert_local_account`; a broker that cannot list its accounts changes nothing.
unfoldable pub upsert_local_account : Result (List BrokerAccount) → String → ℕ → Tables → Tables
unfolding find_account refreshed_row new_row
upsert_local_account (err e) id now t = t
upsert_local_account (ok accounts) id now t = elim (find_account id accounts) [
  | none ↦ t
  | some a ↦
      if has_account id t
      then record t {
        accounts =
            update_where (λ (r : AccountRow). str_eq r.account_id id) (refreshed_row now a)
              t.accounts;
      }
      else record t { accounts = t.accounts ++ new_row now a ∷ [] }
]
