-- ===== src/Schwab/Tests.antt =====
-- A Schwab client with one margin account that holds a stock.
use portfolio_copilot.Prelude.{
  schwab_symbol_not_found, schwab_auth_error, schwab_account_not_found, str_eq, if◌then◌else◌, ◌*◌,
  value_error, invalid_option_symbol, List, ℕ, String, ◌≡◌, refl, ok, err, none, some, true, [],
  ◌∷◌,
}
use portfolio_copilot.Decimal
use portfolio_copilot.Prelude.Int.{pos}
use portfolio_copilot.Domain.Portfolio.{margin, Position, BrokerAccount}
use portfolio_copilot.Positions.Refresh.{RefreshPositionsResult, execute, RefreshPositionsCommand}
use portfolio_copilot.Schwab.Adapter.{
  stream_quotes, get_quote, preview_order, get_orders, cancel_order, submit_place_order,
  get_accounts, get_positions, SchwabClient, Readers,
}
use portfolio_copilot.Json.{
  Json, str, integer, float, array, object, field, no_fields, item, no_items,
}
use portfolio_copilot.Schwab.Responses.{Response, check_response}
use portfolio_copilot.Schwab.Parsing.{parse_account}
use portfolio_copilot.Domain.Symbol.{equity}
use portfolio_copilot.Positions.Tables.{position_row, Tables}
use portfolio_copilot.Domain.Money.{Money}
use portfolio_copilot.Domain.Events.{DomainEvent}
use portfolio_copilot.Schwab.Mirrored.{schwab_refresh_mirrors, as_broker}
use portfolio_copilot.Positions.Rows.{reported, rows_at}
use portfolio_copilot.Positions.Mirror.{mirrored}

abbrev readers : Readers
readers = record { read_decimal = λ s. none; read_int = λ s. none }

abbrev answered : Json → Response
answered v = record { status_code = 200; retry_after = none; location = ""; json = some v }

abbrev refused : ℕ → Response
refused status = record { status_code = status; retry_after = none; location = ""; json = none }

abbrev numbers : Json
numbers = array (
    item (object (field "accountNumber" (str "54245456") (field "hashValue" (str "B14") no_fields)))
      no_items)

abbrev holding : Json → Json → Json
holding symbol kind = object (
    field "instrument" (object (field "symbol" symbol (field "assetType" kind no_fields))) (
      field "longQuantity" (float (record { int = pos 100; scale = 1 })) (
        field "averagePrice" (integer (pos 100))
          (field "marketValue" (integer (pos 1200)) no_fields))))

abbrev account : Json → Json
account positions = object (
    field "securitiesAccount"
      (object (
        field "accountNumber" (str "54245456")
          (field "type" (str "Margin") (field "positions" positions no_fields))))
      no_fields)

abbrev stock : Json
stock = account (array (item (holding (str "AAPL") (str "EQUITY")) no_items))

abbrev schwab : SchwabClient String
schwab = record {
  client = ok tt;
  get_account_numbers = answered numbers;
  get_accounts = answered (array (item stock no_items));
  get_account = λ hash. answered stock;
  get_orders_for_account = λ hash since until. refused 404;
  get_transactions = λ hash since until. refused 500;
  get_quote = λ ticker. refused 404;
  preview_order = λ hash spec. refused 401;
  place_order =
      λ hash spec. record (refused 201) { location = "https://api/accounts/B14/orders/123/" };
  cancel_order = λ hash id. refused 204;
}

abbrev usd_of : ℕ → Money
usd_of n = record { amount = record { int = pos (n * 10000); scale = 4 }; currency = "USD" }

abbrev ten_shares : Position
ten_shares = record {
  account_id = "B14";
  symbol = record { ticker = "AAPL"; asset_class = equity };
  quantity = record { int = pos 100; scale = 1 };
  average_cost = usd_of 100;
  market_value = usd_of 1200;
  unrealized_pnl = usd_of 200;
  as_of = 7;
}

abbrev linked : BrokerAccount
linked = record {
  account_id = "B14";
  nickname = "Margin ****5456";
  masked_schwab_id = "****5456";
  account_type = margin;
  margin_enabled = true;
  allowed_instruments = equity ∷ [];
}

-- A masked number is resolved, and the positions are filed under the hash.
by_masked_number :
    get_positions readers schwab 7 "5424-5456" [] ≡ (ok (ten_shares ∷ []), ("B14", "54245456") ∷ [])
unfolding portfolio_copilot.Prelude.Effect.◌>>=◌ portfolio_copilot.Schwab.Values.text_at
    portfolio_copilot.Schwab.Values.dict_or_self portfolio_copilot.Schwab.Values.dict_at
    portfolio_copilot.Schwab.Values.objects_at portfolio_copilot.Schwab.Values.objects
    portfolio_copilot.Schwab.Values.number portfolio_copilot.Schwab.Values.decimal
    portfolio_copilot.Schwab.Values.parse_money portfolio_copilot.Schwab.Values.parse_money_or_none
    portfolio_copilot.Schwab.Values.quantize_to_4dp portfolio_copilot.Prelude.Dict.get
    portfolio_copilot.Prelude.Dict.put portfolio_copilot.Schwab.Responses.resolve_account_hash
    portfolio_copilot.Schwab.Responses.add_hashes portfolio_copilot.Schwab.Responses.is_account
    portfolio_copilot.Schwab.Responses.json_of portfolio_copilot.Schwab.Responses.check_response
    portfolio_copilot.Prelude.Text.replace_char portfolio_copilot.Prelude.Text.upper
    portfolio_copilot.Prelude.Text.last_chars portfolio_copilot.Domain.Symbol.coerce_symbol
    portfolio_copilot.Domain.Symbol.make_symbol portfolio_copilot.Domain.Money.mul
    portfolio_copilot.Domain.Money.sub portfolio_copilot.Domain.Money.add
    portfolio_copilot.Domain.Money.make_money portfolio_copilot.Domain.Money.usd
    portfolio_copilot.Decimal.Number.abs portfolio_copilot.Decimal.Number.add
    portfolio_copilot.Decimal.Number.mul portfolio_copilot.Decimal.Number.shift
    portfolio_copilot.Decimal.Number.sub portfolio_copilot.Decimal.Rounding.quantize
    portfolio_copilot.Decimal.Rounding.round_half_even portfolio_copilot.Prelude.Int.◌*ℤ◌
    portfolio_copilot.Prelude.Int.◌+ℤ◌ portfolio_copilot.Prelude.Int.◌-ℤ◌
    portfolio_copilot.Schwab.Adapter.answer portfolio_copilot.Schwab.Adapter.ensure_account_hashes
    portfolio_copilot.Schwab.Adapter.get_account portfolio_copilot.Schwab.Adapter.resolved
    portfolio_copilot.Schwab.Adapter.get_positions
    portfolio_copilot.Schwab.Parsing.is_valid_position portfolio_copilot.Schwab.Parsing.market_total
    portfolio_copilot.Schwab.Parsing.parse_position portfolio_copilot.Schwab.Parsing.parse_positions
    portfolio_copilot.Schwab.Parsing.parse_symbol portfolio_copilot.Schwab.Parsing.parse_account
    portfolio_copilot.Decimal.Division.digit_count portfolio_copilot.Decimal.Division.in_context
by_masked_number = refl

listed : (get_accounts readers schwab 7 (("B14", "54245456") ∷ [])).0 ≡ ok (linked ∷ [])
unfolding get_accounts portfolio_copilot.Prelude.Effect.◌>>=◌
    portfolio_copilot.Schwab.Values.objects portfolio_copilot.Schwab.Values.dict_or_self
    portfolio_copilot.Prelude.Dict.get portfolio_copilot.Schwab.Values.text_at
    portfolio_copilot.Schwab.Parsing.parse_broker_account portfolio_copilot.Prelude.Text.upper
    portfolio_copilot.Prelude.Text.last_chars
listed = refl

answers :
    (submit_place_order readers schwab 7 "5456" "spec" (("B14", "54245456") ∷ [])
      ≡ (ok "123", ("B14", "54245456") ∷ []))
    × ((cancel_order readers schwab 7 "B14" "123" (("B14", "54245456") ∷ [])).0 ≡ ok true)
    × ((get_orders readers schwab 7 "9999" none (("B14", "54245456") ∷ [])).0
        ≡ err schwab_account_not_found)
    × ((preview_order readers schwab 7 "B14" "spec" []).0 ≡ err schwab_auth_error)
    × ((get_quote readers schwab 7 ten_shares.symbol []).0 ≡ err schwab_symbol_not_found)
    × ((stream_quotes readers schwab 7 (ten_shares.symbol ∷ []) []).0 ≡ ok [])
unfolding submit_place_order portfolio_copilot.Prelude.Effect.◌>>=◌
    portfolio_copilot.Schwab.Responses.resolve_account_hash portfolio_copilot.Prelude.Dict.get
    portfolio_copilot.Prelude.Text.replace_char portfolio_copilot.Prelude.Text.last_chars
    cancel_order get_orders preview_order portfolio_copilot.Schwab.Values.text_at
    portfolio_copilot.Prelude.Dict.put get_quote stream_quotes
answers = (refl, refl, refl, refl, refl, refl)

-- A Retry-After that is a date is no integer: the rate limit is reported as a ValueError.
retry_after_date :
    check_response readers.read_int
      (record (refused 429) { retry_after = some "Wed, 21 Oct 2026 07:28:00 GMT" })
    ≡ err value_error
unfolding check_response
retry_after_date = refl

-- An option whose symbol is padded with spaces is not coerced: the whole account fails to parse.
padded_option :
    parse_account readers.read_decimal 7 "B14"
      (("positions", array (item (holding (str "AAPL  240315C00080000") (str "OPTION")) no_items))
        ∷ [])
      none
    ≡ err invalid_option_symbol
unfolding parse_account portfolio_copilot.Schwab.Values.dict_or_self
    portfolio_copilot.Prelude.Dict.get portfolio_copilot.Schwab.Values.dict_at
    portfolio_copilot.Schwab.Values.objects_at portfolio_copilot.Schwab.Values.number
    portfolio_copilot.Schwab.Values.text_at portfolio_copilot.Prelude.Text.upper
    portfolio_copilot.Domain.Symbol.make_symbol
padded_option = refl

by_hash : (get_positions readers schwab 7 "B14" (("B14", "54245456") ∷ [])).0 ≡ ok (ten_shares ∷ [])
unfolding portfolio_copilot.Prelude.Effect.◌>>=◌ portfolio_copilot.Schwab.Values.text_at
    portfolio_copilot.Schwab.Values.dict_or_self portfolio_copilot.Schwab.Values.dict_at
    portfolio_copilot.Schwab.Values.objects_at portfolio_copilot.Schwab.Values.objects
    portfolio_copilot.Schwab.Values.number portfolio_copilot.Schwab.Values.decimal
    portfolio_copilot.Schwab.Values.parse_money portfolio_copilot.Schwab.Values.parse_money_or_none
    portfolio_copilot.Schwab.Values.quantize_to_4dp portfolio_copilot.Prelude.Dict.get
    portfolio_copilot.Prelude.Dict.put portfolio_copilot.Schwab.Responses.resolve_account_hash
    portfolio_copilot.Schwab.Responses.add_hashes portfolio_copilot.Schwab.Responses.is_account
    portfolio_copilot.Schwab.Responses.json_of portfolio_copilot.Schwab.Responses.check_response
    portfolio_copilot.Prelude.Text.replace_char portfolio_copilot.Prelude.Text.upper
    portfolio_copilot.Prelude.Text.last_chars portfolio_copilot.Domain.Symbol.coerce_symbol
    portfolio_copilot.Domain.Symbol.make_symbol portfolio_copilot.Domain.Money.mul
    portfolio_copilot.Domain.Money.sub portfolio_copilot.Domain.Money.add
    portfolio_copilot.Domain.Money.make_money portfolio_copilot.Domain.Money.usd
    portfolio_copilot.Decimal.Number.abs portfolio_copilot.Decimal.Number.add
    portfolio_copilot.Decimal.Number.mul portfolio_copilot.Decimal.Number.shift
    portfolio_copilot.Decimal.Number.sub portfolio_copilot.Decimal.Rounding.quantize
    portfolio_copilot.Decimal.Rounding.round_half_even portfolio_copilot.Prelude.Int.◌*ℤ◌
    portfolio_copilot.Prelude.Int.◌+ℤ◌ portfolio_copilot.Prelude.Int.◌-ℤ◌
    portfolio_copilot.Schwab.Adapter.answer portfolio_copilot.Schwab.Adapter.ensure_account_hashes
    portfolio_copilot.Schwab.Adapter.get_account portfolio_copilot.Schwab.Adapter.resolved
    portfolio_copilot.Schwab.Adapter.get_positions
    portfolio_copilot.Schwab.Parsing.is_valid_position portfolio_copilot.Schwab.Parsing.market_total
    portfolio_copilot.Schwab.Parsing.parse_position portfolio_copilot.Schwab.Parsing.parse_positions
    portfolio_copilot.Schwab.Parsing.parse_symbol portfolio_copilot.Schwab.Parsing.parse_account
    portfolio_copilot.Decimal.Division.digit_count portfolio_copilot.Decimal.Division.in_context
by_hash = refl

abbrev command : RefreshPositionsCommand
command = record { account_id = "B14"; correlation_id = 1; actor = "api" }

abbrev no_tables : Tables
no_tables = record { accounts = []; positions = [] }

schwab_refresh_mirrors_example :
    (r : Tables × List DomainEvent × RefreshPositionsResult) × (execute command
        (as_broker readers schwab 7 (("B14", "54245456") ∷ []))
        9
        no_tables
      ≡ ok r)
    × ((a b : String)
        → rows_at a b r.0.positions ≡ (
            if str_eq "B14" a
            then mirrored 9 (reported b (ten_shares ∷ []))
            else rows_at a b no_tables.positions))
unfolding portfolio_copilot.Prelude.Dict.get portfolio_copilot.Positions.Tables.load_local_positions
schwab_refresh_mirrors_example =
    schwab_refresh_mirrors readers schwab 7 command ("B14", "54245456") [] 9 no_tables (linked ∷ [])
      (ten_shares ∷ []) [] refl listed refl by_hash refl
