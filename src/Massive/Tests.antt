-- ===== src/Massive/Tests.antt =====
-- Runs of the Massive client.
use portfolio_copilot.Decimal
use portfolio_copilot.Json.{
  Json, str, integer, null, array, object, field, no_fields, item, no_items,
}
use portfolio_copilot.Prelude.Int.{pos}
use portfolio_copilot.Domain.Symbol.{Symbol, equity}
use portfolio_copilot.Domain.Portfolio.{Quote}
use portfolio_copilot.Massive.Priced.{IsPriced, get_quotes-IsPriced}
use portfolio_copilot.Massive.Client.{
  search_tickers, Answer, Service, response, network_error, get_quote, get_quotes, get_bars,
  get_vix,
}
use portfolio_copilot.Prelude.{
  All, str_eq, refl, massive_rate_limit_error, value_error, key_error, err, ok, if◌then◌else◌,
  Option, [], some, ◌≡◌, none, String, ℕ, ◌∷◌,
}
use portfolio_copilot.Decimal.Number.{Decimal}

abbrev no_text : String → Option Decimal
no_text s = none

abbrev stock : String → Symbol
stock t = record { ticker = t; asset_class = equity }

abbrev prev_answer : ℕ → Answer
prev_answer close = response 200 (
    some (
      object (
        field "results" (array (item (object (field "c" (integer (pos close)) no_fields)) no_items))
          no_fields)))

-- A ticker of a snapshot whose day closed at a price.
abbrev ticker_item : String → ℕ → Json
ticker_item t close = object (
    field "ticker" (str t) (
      field "lastQuote" null (
        field "day"
          (object (field "c" (integer (pos close)) (field "t" (integer (pos 5000)) no_fields)))
          no_fields)))

abbrev closed_snapshot : Answer
closed_snapshot = response 200 (
    some (
      object (
        field "tickers"
          (array (item (ticker_item "MSFT" 300) (item (ticker_item "AAPL" 0) no_items)))
          no_fields)))

abbrev service : Answer → Service
service snapshot = record {
  ticker_snapshot = λ t. response 404 none;
  snapshot = λ ts. snapshot;
  prev = λ t. if str_eq t "AAPL" then prev_answer 150 else response 403 none;
  option_chain = λ t e. network_error;
  search = λ q n. response 200 (some (object (field "results" (array no_items) no_fields)));
  aggregates = λ t m span start to. network_error;
}

abbrev quote_at : String → ℕ → ℕ → Quote
quote_at t price time = record {
  symbol = stock t;
  bid = Decimal.of_ℕ price;
  ask = Decimal.of_ℕ price;
  last = Decimal.of_ℕ price;
  timestamp = time;
  volume = none;
}

-- A price of zero in the snapshot is replaced by the previous close.
gap_filled :
    get_quotes no_text (service closed_snapshot) 9 (stock "AAPL" ∷ stock "MSFT" ∷ [])
    ≡ ok (quote_at "MSFT" 300 5 ∷ quote_at "AAPL" 150 9 ∷ [])
unfolding get_quotes portfolio_copilot.Massive.Parsing.parse_snapshot_quotes
    portfolio_copilot.Massive.Parsing.sequence portfolio_copilot.Prelude.Dict.get
    portfolio_copilot.Massive.Parsing.mapping portfolio_copilot.Massive.Parsing.string
    portfolio_copilot.Prelude.Dict.put portfolio_copilot.Massive.Parsing.optional_mapping
    portfolio_copilot.Prelude.Dict.values portfolio_copilot.Schwab.Values.decimal
gap_filled = refl

-- Without access to the snapshot, the previous closes that there are.
fanned_out :
    get_quotes no_text (service (response 403 none)) 9 (stock "AAPL" ∷ stock "MSFT" ∷ [])
    ≡ ok (quote_at "AAPL" 150 9 ∷ [])
unfolding get_quotes portfolio_copilot.Prelude.Dict.get portfolio_copilot.Schwab.Values.decimal
fanned_out = refl

rate_limited :
    get_quotes no_text (service (response 429 none)) 9 (stock "AAPL" ∷ [])
    ≡ err massive_rate_limit_error
unfolding get_quotes
rate_limited = refl

missing_quote : get_quote no_text (service network_error) 9 (stock "AAPL") ≡ err key_error
unfolding get_quote
missing_quote = refl

unsupported_timeframe :
    get_bars no_text (service network_error) 9 (stock "AAPL") "2m" 0 none ≡ err value_error
unfolding get_bars portfolio_copilot.Massive.Parsing.timeframe_to_massive
    portfolio_copilot.Prelude.Dict.get
unsupported_timeframe = refl

unknown_vix : get_vix no_text (service network_error) 9 ≡ ok (Decimal.of_ℕ 0)
unfolding get_vix
unknown_vix = refl

get_quotes-IsPriced_example : All IsPriced (quote_at "MSFT" 300 5 ∷ quote_at "AAPL" 150 9 ∷ [])
get_quotes-IsPriced_example =
    get_quotes-IsPriced no_text (service closed_snapshot) 9 (stock "AAPL" ∷ stock "MSFT" ∷ [])
      gap_filled

no_limit : search_tickers no_text (service network_error) 9 "A" 0 ≡ err value_error
unfolding search_tickers
no_limit = refl

nothing_found : search_tickers no_text (service network_error) 9 "A" 5 ≡ ok []
unfolding search_tickers portfolio_copilot.Prelude.Dict.get
nothing_found = refl
