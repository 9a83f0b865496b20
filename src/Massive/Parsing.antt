-- ===== src/Massive/Parsing.antt =====
-- adapters/massive/parsing.py. Numbers with a fraction come as decimals, since the client reads them so.
-- Times and volumes are not negative, and a time is in microseconds.
use portfolio_copilot.Prelude.{
  ltb, ◌/◌, ◌+◌, value_error, invalid_operation, type_error, Result, if◌then◌else◌, List, ◌*◌,
  String, Option, ℕ, ok, err, none, some, [], ◌∷◌, ◌>>=◌,
}
use portfolio_copilot.Prelude.Dict
use portfolio_copilot.Prelude.Dict.{Dict}
use portfolio_copilot.Decimal
use portfolio_copilot.Decimal.{Decimal}
use portfolio_copilot.Domain.Symbol.{make_symbol, Symbol, equity}
use portfolio_copilot.Domain.Portfolio.{Quote}
use portfolio_copilot.Json.{boolean, fields, items, Json, null, str, integer, float, array, object}
use portfolio_copilot.Prelude.Int.{pos_part}

pub record Bar : Type 0 where
  pub symbol : Symbol
  pub open_price : Decimal
  pub high_price : Decimal
  pub low_price : Decimal
  pub close_price : Decimal
  pub volume : ℕ
  pub opened_at : ℕ
  pub closed_at : ℕ
  pub timeframe : String
  pub vwap : Option Decimal

abbrev minute : ℕ
minute = 60000000

-- `_TIMEFRAME_PARTS`: the multiplier, the span and the duration of a bar.
abbrev timeframe_parts : Dict (ℕ × String × ℕ)
timeframe_parts =
    ("1m", (1, "minute", minute))
    ∷ ("5m", (5, "minute", 5 * minute))
    ∷ ("15m", (15, "minute", 15 * minute))
    ∷ ("30m", (30, "minute", 30 * minute))
    ∷ ("1h", (1, "hour", 60 * minute))
    ∷ ("4h", (4, "hour", 240 * minute))
    ∷ ("1d", (1, "day", 1440 * minute))
    ∷ ("1w", (1, "week", 10080 * minute))
    ∷ []

unfoldable pub timeframe_to_massive : String → Result (ℕ × String × ℕ)
timeframe_to_massive timeframe = elim (Dict.get timeframe timeframe_parts) [
  | some p ↦ ok p
  | none ↦ err value_error
]

-- `_mapping`, where a missing key is `None`
unfoldable pub mapping : Option Json → Result (Dict Json)
mapping (some (object fs)) = ok (fields fs)
mapping v = err type_error

-- `_optional_mapping`
unfoldable pub optional_mapping : Option Json → Result (Option (Dict Json))
optional_mapping none = ok none
optional_mapping (some null) = ok none
optional_mapping (some (object fs)) = ok (some (fields fs))
optional_mapping v = err type_error

-- `_sequence`
unfoldable pub sequence : Option Json → Result (List Json)
sequence (some (array vs)) = ok (items vs)
sequence v = err type_error

-- `_str`
unfoldable pub string : Option Json → Result String
string (some (str s)) = ok s
string v = err type_error

-- `dict(_mapping(item))` of each item
unfoldable pub mappings : List Json → Result (List (Dict Json))
unfolding mapping
mappings [] = ok []
mappings (v ∷ vs) = do d ← mapping (some v); ds ← mappings vs; ok (d ∷ ds)

unfoldable pub parse_ticker_results : Dict Json → Result (List (Dict Json))
unfolding mappings sequence
parse_ticker_results payload = sequence (Dict.get "results" payload) >>= mappings

module _ (read : String → Option Decimal) where
  abbrev read_text : String → Result Decimal
  read_text s = elim (read s) [ some d ↦ ok d | none ↦ err invalid_operation ]

  -- `_decimal`
  unfoldable pub decimal : Option Json → Result Decimal
  decimal none = err value_error
  decimal (some null) = err value_error
  decimal (some (float d)) = ok d
  decimal (some (integer z)) = ok (Decimal.of_ℤ z)
  decimal (some (str s)) = read_text s
  decimal (some (boolean b)) = err invalid_operation
  decimal (some v) = err type_error

  unfoldable pub optional_decimal : Option Json → Result (Option Decimal)
  unfolding decimal
  optional_decimal none = ok none
  optional_decimal (some null) = ok none
  optional_decimal v = decimal v >>= λ d. ok (some d)

  abbrev whole : Decimal → ℕ
  whole d = pos_part (Decimal.to_int d)

  -- `_int`
  unfoldable pub int : Option Json → Result ℕ
  int none = err value_error
  int (some null) = err value_error
  int (some (boolean b)) = err value_error
  int (some (integer z)) = ok (pos_part z)
  int (some (float d)) = ok (whole d)
  int (some (str s)) = read_text s >>= λ d. ok (whole d)
  int (some v) = err type_error

  unfoldable pub optional_int : Option Json → Result (Option ℕ)
  unfolding int
  optional_int none = ok none
  optional_int (some null) = ok none
  optional_int v = int v >>= λ n. ok (some n)

  -- The prices and the time of a snapshot, before the time of the trade.
  pub record Prices : Type 0 where
    pub bid : Decimal
    pub ask : Decimal
    pub last : Decimal
    pub timestamp_ns : Option ℕ

  last_or_mid : Option (Dict Json) → Decimal → Decimal → Result Decimal
  unfolding decimal
  last_or_mid (some trade) bid ask = decimal (Dict.get "p" trade)
  last_or_mid none bid ask = Decimal.div (Decimal.add bid ask) (Decimal.of_ℕ 2)

  -- Without a quote the close of the day is taken.
  prices_of : Option (Dict Json) → Option (Dict Json) → Option (Dict Json) → Result Prices
  unfolding decimal optional_int last_or_mid
  prices_of (some quote) trade day = do
    bid ← decimal (Dict.get "p" quote)
    ask ← decimal (Dict.get "P" quote)
    last ← last_or_mid trade bid ask
    t ← optional_int (Dict.get "t" quote)
    ok (record { bid = bid; ask = ask; last = last; timestamp_ns = t })
  prices_of none trade (some day) = do
    close ← decimal (Dict.get "c" day)
    t ← optional_int (Dict.get "t" day)
    ok (record { bid = close; ask = close; last = close; timestamp_ns = t })
  prices_of none trade none = err type_error

  abbrev later : Option ℕ → Option ℕ → Option ℕ
  later none t = t
  later (some n) none = some n
  later (some n) (some m) = if ltb m n then some n else some m

  trade_time : Option (Dict Json) → Option ℕ → Result (Option ℕ)
  unfolding optional_int
  trade_time none t = ok t
  trade_time (some trade) t = optional_int (Dict.get "t" trade) >>= λ n. ok (later n t)

  or_updated : Option ℕ → Option Json → Result ℕ
  unfolding int
  or_updated (some n) updated = ok n
  or_updated none updated = int updated

  volume_of : Option (Dict Json) → Result (Option ℕ)
  unfolding optional_int
  volume_of none = ok none
  volume_of (some day) = optional_int (Dict.get "v" day)

  symbol_for : Option Symbol → String → Result Symbol
  symbol_for (some s) ticker = ok s
  symbol_for none ticker = make_symbol ticker equity

  unfoldable pub parse_snapshot_ticker : Dict Json → Option Symbol → Result Quote
  unfolding prices_of trade_time or_updated volume_of symbol_for
  parse_snapshot_ticker payload symbol = do
    ticker ← string (Dict.get "ticker" payload)
    quote_symbol ← symbol_for symbol ticker
    quote ← optional_mapping (Dict.get "lastQuote" payload)
    trade ← optional_mapping (Dict.get "lastTrade" payload)
    day ← optional_mapping (Dict.get "day" payload)
    p ← prices_of quote trade day
    t ← trade_time trade p.timestamp_ns
    ns ← or_updated t (Dict.get "updated" payload)
    volume ← volume_of day
    ok (record {
      symbol = quote_symbol;
      bid = p.bid;
      ask = p.ask;
      last = p.last;
      timestamp = ns / 1000;
      volume = volume;
    })

  unfoldable pub parse_quote_snapshot : Dict Json → Symbol → Result Quote
  unfolding parse_snapshot_ticker
  parse_quote_snapshot payload symbol = do
    ticker ← mapping (Dict.get "ticker" payload)
    parse_snapshot_ticker ticker (some symbol)

  -- `{symbol.ticker: symbol for symbol in symbols}`, from a dict on.
  abbrev symbols_by_ticker : List Symbol → Dict Symbol → Dict Symbol
  symbols_by_ticker [] d = d
  symbols_by_ticker (s ∷ ss) d = symbols_by_ticker ss (Dict.put s.ticker s d)

  -- The items of a snapshot whose tickers were asked for.
  snapshot_items : Dict Symbol → List Json → Result (List Quote)
  unfolding parse_snapshot_ticker
  snapshot_items wanted [] = ok []
  snapshot_items wanted (v ∷ vs) =
      let rest = snapshot_items wanted vs in
      do
        item ← mapping (some v)
        ticker ← string (Dict.get "ticker" item)
        elim (Dict.get ticker wanted) [
          | none ↦ rest
          | some s ↦ (do q ← parse_snapshot_ticker item (some s); more ← rest; ok (q ∷ more))
        ]

  unfoldable pub parse_snapshot_quotes : Dict Json → List Symbol → Result (List Quote)
  unfolding snapshot_items
  parse_snapshot_quotes payload symbols = do
    tickers ← sequence (Dict.get "tickers" payload)
    snapshot_items (symbols_by_ticker symbols []) tickers

  parse_bar : Symbol → String → ℕ → Json → Result Bar
  unfolding decimal int optional_decimal
  parse_bar symbol timeframe duration row = do
    item ← mapping (some row)
    t ← int (Dict.get "t" item)
    open_value ← decimal (Dict.get "o" item)
    high ← decimal (Dict.get "h" item)
    low ← decimal (Dict.get "l" item)
    close ← decimal (Dict.get "c" item)
    volume ← int (Dict.get "v" item)
    vwap ← optional_decimal (Dict.get "vw" item)
    ok (record {
      symbol = symbol;
      open_price = open_value;
      high_price = high;
      low_price = low;
      close_price = close;
      volume = volume;
      opened_at = t * 1000;
      closed_at = t * 1000 + duration;
      timeframe = timeframe;
      vwap = vwap;
    })

  bars : Symbol → String → ℕ → List Json → Result (List Bar)
  unfolding parse_bar
  bars symbol timeframe duration [] = ok []
  bars symbol timeframe duration (v ∷ vs) = do
    bar ← parse_bar symbol timeframe duration v
    more ← bars symbol timeframe duration vs
    ok (bar ∷ more)

  -- `payload.get("results", ())`
  abbrev results_or_none : Option Json → Result (List Json)
  results_or_none none = ok []
  results_or_none v = sequence v

  unfoldable pub parse_bars : Dict Json → Symbol → String → Result (List Bar)
  unfolding bars
  parse_bars payload symbol timeframe = do
    parts ← timeframe_to_massive timeframe
    rows ← results_or_none (Dict.get "results" payload)
    bars symbol timeframe parts.2 rows
