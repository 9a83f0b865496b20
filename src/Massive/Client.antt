-- ===== src/Massive/Client.antt =====
-- adapters/massive/client.py: quotes, bars, options, the ticker search and the VIX. `get` is the answer of the service to a path;
-- the fundamentals are left out. The volume of a previous day is a number.
use portfolio_copilot.Prelude.{
  ltb, leb, massive_rate_limit_error, ◌/◌, not, ◌||◌, ◌==◌, select, massive_auth_error, type_error,
  if◌then◌else◌, key_error, value_error, massive_error, List, Option, Result, ℕ, String, ok, err,
  none, some, [], ◌∷◌, ◌>>=◌,
}
use portfolio_copilot.Prelude.Dict
use portfolio_copilot.Prelude.Dict.{Dict}
use portfolio_copilot.Decimal
use portfolio_copilot.Decimal.{Decimal}
use portfolio_copilot.Domain.Symbol.{Symbol}
use portfolio_copilot.Domain.Portfolio.{Quote}
use portfolio_copilot.Json.{no_fields, str, item, fields, Json, object, array}
use portfolio_copilot.Schwab.Values.{number, is_truthy, or_zero, decimal}
use portfolio_copilot.Massive.Parsing.{
  parse_ticker_results, parse_bars, timeframe_to_massive, Bar, parse_snapshot_quotes,
  parse_quote_snapshot,
}
use portfolio_copilot.Prelude.Int.{pos_part}

-- The answer of `httpx`: its text read by `json.loads`, with `none` for text that is no JSON.
pub data Answer : Type 0 where
  network_error : Answer
  response : (status_code : ℕ) (json : Option Json) → Answer

-- A JSON object, or the exception of `_get`.
loaded : Option Json → Result (Dict Json)
loaded none = err value_error
loaded (some (object fs)) = ok (fields fs)
loaded (some v) = err (massive_error none)

-- `_get`
unfoldable pub get_object : Answer → Result (Dict Json)
unfolding loaded
get_object network_error = err (massive_error none)
get_object (response status json) =
    if status == 401 || status == 403
    then err massive_auth_error
    else if status == 429
    then err massive_rate_limit_error
    else if leb 400 status
    then err (massive_error (some status))
    else loaded json

-- The endpoints of the service.
pub record Service : Type 0 where
  pub ticker_snapshot : String → Answer
  pub snapshot : List String → Answer
  pub prev : String → Answer
  pub option_chain : String → Option ℕ → Answer
  pub search : String → ℕ → Answer
  pub aggregates : String → ℕ → String → ℕ → ℕ → Answer

-- `results[0]` of an answer, if it is an object. The first item of a text is a text.
unfoldable pub first_result : Option Json → Result (Option (Dict Json))
first_result none = ok none
first_result (some (array (item (object fs) vs))) = ok (some (fields fs))
first_result (some (array vs)) = ok none
first_result (some (str s)) = ok none
first_result (some (object no_fields)) = ok none
first_result (some (object fs)) = err key_error
first_result (some v) = if is_truthy v then err type_error else ok none

-- A missing quote is a KeyError; other exceptions of the request go on.
as_missing : Result (Dict Json) → Result (Dict Json)
as_missing (ok d) = ok d
as_missing (err (massive_error (some status))) =
    if status == 404 then err key_error else err (massive_error (some status))
as_missing (err e) = err e

as_unparsed : Result Quote → Result Quote
as_unparsed (ok q) = ok q
as_unparsed (err type_error) = err key_error
as_unparsed (err value_error) = err key_error
as_unparsed (err e) = err e

module _ (read : String → Option Decimal) (service : Service) (now : ℕ) where
  unfoldable pub get_quote : Symbol → Result Quote
  unfolding get_object as_missing as_unparsed
  get_quote symbol = do
    payload ← as_missing (get_object (service.ticker_snapshot symbol.ticker))
    as_unparsed (parse_quote_snapshot read payload symbol)

  -- `Decimal(str(r.get("c", 0)))`
  abbrev close_of : Dict Json → Result Decimal
  close_of r = decimal read (or_zero (Dict.get "c" r))

  unfoldable pub unless_zero : Symbol → Decimal → Option ℕ → Option Quote
  unless_zero symbol close volume =
      if Decimal.same_value close (Decimal.of_ℕ 0)
      then none
      else some (record {
        symbol = symbol;
        bid = close;
        ask = close;
        last = close;
        timestamp = now;
        volume = volume;
      })

  -- `int(v) if v else None`
  abbrev pub prev_volume : Option Json → Result (Option ℕ)
  prev_volume none = ok none
  prev_volume (some v) =
      if is_truthy v then (number v >>= λ n. ok (some (pos_part (Decimal.to_int n)))) else ok none

  unfoldable pub prev_quote : Symbol → Option (Dict Json) → Result (Option Quote)
  unfolding unless_zero
  prev_quote symbol none = ok none
  prev_quote symbol (some r) = do
    close ← close_of r
    volume ← prev_volume (Dict.get "v" r)
    ok (unless_zero symbol close volume)

  -- `_fetch_prev`. What it does not catch is dropped by the caller, as what it catches is.
  unfoldable pub fetch_prev : Symbol → Result (Option Quote)
  unfolding get_object first_result prev_quote
  fetch_prev symbol = do
    payload ← get_object (service.prev symbol.ticker)
    r ← first_result (Dict.get "results" payload)
    prev_quote symbol r

  abbrev pub add_quote : Result (Option Quote) → List Quote → List Quote
  add_quote (err e) qs = qs
  add_quote (ok none) qs = qs
  add_quote (ok (some q)) qs = q ∷ qs

  -- `_fan_out_prev_quotes`: the quotes that there are, in the order of the symbols. The batches of
  -- five only bound what runs at once.
  unfoldable pub fan_out_prev_quotes : List Symbol → List Quote
  unfolding fetch_prev
  fan_out_prev_quotes [] = []
  fan_out_prev_quotes (s ∷ ss) = add_quote (fetch_prev s) (fan_out_prev_quotes ss)

  abbrev pub put_quote : Quote → Dict Quote → Dict Quote
  put_quote q d = Dict.put q.symbol.ticker q d

  -- `{q.symbol.ticker: q for q in snapshot if q.last and q.last > 0}`, from a dict on.
  unfoldable pub keep_priced : List Quote → Dict Quote → Dict Quote
  keep_priced [] d = d
  keep_priced (q ∷ qs) d = keep_priced qs (if Decimal.is_pos q.last then put_quote q d else d)

  unfoldable pub put_all : List Quote → Dict Quote → Dict Quote
  put_all [] d = d
  put_all (q ∷ qs) d = put_all qs (put_quote q d)

  unfoldable pub tickers_of : List Symbol → List String
  tickers_of [] = []
  tickers_of (s ∷ ss) = s.ticker ∷ tickers_of ss

  -- The symbols without an entry.
  abbrev pub gaps : List Symbol → Dict Quote → List Symbol
  gaps symbols d = select (λ (s : Symbol). not (Dict.contains s.ticker d)) symbols

  -- The snapshot's prices, and the previous close for the symbols without one.
  unfoldable pub fill_gaps : List Symbol → List Quote → List Quote
  unfolding keep_priced put_all fan_out_prev_quotes
  fill_gaps symbols snapshot =
      let by_ticker = keep_priced snapshot [] in
      Dict.values (put_all (fan_out_prev_quotes (gaps symbols by_ticker)) by_ticker)

  unfoldable pub or_fan_out : List Symbol → Result (List Quote) → Result (List Quote)
  unfolding fill_gaps
  or_fan_out symbols (ok snapshot) = ok (fill_gaps symbols snapshot)
  or_fan_out symbols (err massive_auth_error) = ok (fan_out_prev_quotes symbols)
  or_fan_out symbols (err e) = err e

  unfoldable pub get_quotes : List Symbol → Result (List Quote)
  unfolding get_object tickers_of or_fan_out
  get_quotes [] = ok []
  get_quotes (s ∷ ss) = or_fan_out (s ∷ ss) (do
    payload ← get_object (service.snapshot (tickers_of (s ∷ ss)))
    parse_snapshot_quotes read payload (s ∷ ss))

  abbrev or_now : Option ℕ → ℕ
  or_now none = now
  or_now (some t) = t

  unfoldable pub get_bars : Symbol → String → ℕ → Option ℕ → Result (List Bar)
  unfolding get_object
  get_bars symbol timeframe start until = do
    (multiplier, timespan, duration) ← timeframe_to_massive timeframe
    payload ←
        get_object (
          service.aggregates symbol.ticker multiplier timespan (start / 1000) (or_now until / 1000))
    parse_bars read payload symbol timeframe

  vix_of : Option (Dict Json) → Result Decimal
  vix_of none = ok (Decimal.of_ℕ 0)
  vix_of (some r) = close_of r

  or_unknown : Result (Dict Json) → Result Decimal
  unfolding first_result vix_of
  or_unknown (err massive_auth_error) = ok (Decimal.of_ℕ 0)
  or_unknown (err e) = err e
  or_unknown (ok payload) = first_result (Dict.get "results" payload) >>= vix_of

  -- Zero stands for a regime that is not known.
  unfoldable pub get_vix : Result Decimal
  unfolding get_object or_unknown
  get_vix = or_unknown (get_object (service.prev "I:VIX"))

  unfoldable pub get_option_chain : Symbol → Option ℕ → Result (Dict Json)
  unfolding get_object
  get_option_chain underlying expiration =
      get_object (service.option_chain underlying.ticker expiration)

  -- A limit from 1 on; at most 1000 results are asked for.
  unfoldable pub search_tickers : String → ℕ → Result (List (Dict Json))
  unfolding get_object parse_ticker_results
  search_tickers query limit =
      if ltb limit 1
      then err value_error
      else (get_object (service.search query (if ltb limit 1000 then limit else 1000))
          >>= parse_ticker_results)
