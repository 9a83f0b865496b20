-- ===== src/Schwab/Adapter.antt =====
-- adapters/schwab/broker.py. The state is the cache of account hashes. The client of schwab-py is the
-- record of its answers; tokens, threads and the construction of the client are in `client`, which is
-- `ok` or the exception of `_get_client`.
use portfolio_copilot.Prelude.{
  schwab_error, ◌||◌, raise_if, ◌==◌, schwab_symbol_not_found, Bool, Option, Exec, List, String,
  Result, ℕ, ok, err, some, [], ◌∷◌,
}
use portfolio_copilot.Prelude.Effect.{◌>>◌, lift, pure, ◌>>=◌}
use portfolio_copilot.Prelude.Dict.{Dict}
use portfolio_copilot.Domain.Symbol.{Symbol}
use portfolio_copilot.Domain.Portfolio.{Account, Position, Quote, BrokerAccount}
use portfolio_copilot.Json.{Json}
use portfolio_copilot.Schwab.Responses.{
  items_of, as_dict, list_or_empty, Hashes, json_of, extract_order_id, resolve_account_hash,
  transaction_window, linked_accounts, add_hashes, order_window, Response, check_response,
}
use portfolio_copilot.Decimal.Number.{Decimal}
use portfolio_copilot.Schwab.Parsing.{parse_quote, parse_account}
use portfolio_copilot.Schwab.Values.{objects}
use portfolio_copilot.Prelude.Text.{is_blank}

pub record SchwabClient (Spec : Type 0) : Type 0 where
  pub client : Result (Unit {0})
  pub get_account_numbers : Response
  pub get_accounts : Response
  pub get_account : String → Response
  pub get_orders_for_account : String → ℕ → ℕ → Response
  pub get_transactions : String → ℕ → ℕ → Response
  pub get_quote : String → Response
  pub preview_order : String → Spec → Response
  pub place_order : String → Spec → Response
  pub cancel_order : String → String → Response

-- Library code: `Decimal` and `int` of a text, whose failures are InvalidOperation and ValueError.
pub record Readers : Type 0 where
  pub read_decimal : String → Option Decimal
  pub read_int : String → Option ℕ

module _ {Spec : Type 0} (lib : Readers) (schwab : SchwabClient Spec) (now : ℕ) where
  -- A response that is checked and read.
  unfoldable pub answer : Response → Exec Hashes Json
  unfolding check_response json_of
  answer r = do lift (check_response lib.read_int r); lift (json_of r)

  unfoldable pub ensure_account_hashes : Exec Hashes (Unit {0})
  unfolding answer add_hashes
  ensure_account_hashes [] =
      let fetch : Exec Hashes (Unit {0}) = (do
        lift schwab.client
        payload ← answer schwab.get_account_numbers
        vs ← lift (items_of payload)
        add_hashes vs) in
      fetch []
  ensure_account_hashes (h ∷ s) = (ok tt, h ∷ s)

  -- The account that a request is about, and the client.
  unfoldable pub resolved : String → Exec Hashes String
  unfolding ensure_account_hashes
  resolved id = do
    ensure_account_hashes
    hash ← λ s. (resolve_account_hash id s, s)
    lift schwab.client
    pure hash

  unfoldable pub get_accounts : Exec Hashes (List BrokerAccount)
  unfolding ensure_account_hashes answer linked_accounts
  get_accounts = do
    ensure_account_hashes
    lift schwab.client
    payload ← answer schwab.get_accounts
    vs ← lift (items_of payload)
    ds ← lift (objects vs)
    λ s. (linked_accounts s ds, s)

  unfoldable pub get_account : String → Exec Hashes Account
  unfolding resolved answer
  get_account id = do
    hash ← resolved id
    payload ← answer (schwab.get_account hash)
    d ← lift (as_dict payload)
    lift (parse_account lib.read_decimal now hash d (some now))

  unfoldable pub get_positions : String → Exec Hashes (List Position)
  unfolding get_account
  get_positions id = do account ← get_account id; pure account.positions

  unfoldable pub get_orders : String → Option ℕ → Exec Hashes (List Json)
  unfolding resolved answer order_window
  get_orders id since = do
    hash ← resolved id
    payload ← answer (schwab.get_orders_for_account hash (order_window now since) now)
    pure (list_or_empty payload)

  unfoldable pub get_transactions : String → Option ℕ → Exec Hashes (List Json)
  unfolding resolved answer transaction_window
  get_transactions id since = do
    hash ← resolved id
    payload ← answer (schwab.get_transactions hash (transaction_window now since) now)
    pure (list_or_empty payload)

  unfoldable pub get_quote : Symbol → Exec Hashes Quote
  unfolding answer
  get_quote symbol = do
    lift schwab.client
    lift (raise_if ((schwab.get_quote symbol.ticker).status_code == 404) schwab_symbol_not_found)
    payload ← answer (schwab.get_quote symbol.ticker)
    d ← lift (as_dict payload)
    lift (parse_quote lib.read_decimal now symbol d (some now))

  unfoldable pub preview_order : String → Spec → Exec Hashes (Dict Json)
  unfolding resolved answer
  preview_order id spec = do
    hash ← resolved id
    payload ← answer (schwab.preview_order hash spec)
    lift (as_dict payload)

  -- The order is placed by the time that an empty identifier raises.
  unfoldable pub submit_place_order : String → Spec → Exec Hashes String
  unfolding resolved check_response extract_order_id
  submit_place_order id spec = do
    hash ← resolved id
    let r = schwab.place_order hash spec
    lift (check_response lib.read_int r)
    lift (raise_if (is_blank (extract_order_id r)) schwab_error)
    pure (extract_order_id r)

  unfoldable pub cancel_order : String → String → Exec Hashes Bool
  unfolding resolved check_response
  cancel_order id broker_order_id = do
    hash ← resolved id
    let r = schwab.cancel_order hash broker_order_id
    lift (check_response lib.read_int r)
    pure (r.status_code == 200 || r.status_code == 202 || r.status_code == 204)

  -- A turn of the loop of `_stream_quotes_impl`: an unknown symbol is passed over, any other
  -- exception ends the stream.
  stream_one : Result Quote → Exec Hashes (List Quote) → Exec Hashes (List Quote)
  stream_one (ok q) rest = do more ← rest; pure (q ∷ more)
  stream_one (err schwab_symbol_not_found) rest = rest
  stream_one (err e) rest = lift (err e)

  unfoldable pub stream_quotes : List Symbol → Exec Hashes (List Quote)
  unfolding get_quote stream_one
  stream_quotes [] s = (ok [], s)
  stream_quotes (symbol ∷ symbols) s =
      let (r, s₁) = get_quote symbol s in stream_one r (stream_quotes symbols) s₁
