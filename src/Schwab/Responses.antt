-- ===== src/Schwab/Responses.antt =====
-- The parts of adapters/schwab/broker.py that read a response or the cache of account hashes.
use Prim.Native.Char.{code}
use Prim.Native.String.{String}
use portfolio_copilot.Prelude.{
  codes, schwab_error, ◌/◌, length, leb, ltb, type_error, schwab_auth_error,
  schwab_rate_limit_error, ◌&&◌, str_eq, ◌*◌, schwab_account_not_found, ◌-◌, value_error, ◌||◌,
  Exec, Error, List, Result, Bool, Option, ◌==◌, if◌then◌else◌, ℕ, ok, err, none, some, true, false,
  [], ◌∷◌, ◌>>=◌,
}
use portfolio_copilot.Prelude.Dict
use portfolio_copilot.Prelude.Dict.{Dict}
use portfolio_copilot.Domain.Portfolio.{BrokerAccount}
use portfolio_copilot.Json.{fields, items, Json, object, array}
use portfolio_copilot.Prelude.Text.{last_chars, is_blank, replace_char}
use portfolio_copilot.Schwab.Values.{text_at, dict_or_self}
use portfolio_copilot.Schwab.Parsing.{parse_broker_account}

pub record Response : Type 0 where
  pub status_code : ℕ
  pub retry_after : Option String
  pub location : String
  pub json : Option Json

abbrev pub Hashes : Type 0
Hashes = Dict String

-- `int(retry_after) if retry_after else None`
rate_limit_error : (String → Option ℕ) → Option String → Error
rate_limit_error read_int none = schwab_rate_limit_error none
rate_limit_error read_int (some t) =
    if is_blank t
    then schwab_rate_limit_error none
    else elim (read_int t) [ some n ↦ schwab_rate_limit_error (some n) | none ↦ value_error ]

unfoldable pub check_response : (String → Option ℕ) → Response → Result (Unit {0})
unfolding rate_limit_error
check_response read_int r =
    let status = r.status_code in
    if status == 200
    then ok tt
    else if status == 429
    then err (rate_limit_error read_int r.retry_after)
    else if status == 401 || status == 403
    then err schwab_auth_error
    else if status == 404
    then err schwab_account_not_found
    else if leb 200 status && ltb status 300
    then ok tt
    else err schwab_error

-- `response.json()`
unfoldable pub json_of : Response → Result Json
json_of r = elim r.json [ some v ↦ ok v | none ↦ err value_error ]

-- `_ensure_account_hashes`: the loop over the answer, which keeps what it has read when it raises.
-- Account numbers and hashes are texts.
unfoldable pub add_hashes : List Json → Exec Hashes (Unit {0})
add_hashes [] s = (ok tt, s)
add_hashes (object fs ∷ vs) s = elim (text_at "accountNumber" "" (fields fs)) [
  | err e ↦ (err e, s)
  | ok number ↦ elim (text_at "hashValue" "" (fields fs)) [
    | err e ↦ (err e, s)
    | ok hash ↦ add_hashes vs (if is_blank hash then s else Dict.put hash number s)
  ]
]
add_hashes (v ∷ vs) s = (err type_error, s)

-- `for item in data`
abbrev pub items_of : Json → Result (List Json)
items_of (array vs) = ok (items vs)
items_of v = err type_error

-- The number of an account that matches an identifier: the number itself, with or without dashes, or
-- at least the last four characters of it.
unfoldable pub is_account : String → String → Bool
is_account id number =
    let normalized = replace_char b'-' "" id in
    let suffix = replace_char b'-' "" (replace_char b'*' "" id) in
    if str_eq number normalized
    then true
    else if str_eq number id
    then true
    else leb 4 (length (codes suffix)) && str_eq (last_chars (length (codes suffix)) number) suffix

first_match : String → Hashes → Result String
unfolding is_account
first_match id [] = err schwab_account_not_found
first_match id ((hash, number) ∷ s) = if is_account id number then ok hash else first_match id s

unfoldable pub resolve_account_hash : String → Hashes → Result String
unfolding first_match
resolve_account_hash id s = if Dict.contains id s then ok id else first_match id s

-- The first hash whose account has a number.
unfoldable pub hash_of_number : String → Hashes → Option String
hash_of_number number [] = none
hash_of_number number ((hash, n) ∷ s) =
    if str_eq n number then some hash else hash_of_number number s

-- The loop of `get_accounts`.
unfoldable pub linked_accounts : Hashes → List (Dict Json) → Result (List BrokerAccount)
unfolding hash_of_number
linked_accounts s [] = ok []
linked_accounts s (d ∷ ds) =
    let rest = linked_accounts s ds in
    do
      sec_acct ← dict_or_self "securitiesAccount" d
      number ← text_at "accountNumber" "" sec_acct
      elim (hash_of_number number s) [
        | none ↦ rest
        | some hash ↦ (do a ← parse_broker_account hash d; more ← rest; ok (a ∷ more))
      ]

abbrev pub day : ℕ
day = 24 * 60 * 60 * 1000000

-- The window of `get_orders`: sixty days at most.
unfoldable pub order_window : ℕ → Option ℕ → ℕ
order_window to_dt none = to_dt - 60 * day
order_window to_dt (some since) = if ltb 60 ((to_dt - since) / day) then to_dt - 60 * day else since

unfoldable pub transaction_window : ℕ → Option ℕ → ℕ
transaction_window to_dt none = to_dt - 60 * day
transaction_window to_dt (some since) = since

-- A response whose methods of a dict are used.
abbrev pub as_dict : Json → Result (Dict Json)
as_dict (object fs) = ok (fields fs)
as_dict v = err type_error

-- `tuple(data) if isinstance(data, list) else ()`
abbrev pub list_or_empty : Json → List Json
list_or_empty (array vs) = items vs
list_or_empty v = []

-- `location.rstrip("/")`
rstrip_slash : String → String
rstrip_slash String.[] = ""
rstrip_slash (String.◌∷◌ c s) =
    let rest = rstrip_slash s in if is_blank rest && code c == b'/' then "" else String.◌∷◌ c rest

-- `s.rsplit("/", 1)[-1]`
after_last_slash : String → String → String
after_last_slash whole String.[] = whole
after_last_slash whole (String.◌∷◌ c s) = elim (code c == b'/') [
  | true ↦ after_last_slash s s
  | false ↦ after_last_slash whole s
]

unfoldable pub extract_order_id : Response → String
unfolding rstrip_slash after_last_slash
extract_order_id r = let s = rstrip_slash r.location in after_last_slash s s
