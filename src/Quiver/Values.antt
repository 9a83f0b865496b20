-- ===== src/Quiver/Values.antt =====
-- The parsers of one field (adapters/quiver/parsing.py).
use Prim.Native.Char.{code}
use portfolio_copilot.Prelude.{
  str_eq, zero, suc, suc, ◌==◌, ◌||◌, ◌+◌, value_error, ◌&&◌, quiver_parse_error, ◌*◌, ◌-◌, Bool,
  if◌then◌else◌, Option, ℕ, String, Error, Result, List, ok, err, none, some, true, false, [], ◌∷◌,
}
use text.Mathlib.Text.{starts_with}
use portfolio_copilot.Prelude.Text.{
  last_chars, replace_char, has_part, upper, is_blank, one_of, lower, strip, is_digit,
}
use portfolio_copilot.Domain.Congress.{TransactionType, Party, Chamber}
use portfolio_copilot.Json.{Json, str, boolean}
use portfolio_copilot.Domain.Symbol.{equity, make_symbol, Symbol}
use portfolio_copilot.Prelude.Int.{pos, ℤ}
use portfolio_copilot.Quiver.Fields.{to_text}

-- `_EMPTY_SYMBOLS`
abbrev empty_symbols : List String
empty_symbols = "" ∷ "-" ∷ "--" ∷ "N/A" ∷ "NA" ∷ "NONE" ∷ "NULL" ∷ []

-- `_EMPTY_RANGES`
abbrev empty_ranges : List String
empty_ranges = "" ∷ "-" ∷ "--" ∷ "N/A" ∷ "NA" ∷ "NONE" ∷ "NULL" ∷ "UNDISCLOSED" ∷ []

-- The matches of `_MONEY_RE`, each a digit and the digits and commas behind it, as `_parse_money`
-- reads them. The first argument is the number that is being read.
pub money_matches : Option ℕ → String → List ℕ
money_matches none String.[] = []
money_matches (some n) String.[] = n ∷ []
money_matches none (String.◌∷◌ c s) = elim (is_digit c) [
  | true ↦ money_matches (some (code c - 48)) s
  | false ↦ money_matches none s
]
money_matches (some n) (String.◌∷◌ c s) = elim (is_digit c) [
  | true ↦ money_matches (some (n * 10 + (code c - 48))) s
  | false ↦ elim (code c == b',') [
    | true ↦ money_matches (some n) s
    | false ↦ n ∷ money_matches none s
  ]
]

-- A lower bound only.
unfoldable pub is_open_range : String → Bool
is_open_range t =
    let lowered = lower t in
    if has_part "over" lowered
    then true
    else if has_part "more than" lowered
    then true
    else if starts_with lowered ">"
    then true
    else if starts_with lowered "$>"
    then true
    else str_eq (last_chars 1 t) "+"

range_of : String → List ℕ → Result (Option ℤ × Option ℤ)
unfolding is_open_range
range_of t [] = err quiver_parse_error
range_of t (low ∷ []) = ok (some (pos low), none)
range_of t (low ∷ high ∷ more) =
    ok (some (pos low), if is_open_range t then none else some (pos high))

unfoldable pub dollar_range : String → Result (Option ℤ × Option ℤ)
unfolding money_matches range_of
dollar_range value =
    let t = strip value in
    if one_of (upper t) empty_ranges then ok (none, none) else range_of t (money_matches none t)

unfoldable pub parse_dollar_range : (Json → String) → Option Json → Result (Option ℤ × Option ℤ)
unfolding dollar_range
parse_dollar_range show none = ok (none, none)
parse_dollar_range show (some v) = dollar_range (to_text show v)

transaction_of : String → TransactionType
transaction_of s =
    if has_part "partial" s && has_part "sale" s
    then TransactionType.sale_partial
    else if has_part "purchase" s || one_of s ("buy" ∷ "bought" ∷ [])
    then TransactionType.purchase
    else if has_part "sale" s || one_of s ("sell" ∷ "sold" ∷ [])
    then TransactionType.sale
    else if has_part "exchange" s
    then TransactionType.exchange
    else TransactionType.other

unfoldable pub parse_transaction_type : Option String → TransactionType
unfolding transaction_of
parse_transaction_type none = TransactionType.other
parse_transaction_type (some value) = transaction_of (lower (strip value))

-- `Symbol(ticker)` with the ValueError caught.
symbol_or_none : Result Symbol → Option Symbol
symbol_or_none (ok s) = some s
symbol_or_none (err e) = none

unfoldable pub parse_symbol : Option String → Option Symbol
unfolding symbol_or_none
parse_symbol none = none
parse_symbol (some value) =
    let raw = upper (strip value) in
    if one_of raw empty_symbols
    then none
    else symbol_or_none (make_symbol (replace_char b'/' "." raw) equity)

-- `re.fullmatch(r"\d{8}", text)`
abbrev digits_only : ℕ → String → Bool
digits_only zero String.[] = true
digits_only (suc n) (String.◌∷◌ c s) = if is_digit c then digits_only n s else false
digits_only n s = false

-- The date readers of Python and of dateutil: a day, or `none` for the exception that the code
-- names (ValueError, TypeError).
pub record DateReaders : Type 0 where
  pub strptime_ymd : String → Option ℕ
  pub from_iso_format : String → Option ℕ
  pub date_parse : String → Option ℕ

or_raise : Error → Option ℕ → Result ℕ
or_raise e (some day) = ok day
or_raise e none = err e

read_date : DateReaders → String → Result ℕ
unfolding or_raise
read_date dates t =
    if is_blank t
    then err quiver_parse_error
    else if digits_only 8 t
    then or_raise value_error (dates.strptime_ymd t)
    else elim (dates.from_iso_format (replace_char b'Z' "+00:00" t)) [
      | some day ↦ ok day
      | none ↦ or_raise quiver_parse_error (dates.date_parse t)
    ]

unfoldable pub parse_quiver_date : DateReaders → Json → Result ℕ
unfolding read_date
parse_quiver_date dates (str s) = read_date dates (strip s)
parse_quiver_date dates v = err quiver_parse_error

party_of : String → Party
party_of s =
    if one_of s ("d" ∷ "dem" ∷ "democrat" ∷ "democratic" ∷ "democratic party" ∷ [])
    then Party.democrat
    else if one_of s ("r" ∷ "rep" ∷ "republican" ∷ "republican party" ∷ "gop" ∷ [])
    then Party.republican
    else if one_of s ("i" ∷ "ind" ∷ "independent" ∷ [])
    then Party.independent
    else Party.unknown

unfoldable pub parse_party : Option String → Party
unfolding party_of
parse_party none = Party.unknown
parse_party (some value) = party_of (lower (strip value))

chamber_of : String → Result Chamber
chamber_of s =
    if one_of s ("house" ∷ "representative" ∷ "representatives" ∷ "u.s. representatives" ∷ [])
    then ok Chamber.house
    else if one_of s ("senate" ∷ "senator" ∷ "u.s. senate" ∷ [])
    then ok Chamber.senate
    else err quiver_parse_error

unfoldable pub parse_chamber : Json → Result Chamber
unfolding chamber_of
parse_chamber (boolean house) = ok (if house then Chamber.house else Chamber.senate)
parse_chamber (str value) = chamber_of (lower (strip value))
parse_chamber v = err quiver_parse_error
