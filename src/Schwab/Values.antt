-- ===== src/Schwab/Values.antt =====
-- Values of a Schwab response and the conversions of adapters/schwab/parsing.py. A value of a type
-- that the code does not expect raises (`type_error` for a TypeError or an AttributeError).
use portfolio_copilot.Prelude.{
  ◌==◌, not, invalid_operation, type_error, if◌then◌else◌, Bool, Option, String, Result, List, ok,
  err, none, some, true, false, [], ◌∷◌, ◌>>=◌,
}
use portfolio_copilot.Prelude.Dict
use portfolio_copilot.Prelude.Dict.{Dict}
use portfolio_copilot.Decimal
use portfolio_copilot.Decimal.{Decimal}
use portfolio_copilot.Domain.Money
use portfolio_copilot.Domain.Money.{Money}
use portfolio_copilot.Json.{
  no_fields, no_items, items, fields, Json, null, array, object, str, integer, float, boolean,
}
use portfolio_copilot.Prelude.Int.{magnitude, pos}
use portfolio_copilot.Prelude.Text.{is_blank}

-- `d.get(key, {})`
unfoldable pub dict_at : String → Dict Json → Result (Dict Json)
dict_at key d = elim (Dict.get key d) [
  | none ↦ ok []
  | some (object fs) ↦ ok (fields fs)
  | some v ↦ err type_error
]

-- `d.get(key, d)`
unfoldable pub dict_or_self : String → Dict Json → Result (Dict Json)
dict_or_self key d = elim (Dict.get key d) [
  | none ↦ ok d
  | some (object fs) ↦ ok (fields fs)
  | some v ↦ err type_error
]

-- `d.get(key, default)` where a text is expected.
unfoldable pub text_at : String → String → Dict Json → Result String
text_at key default d = elim (Dict.get key d) [
  | none ↦ ok default
  | some (str s) ↦ ok s
  | some v ↦ err type_error
]

-- `d.get(key, [])` of objects
unfoldable pub objects : List Json → Result (List (Dict Json))
objects [] = ok []
objects (object fs ∷ vs) = objects vs >>= λ rest. ok (fields fs ∷ rest)
objects (v ∷ vs) = err type_error

unfoldable pub objects_at : String → Dict Json → Result (List (Dict Json))
unfolding objects
objects_at key d = elim (Dict.get key d) [
  | none ↦ ok []
  | some (array vs) ↦ objects (items vs)
  | some v ↦ err type_error
]

-- `d.get(key, 0)`
abbrev pub or_zero : Option Json → Json
or_zero none = integer (pos 0)
or_zero (some v) = v

-- `bool(value)`
abbrev pub is_truthy : Json → Bool
is_truthy null = false
is_truthy (boolean b) = b
is_truthy (integer z) = not (magnitude z == 0)
is_truthy (float d) = not (Decimal.is_zero d)
is_truthy (str s) = not (is_blank s)
is_truthy (array no_items) = false
is_truthy (array vs) = true
is_truthy (object no_fields) = false
is_truthy (object fs) = true

-- A number that takes part in a subtraction.
unfoldable pub number : Json → Result Decimal
number (integer z) = ok (Decimal.of_ℤ z)
number (float d) = ok d
number (boolean b) = ok (Decimal.of_ℕ (if b then 1 else 0))
number v = err type_error

-- `Decimal(str(value))`; `read` is the reading of a text, whose failure is InvalidOperation.
unfoldable pub decimal : (String → Option Decimal) → Json → Result Decimal
decimal read (integer z) = ok (Decimal.of_ℤ z)
decimal read (float d) = ok d
decimal read (str s) = elim (read s) [ some d ↦ ok d | none ↦ err invalid_operation ]
decimal read v = err invalid_operation

-- `_quantize_to_4dp`
unfoldable pub quantize_to_4dp : Decimal → Decimal
quantize_to_4dp d = Decimal.quantize d 4

-- The two constructions under `try` do not raise on a decimal.
abbrev pub money_or_zero : Result Decimal → Money
money_or_zero (ok d) = record { amount = quantize_to_4dp d; currency = "USD" }
money_or_zero (err e) = Money.zero_usd

-- `_parse_money`; JSON null is `None`.
unfoldable pub parse_money : (String → Option Decimal) → Json → Money
unfolding decimal quantize_to_4dp
parse_money read null = Money.zero_usd
parse_money read v = money_or_zero (decimal read v)

unfoldable pub parse_money_or_none : (String → Option Decimal) → Option Json → Option Money
unfolding parse_money
parse_money_or_none read none = none
parse_money_or_none read (some null) = none
parse_money_or_none read (some v) =
    let money = parse_money read v in if Money.is_zero money then none else some money

abbrev decimal_or_zero : Result Decimal → Decimal
decimal_or_zero (ok d) = quantize_to_4dp d
decimal_or_zero (err e) = Decimal.of_ℕ 0

-- `_parse_decimal`
unfoldable pub parse_decimal : (String → Option Decimal) → Json → Decimal
unfolding decimal quantize_to_4dp
parse_decimal read null = Decimal.of_ℕ 0
parse_decimal read v = decimal_or_zero (decimal read v)
