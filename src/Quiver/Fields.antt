-- ===== src/Quiver/Fields.antt =====
-- The record arrays and the fields of a response (adapters/quiver/parsing.py).
use portfolio_copilot.Prelude.{
  quiver_parse_error, Option, Result, List, String, ok, err, none, some, [], ◌∷◌,
}
use portfolio_copilot.Prelude.Dict
use portfolio_copilot.Prelude.Dict.{Dict}
use portfolio_copilot.Json.{str, array_of, not_null, Json, Items, items, fields, array, object, str}
use portfolio_copilot.Prelude.Text.{strip, or_none}

-- `_records_from_iterable`: the items that are objects.
unfoldable pub records_from_iterable : List Json → List (Dict Json)
records_from_iterable [] = []
records_from_iterable (object fs ∷ vs) = fields fs ∷ records_from_iterable vs
records_from_iterable (v ∷ vs) = records_from_iterable vs

-- The first of the keys "results" and "trades" that holds an array.
unfoldable pub record_array : Dict Json → Option Items
record_array d = elim (array_of (Dict.get "results" d)) [
  | some vs ↦ some vs
  | none ↦ array_of (Dict.get "trades" d)
]

records_or_error : Option Items → Result (List (Dict Json))
unfolding records_from_iterable
records_or_error (some vs) = ok (records_from_iterable (items vs))
records_or_error none = err quiver_parse_error

-- `payload.get("data")` and what is below it.
in_data : Option Json → Result (List (Dict Json))
unfolding records_or_error record_array
in_data (some (array vs)) = records_or_error (some vs)
in_data (some (object fs)) = records_or_error (record_array (fields fs))
in_data v = err quiver_parse_error

in_object : Dict Json → Option Items → Result (List (Dict Json))
unfolding in_data
in_object d (some vs) = records_or_error (some vs)
in_object d none = in_data (Dict.get "data" d)

unfoldable pub extract_records : Json → Result (List (Dict Json))
unfolding in_object record_array
extract_records (array vs) = ok (records_from_iterable (items vs))
extract_records (object fs) = in_object (fields fs) (record_array (fields fs))
extract_records v = err quiver_parse_error

unfoldable pub optional_field : List String → Dict Json → Option Json
optional_field [] d = none
optional_field (name ∷ names) d = elim (not_null (Dict.get name d)) [
  | some v ↦ some v
  | none ↦ optional_field names d
]

unfoldable pub required_field : List String → Dict Json → Result Json
unfolding optional_field
required_field names d = elim (optional_field names d) [
  | some v ↦ ok v
  | none ↦ err quiver_parse_error
]

module _ (show : Json → String) where
  -- `str(value)`, with `show` for what is not a text.
  abbrev pub to_text : Json → String
  to_text (str s) = s
  to_text v = show v

  unfoldable pub optional_string : List String → Dict Json → Option String
  unfolding optional_field
  optional_string names d = elim (optional_field names d) [
    | some v ↦ or_none (strip (to_text v))
    | none ↦ none
  ]

  unfoldable pub required_string : List String → Dict Json → Result String
  unfolding optional_string
  required_string names d = elim (optional_string names d) [
    | some s ↦ ok s
    | none ↦ err quiver_parse_error
  ]
