-- ===== src/Advisors/Llm.antt =====
-- application/advisors/llm.py. `loads` is `json.loads`, with `none` for a text that is no JSON; a text
-- in braces is read as an object or not at all.
use portfolio_copilot.Prelude.{◌-◌, leb, ◌+◌, true, false}
use Prim.Native.Char.{Char, code}
use portfolio_copilot.Prelude.Dict.{Dict}
use portfolio_copilot.Json.{Json, object, fields}
use portfolio_copilot.Prelude.{
  [], ok, is_some, str_append, llm_parse_error, some, ◌&&◌, err, if◌then◌else◌, ◌∷◌, ◌==◌, none,
  List, Result, String, Option, ℕ,
}
use portfolio_copilot.Prelude.Text.{lstrip, strip, without_prefix, split_first}

-- The text that is complete with its first character.
abbrev prepend : Char → Option String → Option String
prepend c none = none
prepend c (some s) = some (String.◌∷◌ c s)

-- The text up to the first closing brace that spaces and a fence follow.
unfoldable pub closing : String → Option String
closing String.[] = none
closing (String.◌∷◌ c s) =
    let rest = closing s in
    if code c == 125 && is_some (without_prefix "```" (lstrip s)) then some "}" else prepend c rest

abbrev without_json : String → String
without_json s = elim (without_prefix "json" s) [ none ↦ s | some rest ↦ rest ]

-- The pattern of a fence at the front of a text: the object in it.
unfoldable pub fence_at : String → Option String
unfolding closing
fence_at s = elim (without_prefix "```" s) [
  | none ↦ none
  | some back ↦ elim (without_prefix "{" (lstrip (without_json back))) [
    | none ↦ none
    | some rest ↦ elim (closing rest) [ none ↦ none | some body ↦ some (str_append "{" body) ]
  ]
]

-- `re.search` of the pattern
unfoldable pub fenced : String → Option String
unfolding fence_at
fenced String.[] = none
fenced (String.◌∷◌ c s) =
    let rest = fenced s in elim (fence_at (String.◌∷◌ c s)) [ some body ↦ some body | none ↦ rest ]

-- The text up to the brace that closes the last open one, of which there are `depth`.
unfoldable pub balanced : ℕ → String → Option String
balanced depth String.[] = none
balanced depth (String.◌∷◌ c s) = elim (code c == 123) [
  | true ↦ prepend c (balanced (depth + 1) s)
  | false ↦ elim (code c == 125) [
    | false ↦ prepend c (balanced depth s)
    | true ↦ elim (leb depth 1) [ true ↦ some "}" | false ↦ prepend c (balanced (depth - 1) s) ]
  ]
]

-- The first balanced block of a text.
unfoldable pub first_block : String → Option String
unfolding balanced
first_block s = elim (split_first "{" s) [
  | none ↦ none
  | some (front, rest) ↦ elim (balanced 1 rest) [
    | none ↦ none
    | some body ↦ some (str_append "{" body)
  ]
]

module _ (loads : String → Option Json) where
  abbrev object_in : Option String → Option (Dict Json)
  object_in none = none
  object_in (some s) = elim (loads s) [
    | some (object fs) ↦ some (fields fs)
    | none ↦ none
    | some v ↦ none
  ]

  abbrev first_of : List (Option String) → Result (Dict Json)
  first_of [] = err llm_parse_error
  first_of (s ∷ ss) = elim (object_in s) [ some d ↦ ok d | none ↦ first_of ss ]

  unfoldable pub extract_json : String → Result (Dict Json)
  unfolding fenced first_block
  extract_json text = first_of (fenced text ∷ some (strip text) ∷ first_block text ∷ [])
