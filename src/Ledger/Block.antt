-- ===== src/Ledger/Block.antt =====
-- The machine-readable block that the model writes into its digest: `_parse_recommendation_block` and
-- `_strip_recommendation_block`. The regular expressions are functions on texts; `read_amount` is
-- `Decimal` of a text, whose infinities are left out since the column refuses them, and `read_date` is `date.fromisoformat`, with `none` for their exceptions.
use Prim.Native.Char.{Char, code}
use portfolio_copilot.Prelude.{
  ◌*◌, ◌&&◌, str_append, ◌-◌, ◌+◌, codes, leb, str_eq, ◌==◌, if◌then◌else◌, length, ℕ, List, String,
  Bool, Option, none, some, true, false, [], ◌∷◌, zero, suc,
}
use portfolio_copilot.Prelude.Dict
use portfolio_copilot.Prelude.Dict.{Dict}
use portfolio_copilot.Ledger.Row.{Amount, Amount, day, window_days, Window, Verb, buy, hold}
use portfolio_copilot.Ledger.Record.{clip, hold_fallback, ParsedRecommendation}
use portfolio_copilot.Prelude.Text.{
  lower, lstrip, replace_char, upper, rstrip, without_prefix, strip, or_none, is_space, split_first,
}

-- The characters at which `splitlines` breaks a line.
abbrev is_break : Char → Bool
is_break c = let n = code c in if leb 10 n && leb n 13 then true else leb 28 n && leb n 30

-- `\s*\n` at the front of a text: whether a line feed is among the spaces.
has_newline : String → Bool
has_newline String.[] = false
has_newline (String.◌∷◌ c s) =
    let rest = has_newline s in if code c == 10 then true else if is_space c then rest else false

-- `_REC_PATTERN.search`: the text between the first marker that a line feed follows and the next end
-- marker. Its surrounding spaces are stripped.
unfoldable pub search_block : String → Option String
unfolding has_newline
search_block String.[] = none
search_block (String.◌∷◌ c s) = elim (without_prefix "<<<RECOMMENDATION>>>" (String.◌∷◌ c s)) [
  | none ↦ search_block s
  | some back ↦
      if has_newline back
      then elim (split_first "<<<END>>>" (lstrip back)) [
        | some (body, after) ↦ some (strip body)
        | none ↦ none
      ]
      else search_block s
]

-- `text.splitlines()`, where an empty line more does not matter.
unfoldable pub split_lines : String → List String
split_lines String.[] = []
split_lines (String.◌∷◌ c s) =
    let rest = split_lines s in
    if is_break c
    then "" ∷ rest
    else elim rest [ [] ↦ String.◌∷◌ c "" ∷ [] | line ∷ lines ↦ String.◌∷◌ c line ∷ lines ]

-- The loop over the lines of a block.
unfoldable pub read_fields : List String → Dict String → Dict String
read_fields [] d = d
read_fields (line ∷ lines) d = elim (split_first ":" line) [
  | none ↦ read_fields lines d
  | some (key, value) ↦ read_fields lines (Dict.put (lower (strip key)) (strip value) d)
]

abbrev get_or : String → Option String → String
get_or default none = default
get_or default (some s) = s

-- `raw or None`
abbrev given : Option String → Option String
given none = none
given (some s) = or_none s

unfoldable pub parse_iso_date : (String → Option ℕ) → Option String → Option ℕ
parse_iso_date read_date raw = elim (given raw) [ none ↦ none | some s ↦ read_date (strip s) ]

unfoldable pub parse_amount : (String → Option Amount) → Option String → Option Amount
parse_amount read_amount raw = elim (given raw) [
  | none ↦ none
  | some s ↦ read_amount (strip (replace_char b',' "" (replace_char b'$' "" s)))
]

-- `window` if it is a key of `_WINDOW_DAYS`
unfoldable pub window_of : String → Window
window_of s =
    if str_eq s "this-week"
    then Window.this_week
    else if str_eq s "2-3-weeks"
    then Window.two_three_weeks
    else if str_eq s "this-month"
    then Window.this_month
    else Window.immediate

module _ (read_amount : String → Option Amount) (read_date : String → Option ℕ) where
  -- A record for a known verb.
  recommendation : Verb → Dict String → ℕ → ParsedRecommendation
  unfolding window_of parse_amount parse_iso_date
  recommendation verb fields digest_dt =
      let window = window_of (lower (get_or "immediate" (Dict.get "window" fields))) in
      record {
        verb = verb;
        symbol = elim verb [ buy ↦ given (Dict.get "symbol" fields) | hold ↦ none ];
        amount_usd = elim verb [
          | buy ↦ parse_amount read_amount (Dict.get "amount_usd" fields)
          | hold ↦ none
        ];
        window = window;
        due_date = digest_dt + window_days window * day;
        rationale = clip 500 (get_or "" (Dict.get "rationale" fields));
        supersedes_day = parse_iso_date read_date (Dict.get "supersedes" fields);
      }

  of_fields : Dict String → ℕ → ParsedRecommendation
  unfolding recommendation
  of_fields fields digest_dt =
      let verb = upper (get_or "HOLD" (Dict.get "verb" fields)) in
      if str_eq verb "BUY"
      then recommendation buy fields digest_dt
      else if str_eq verb "HOLD"
      then recommendation hold fields digest_dt
      else hold_fallback (str_append "unknown verb: " verb) digest_dt

  unfoldable pub parse_recommendation_block : String → ℕ → ParsedRecommendation
  unfolding search_block split_lines read_fields of_fields
  parse_recommendation_block text digest_dt = elim (search_block text) [
    | none ↦ hold_fallback "no recommendation block found" digest_dt
    | some body ↦ of_fields (read_fields (split_lines body) []) digest_dt
  ]

-- `\s*\n` in front of what must follow: the spaces of a text, if the last of them is a line feed.
after_newline : String → Option String
after_newline String.[] = none
after_newline (String.◌∷◌ c s) = elim (is_space c) [
  | false ↦ none
  | true ↦ elim (after_newline s) [
    | some rest ↦ some rest
    | none ↦ if code c == 10 then some s else none
  ]
]

-- `[a-z]*`
after_letters : String → String
after_letters String.[] = ""
after_letters (String.◌∷◌ c s) =
    let rest = after_letters s in
    if leb 97 (code c) && leb (code c) 122 then rest else String.◌∷◌ c s

-- What follows an optional fence at the front of a match.
after_fence : String → Option String
unfolding after_newline after_letters
after_fence s = elim (without_prefix "```" s) [
  | none ↦ some s
  | some back ↦ after_newline (after_letters back)
]

-- The closing fence, if it is there.
after_closing : String → String
unfolding after_newline
after_closing s = elim (after_newline s) [
  | none ↦ s
  | some back ↦ elim (without_prefix "```" back) [ none ↦ s | some rest ↦ rest ]
]

-- A match of `_REC_STRIP_PATTERN` at the front of a text: what follows it.
match_block : String → Option String
unfolding after_fence after_closing
match_block s = elim (after_fence s) [
  | none ↦ none
  | some front ↦ elim (without_prefix "<<<RECOMMENDATION>>>" front) [
    | none ↦ none
    | some back ↦ elim (split_first "<<<END>>>" back) [
      | none ↦ none
      | some (body, after) ↦ some (after_closing after)
    ]
  ]
]

-- `_REC_STRIP_PATTERN.sub("", text)`; the first argument counts the characters of a match that are
-- still to be dropped.
drop_blocks : ℕ → String → String
unfolding match_block
drop_blocks n String.[] = ""
drop_blocks (suc n) (String.◌∷◌ c s) = drop_blocks n s
drop_blocks zero (String.◌∷◌ c s) = elim (match_block (String.◌∷◌ c s)) [
  | none ↦ String.◌∷◌ c (drop_blocks zero s)
  | some rest ↦ drop_blocks (length (codes s) - length (codes rest)) s
]

unfoldable pub strip_recommendation_block : String → String
unfolding drop_blocks
strip_recommendation_block text = rstrip (drop_blocks zero text)
