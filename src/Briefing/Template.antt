-- ===== src/Briefing/Template.antt =====
-- `_generate_template_summary`: the briefing without a language model.
use Prim.Native.Nat.{Ordering}
use Prim.Native.String.{compare as compare_text}
use portfolio_copilot.Prelude.{
  ◌==◌, str_append, not, length, is_nil, ◌++◌, Bool, map, if◌then◌else◌, take, type_error, String,
  List, ℕ, Result, Option, ok, err, none, some, false, [], ◌∷◌, ◌>>=◌,
}
use portfolio_copilot.Domain.Congress.{TransactionType, purchase}
use portfolio_copilot.Ingest.{TradeDisclosureRow}
use portfolio_copilot.Prelude.Int.{magnitude, ℤ}
use portfolio_copilot.Prelude.Text.{first_chars, is_blank, join, concat}
use portfolio_copilot.Decimal.Number.{Decimal}

-- The texts that Python prints: `date.isoformat()`, `f"{n:,}"` and `str(n)`.
pub record Format : Type 0 where
  pub iso : ℕ → String
  pub commas : ℤ → String
  pub show : ℕ → String
  pub decimal : Decimal → String

-- `_BriefingContext`
pub record BriefingContext : Type 0 where
  pub date : ℕ
  pub disclosures : List TradeDisclosureRow
  pub overlaps : List TradeDisclosureRow
  pub held_tickers : List String
  pub market_regime : String

-- `d.amount_range_low` as a condition
abbrev pub has_amount : Option ℤ → Bool
has_amount none = false
has_amount (some z) = not (magnitude z == 0)

-- "BUY" if "PURCHASE" is in the name of the transaction type
unfoldable pub action_of : TransactionType → String
action_of purchase = "BUY"
action_of t = "SELL"

-- `f"{amount:,}"`, which raises a TypeError on `None`.
abbrev pub print_amount : (ℤ → String) → Option ℤ → Result String
print_amount commas none = err type_error
print_amount commas (some z) = ok (commas z)

unfoldable pub range_text : (ℤ → String) → Option ℤ → Option ℤ → Result String
range_text commas low high = do
  l ← print_amount commas low
  h ← print_amount commas high
  ok (concat ("$" ∷ l ∷ "-$" ∷ h ∷ []))

-- The amount of an overlap.
unfoldable pub overlap_amount : (ℤ → String) → TradeDisclosureRow → Result String
unfolding range_text
overlap_amount commas d =
    if has_amount d.amount_range_low
    then range_text commas d.amount_range_low d.amount_range_high
    else ok "undisclosed"

abbrev symbol_text : Option String → String
symbol_text none = "None"
symbol_text (some s) = s

-- `d.symbol or other`
abbrev pub symbol_or : String → Option String → String
symbol_or other none = other
symbol_or other (some s) = if is_blank s then other else s

-- `", ".join(sorted({…}))`
insert_text : String → List String → List String
insert_text s [] = s ∷ []
insert_text s (t ∷ ts) =
    let rest = insert_text s ts in
    elim (compare_text s t) [
      | Ordering.lt ↦ s ∷ t ∷ ts
      | Ordering.eq ↦ t ∷ ts
      | Ordering.gt ↦ t ∷ rest
    ]

unfoldable pub sorted_set : List String → List String
unfolding insert_text
sorted_set [] = []
sorted_set (s ∷ ss) = insert_text s (sorted_set ss)

unfoldable pub symbols_of : List TradeDisclosureRow → List String
symbols_of [] = []
symbols_of (d ∷ ds) =
    let rest = symbols_of ds in
    elim d.symbol [ none ↦ rest | some s ↦ if is_blank s then rest else s ∷ rest ]

module _ (fmt : Format) where
  unfoldable pub overlap_line : TradeDisclosureRow → Result String
  unfolding overlap_amount action_of
  overlap_line d = do
    amt ← overlap_amount fmt.commas d
    ok (
        concat (
          "| "
          ∷ d.member_name
          ∷ " | **"
          ∷ symbol_text d.symbol
          ∷ "** | "
          ∷ action_of d.transaction_type
          ∷ " | "
          ∷ amt
          ∷ " | "
          ∷ fmt.iso d.transaction_date
          ∷ " | "
          ∷ fmt.iso d.disclosure_date
          ∷ " |"
          ∷ []))

  unfoldable pub overlap_lines : List TradeDisclosureRow → Result (List String)
  unfolding overlap_line
  overlap_lines [] = ok []
  overlap_lines (d ∷ ds) = do line ← overlap_line d; more ← overlap_lines ds; ok (line ∷ more)

  disclosure_line : TradeDisclosureRow → String
  unfolding action_of
  disclosure_line d =
      let amt : String = elim d.amount_range_low [
        | none ↦ "??"
        | some z ↦ if magnitude z == 0 then "??" else str_append "$" (fmt.commas z)
      ] in
      concat (
        "| "
        ∷ d.member_name
        ∷ " | "
        ∷ symbol_or (first_chars 12 d.asset_description) d.symbol
        ∷ " | "
        ∷ action_of d.transaction_type
        ∷ " | "
        ∷ amt
        ∷ " | "
        ∷ fmt.iso d.disclosure_date
        ∷ " |"
        ∷ [])

  unfoldable pub overlap_section : List TradeDisclosureRow → Result (List String)
  unfolding overlap_lines
  overlap_section [] = ok []
  overlap_section (d ∷ ds) = do
    rows ← overlap_lines (take 15 (d ∷ ds))
    ok (
        "## 🎯 Your Holdings — Congressional Activity" ∷ ""
          ∷ "| Trader | Ticker | Action | Amount | Traded | Filed |"
          ∷ "|--------|--------|--------|--------|--------|-------|" ∷ rows
        ++ "" ∷ [])

  disclosure_section : List TradeDisclosureRow → List String
  unfolding disclosure_line
  disclosure_section [] = []
  disclosure_section (d ∷ ds) =
      "## All Disclosures (this cycle)"
      ∷ ""
      ∷ "| Trader | Ticker | Action | Amount | Filed |"
      ∷ "|--------|--------|--------|--------|-------|"
      ∷ map disclosure_line (take 25 (d ∷ ds))

  action_line : BriefingContext → String
  unfolding sorted_set symbols_of
  action_line ctx = elim (sorted_set (symbols_of ctx.overlaps)) [
    | [] ↦ "**HOLD** — no disclosures overlap your holdings; nothing actionable today."
    | s ∷ ss ↦ concat (
        "**HOLD** — "
        ∷ fmt.show (length ctx.overlaps)
        ∷ " disclosure(s) touch your holdings ("
        ∷ join ", " (s ∷ ss)
        ∷ "); review before acting. No automated trade call is made without the analyst model."
        ∷ [])
  ]

  unfoldable pub excerpt_of : BriefingContext → String
  excerpt_of ctx =
      let overlap_text =
        if is_nil ctx.overlaps
        then ""
        else str_append (fmt.show (length ctx.overlaps)) " overlap(s) with your portfolio. " in
      concat (
        "📊 "
        ∷ fmt.iso ctx.date
        ∷ " — Action: HOLD. "
        ∷ fmt.show (length ctx.disclosures)
        ∷ " new disclosure(s). "
        ∷ overlap_text
        ∷ "Regime: "
        ∷ ctx.market_regime
        ∷ "."
        ∷ [])

  heading : BriefingContext → List String
  heading ctx =
      concat ("# Daily Briefing — " ∷ fmt.iso ctx.date ∷ [])
      ∷ ""
      ∷ concat ("**Market regime:** " ∷ ctx.market_regime ∷ [])
      ∷ concat ("**New disclosures:** " ∷ fmt.show (length ctx.disclosures) ∷ [])
      ∷ concat ("**Portfolio overlaps:** " ∷ fmt.show (length ctx.overlaps) ∷ [])
      ∷ ""
      ∷ []

  unfoldable pub template_summary : BriefingContext → Result (String × String)
  unfolding overlap_section disclosure_section action_line excerpt_of heading
  template_summary ctx = do
    overlap ← overlap_section ctx.overlaps
    ok (
      join "\n" (
          heading ctx
          ++ overlap
          ++ disclosure_section ctx.disclosures
          ++ "" ∷ "## Action of the Day" ∷ "" ∷ action_line ctx ∷ []),
      excerpt_of ctx,
    )
