-- ===== src/Ledger/Record.antt =====
-- `_record_recommendation` and `_mark_superseded`. The identifier, which the program makes from the
-- day and the time, is an argument. The new row is added before the query for the superseded one,
-- which finds it, since the session flushes what was added before it queries.
use portfolio_copilot.Prelude.{
  zero, suc, str_append, ok, Result, ◌>>=◌, update_first, codes, ltb, leb, any, ◌*◌, ◌&&◌, is_some,
  [], ◌+◌, str_eq, if◌then◌else◌, not, ◌++◌, ◌∷◌, Bool, List, ℕ, Option, String, none, some, false,
}
use portfolio_copilot.Prelude.Dict
use portfolio_copilot.Prelude.Dict.{Dict, contains}
use portfolio_copilot.Domain.Symbol.{is_empty}
use portfolio_copilot.Decimal
use portfolio_copilot.Decimal.{Decimal}
use portfolio_copilot.Ledger.Row.{
  Amount, day, immediate, is_active, Window, hold, Verb, window_days, active, superseded,
  RecommendationRow,
}
use portfolio_copilot.Domain.Portfolio.{Position}
use portfolio_copilot.Ledger.Detect.{LiveBroker, ledger_pre_digest}

pub record ParsedRecommendation : Type 0 where
  pub verb : Verb
  pub symbol : Option String
  pub amount_usd : Option Amount
  pub window : Window
  pub due_date : ℕ
  pub rationale : String
  pub supersedes_day : Option ℕ

-- `s[:n]`
unfoldable pub clip : ℕ → String → String
clip zero s = ""
clip (suc n) String.[] = ""
clip (suc n) (String.◌∷◌ c s) = String.◌∷◌ c (clip n s)

-- `_hold_fallback`
unfoldable pub hold_fallback : String → ℕ → ParsedRecommendation
unfolding window_days clip
hold_fallback reason digest_dt = record {
  verb = hold;
  symbol = none;
  amount_usd = none;
  window = immediate;
  due_date = digest_dt + window_days immediate * day;
  rationale = clip 500 (str_append "parse failed: " reason);
  supersedes_day = none;
}

-- The candidates of `_mark_superseded` for the day `d`.
abbrev pub is_candidate : ℕ → RecommendationRow → Bool
is_candidate d r = is_active r && leb (d * day) r.digest_date && ltb r.digest_date (d * day + day)

pub is_given : Option String → Bool
is_given none = false
is_given (some s) = not (is_empty (codes s))

pub same_symbol : Option String → Option String → Bool
same_symbol (some s) (some t) = str_eq s t
same_symbol _ _ = false

unfoldable pub superseded_row : String → ℕ → RecommendationRow → RecommendationRow
superseded_row new_id now r = record r {
  status = superseded;
  superseded_by = some new_id;
  updated_at = now;
}

-- A candidate of the new symbol.
abbrev pub is_match : ℕ → Option String → RecommendationRow → Bool
is_match d symbol r = is_candidate d r && is_given symbol && same_symbol r.symbol symbol

-- `_mark_superseded`: the first candidate of the new symbol, or else the first candidate.
unfoldable pub mark_superseded :
    ℕ → String → Option String → ℕ → List RecommendationRow → List RecommendationRow
unfolding superseded_row is_given same_symbol
mark_superseded d new_id symbol now rows =
    if any (is_match d symbol) rows
    then update_first (is_match d symbol) (superseded_row new_id now) rows
    else update_first (is_candidate d) (superseded_row new_id now) rows

baseline : Option String → Dict Position → Option Decimal → Option Decimal
unfolding is_given
baseline none positions cash = none
baseline (some s) positions cash =
    if is_given (some s)
    then elim (Dict.get s positions) [
      | some p ↦ some p.quantity
      | none ↦ if is_some cash then some (Decimal.of_ℕ 0) else none
    ]
    else none

unfoldable pub new_row :
    ParsedRecommendation → String → ℕ → ℕ → Dict Position → Option Decimal → RecommendationRow
unfolding baseline
new_row parsed id digest_dt now positions cash = record {
  recommendation_id = id;
  digest_date = digest_dt;
  verb = parsed.verb;
  symbol = parsed.symbol;
  amount_usd = parsed.amount_usd;
  window = parsed.window;
  due_date = parsed.due_date;
  rationale = parsed.rationale;
  status = active;
  superseded_by = none;
  acted_on_detail = none;
  baseline_qty = baseline parsed.symbol positions cash;
  baseline_cash = cash;
  created_at = now;
  updated_at = now;
}

unfoldable pub supersede_day :
    Option ℕ → String → Option String → ℕ → List RecommendationRow → List RecommendationRow
unfolding mark_superseded
supersede_day none id symbol now rows = rows
supersede_day (some d) id symbol now rows = mark_superseded d id symbol now rows

-- `_record_recommendation`
unfoldable pub record_recommendation :
    ParsedRecommendation
    → String
    → ℕ
    → ℕ
    → Dict Position
    → Option Decimal
    → List RecommendationRow
    → List RecommendationRow
unfolding new_row supersede_day
record_recommendation parsed id digest_dt now positions cash rows =
    supersede_day parsed.supersedes_day id parsed.symbol now
      (rows ++ new_row parsed id digest_dt now positions cash ∷ [])

-- The steps of a run on the ledger: those before the digest, and the recommendation that follows.
unfoldable pub run_ledger :
    Option LiveBroker
    → String
    → ParsedRecommendation
    → String
    → ℕ
    → ℕ
    → List RecommendationRow
    → Result (List RecommendationRow)
unfolding record_recommendation ledger_pre_digest
run_ledger broker account parsed id digest_dt now rows = do
  (rows', positions, cash) ← ledger_pre_digest broker account now rows
  ok (record_recommendation parsed id digest_dt now positions cash rows')
