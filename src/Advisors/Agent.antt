-- ===== src/Advisors/Agent.antt =====
-- application/advisors/agent.py. Floats are decimals. `text_of` is `str` of a value that is no text, `read_float` is
-- `float` of a text and `message` the text of an exception; the snapshot comes rendered.
use portfolio_copilot.Decimal
use portfolio_copilot.Decimal.{Decimal}
use portfolio_copilot.Prelude.Dict
use portfolio_copilot.Prelude.Dict.{Dict}
use portfolio_copilot.Json.{Json, str, integer, float, boolean}
use portfolio_copilot.Advisors.Llm.{extract_json}
use portfolio_copilot.Prelude.{
  type_error, none, false, ◌>>=◌, value_error, some, err, true, str_eq, if◌then◌else◌, ◌+◌, Error,
  ok, ◌&&◌, str_append, Option, String, Result, Bool,
}
use portfolio_copilot.Prelude.Int.{negsuc, pos, ℤ, ◌*ℤ◌}
use portfolio_copilot.Prelude.Text.{lower}

pub data Stance : Type 0 where
  bullish neutral bearish : Stance

-- What the agent reads of a snapshot: `content_hash` and `render()` are given with it.
pub record FundamentalsSnapshot : Type 0 where
  pub ticker : String
  pub as_of : String
  pub content_hash : String
  pub rendered : String

pub record AdvisorView : Type 0 where
  pub advisor : String
  pub model : String
  pub ticker : String
  pub as_of : String
  pub snapshot_hash : String
  pub stance : Stance
  pub confidence : Decimal
  pub reasoning : String
  pub system_prompt : String
  pub user_prompt : String
  pub raw_response : String
  pub abstained : Bool
  pub abstain_reason : Option String

abbrev sign : Stance → ℤ
sign bullish = pos 1
sign neutral = pos 0
sign bearish = negsuc 0

-- `sign * confidence / 100`
unfoldable pub score : AdvisorView → Decimal
score v = record { int = sign v.stance *ℤ v.confidence.int; scale = v.confidence.scale + 2 }

-- A name of `STANCES`
abbrev stance_of : String → Result Stance
stance_of s =
    if str_eq s "bullish"
    then ok bullish
    else if str_eq s "neutral"
    then ok neutral
    else if str_eq s "bearish"
    then ok bearish
    else err value_error

-- The text of any other value is no stance.
abbrev pub parse_stance : Option Json → Result Stance
parse_stance (some (str s)) = stance_of (lower s)
parse_stance v = err value_error

-- An advisor: its persona, and its language model.
pub record Advisor : Type 0 where
  pub name : String
  pub system_prompt : String
  pub model : String
  pub complete : String → String → Result String

pub record Texts : Type 0 where
  pub loads : String → Option Json
  pub text_of : Json → String
  pub read_float : String → Option Decimal
  pub message : Error → String

module _ (texts : Texts) where
  -- `float(value)`
  abbrev pub to_float : Json → Result Decimal
  to_float (integer z) = ok (Decimal.of_ℤ z)
  to_float (float d) = ok d
  to_float (boolean b) = ok (Decimal.of_ℕ (if b then 1 else 0))
  to_float (str s) = elim (texts.read_float s) [ some d ↦ ok d | none ↦ err value_error ]
  to_float v = err type_error

  abbrev pub in_range : Decimal → Bool
  in_range d = Decimal.le (Decimal.of_ℕ 0) d && Decimal.le d (Decimal.of_ℕ 100)

  unfoldable pub parse_confidence : Option Json → Result Decimal
  parse_confidence none = ok (Decimal.of_ℕ 0)
  parse_confidence (some v) = to_float v >>= λ d. if in_range d then ok d else err value_error

  abbrev parse_reasoning : Option Json → String
  parse_reasoning none = ""
  parse_reasoning (some (str s)) = s
  parse_reasoning (some v) = texts.text_of v

  unfoldable pub parse : String → Result (Stance × Decimal × String)
  unfolding parse_confidence
  parse response = do
    data_ ← extract_json texts.loads response
    stance ← parse_stance (Dict.get "signal" data_)
    confidence ← parse_confidence (Dict.get "confidence" data_)
    ok (stance, confidence, parse_reasoning (Dict.get "reasoning" data_))

  unfoldable pub abstain : Advisor → FundamentalsSnapshot → String → String → AdvisorView
  abstain a snapshot raw_response reason = record {
    advisor = a.name;
    model = a.model;
    ticker = snapshot.ticker;
    as_of = snapshot.as_of;
    snapshot_hash = snapshot.content_hash;
    stance = neutral;
    confidence = Decimal.of_ℕ 0;
    reasoning = str_append "abstained: " reason;
    system_prompt = a.system_prompt;
    user_prompt = snapshot.rendered;
    raw_response = raw_response;
    abstained = true;
    abstain_reason = some reason;
  }

  unfoldable pub view_of :
      Advisor → FundamentalsSnapshot → String → Result (Stance × Decimal × String) → AdvisorView
  unfolding abstain
  view_of a snapshot response (err e) =
      abstain a snapshot response (str_append "parse failed: " (texts.message e))
  view_of a snapshot response (ok (stance, confidence, reasoning)) = record {
    advisor = a.name;
    model = a.model;
    ticker = snapshot.ticker;
    as_of = snapshot.as_of;
    snapshot_hash = snapshot.content_hash;
    stance = stance;
    confidence = confidence;
    reasoning = reasoning;
    system_prompt = a.system_prompt;
    user_prompt = snapshot.rendered;
    raw_response = response;
    abstained = false;
    abstain_reason = none;
  }

  unfoldable pub or_abstain : Advisor → FundamentalsSnapshot → Result String → AdvisorView
  unfolding abstain view_of parse
  or_abstain a snapshot (err e) =
      abstain a snapshot "" (str_append "LLM call failed: " (texts.message e))
  or_abstain a snapshot (ok response) = view_of a snapshot response (parse response)

  unfoldable pub form_view : Advisor → FundamentalsSnapshot → AdvisorView
  unfolding or_abstain
  form_view a snapshot = or_abstain a snapshot (a.complete a.system_prompt snapshot.rendered)
