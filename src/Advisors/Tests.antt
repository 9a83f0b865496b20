-- ===== src/Advisors/Tests.antt =====
-- Answers of a language model and the views that an advisor forms of them.
use portfolio_copilot.Json.{Json, str, integer, object, field, no_fields}
use portfolio_copilot.Prelude.Int.{pos}
use portfolio_copilot.Advisors.Llm.{extract_json, fenced, first_block}
use portfolio_copilot.Advisors.Agent.{Texts, Advisor, FundamentalsSnapshot, bullish, form_view}
use portfolio_copilot.Advisors.Sound.{IsSound, form_view-IsSound}
use portfolio_copilot.Prelude.{
  str_eq, if◌then◌else◌, refl, Option, some, advisor_llm_error, llm_parse_error, ◌≡◌, err, ok, none,
  String, Result,
}

abbrev answer : Json
answer = object (field "signal" (str "Bullish") (field "confidence" (integer (pos 80)) no_fields))

abbrev loads : String → Option Json
loads s = if str_eq s "{\"a\": {}}" then some answer else none

abbrev texts : Texts
texts = record { loads = loads; text_of = λ v. ""; read_float = λ s. none; message = λ e. "" }

abbrev advisor : Result String → Advisor
advisor r = record {
  name = "graham";
  system_prompt = "be careful";
  model = "m";
  complete = λ s u. r;
}

abbrev snapshot : FundamentalsSnapshot
snapshot = record { ticker = "AAPL"; as_of = "2026-06-01"; content_hash = "h"; rendered = "facts" }

fence_found : fenced "So: ```json\n{\"a\": {}}\n``` done" ≡ some "{\"a\": {}}"
unfolding fenced portfolio_copilot.Prelude.Text.without_prefix portfolio_copilot.Prelude.Text.lstrip
fence_found = refl

block_found : first_block "I say {\"a\": {}} and {}" ≡ some "{\"a\": {}}"
unfolding first_block portfolio_copilot.Prelude.Text.split_first
block_found = refl

open_block : first_block "{\"a\": {}" ≡ none
unfolding first_block portfolio_copilot.Prelude.Text.split_first
open_block = refl

nothing_to_parse : extract_json loads "no" ≡ err llm_parse_error
unfolding extract_json portfolio_copilot.Prelude.Text.without_prefix
    portfolio_copilot.Prelude.Text.strip portfolio_copilot.Prelude.Text.split_first
nothing_to_parse = refl

view_formed : (form_view texts (advisor (ok "```{\"a\": {}}```")) snapshot).stance ≡ bullish
unfolding form_view extract_json portfolio_copilot.Prelude.Text.without_prefix
    portfolio_copilot.Prelude.Text.lstrip portfolio_copilot.Prelude.Dict.get
    portfolio_copilot.Prelude.Text.lower
view_formed = refl

view_abstained :
    (form_view texts (advisor (err advisor_llm_error)) snapshot).reasoning
    ≡ "abstained: LLM call failed: "
unfolding form_view
view_abstained = refl

form_view-IsSound_example :
    IsSound
      (advisor (ok "{\"a\": {}}"))
      snapshot
      (form_view texts (advisor (ok "{\"a\": {}}")) snapshot)
form_view-IsSound_example = form_view-IsSound texts (advisor (ok "{\"a\": {}}")) snapshot
