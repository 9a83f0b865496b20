-- ===== src/Ledger/BlockTests.antt =====
-- Runs of the reading and the removal of a block.
use portfolio_copilot.Ledger.Block.{parse_recommendation_block, strip_recommendation_block}
use portfolio_copilot.Ledger.Record.{ParsedRecommendation, hold_fallback}
use portfolio_copilot.Ledger.Row.{Amount, Amount, this_week, day, buy}
use portfolio_copilot.Prelude.{◌*◌, ℕ, none, refl, some, Option, String, ◌≡◌}

abbrev digest_text : String
digest_text =
    "Buy it.\n```text\n<<<RECOMMENDATION>>>\nVerb: buy\nsymbol: AAPL\nwindow: This-Week\nnote\nrationale: cheap: yes\n<<<END>>>\n```\n"

abbrev no_amount : String → Option Amount
no_amount s = none

abbrev no_date : String → Option ℕ
no_date s = none

stripped : strip_recommendation_block digest_text ≡ "Buy it."
unfolding strip_recommendation_block portfolio_copilot.Prelude.Text.rstrip
    portfolio_copilot.Prelude.Text.without_prefix portfolio_copilot.Prelude.Text.split_first
stripped = refl

unclosed_is_kept :
    strip_recommendation_block "a <<<RECOMMENDATION>>>\nverb: BUY"
    ≡ "a <<<RECOMMENDATION>>>\nverb: BUY"
unfolding strip_recommendation_block portfolio_copilot.Prelude.Text.rstrip
    portfolio_copilot.Prelude.Text.without_prefix portfolio_copilot.Prelude.Text.split_first
unclosed_is_kept = refl

abbrev parsed : ParsedRecommendation
parsed = record {
  verb = buy;
  symbol = some "AAPL";
  amount_usd = none;
  window = this_week;
  due_date = 7 * day;
  rationale = "cheap: yes";
  supersedes_day = none;
}

block_read : parse_recommendation_block no_amount no_date digest_text 0 ≡ parsed
unfolding parse_recommendation_block portfolio_copilot.Prelude.Text.without_prefix
    portfolio_copilot.Prelude.Text.split_first portfolio_copilot.Prelude.Text.lstrip
    portfolio_copilot.Prelude.Text.upper portfolio_copilot.Prelude.Dict.get
    portfolio_copilot.Prelude.Text.strip portfolio_copilot.Prelude.Dict.put
    portfolio_copilot.Prelude.Text.lower portfolio_copilot.Ledger.Row.window_days
    portfolio_copilot.Ledger.Record.clip
block_read = refl

unknown_verb :
    parse_recommendation_block no_amount no_date "<<<RECOMMENDATION>>>\nverb: sell\n<<<END>>>" 0
    ≡ hold_fallback "unknown verb: SELL" 0
unfolding hold_fallback parse_recommendation_block portfolio_copilot.Prelude.Text.without_prefix
    portfolio_copilot.Prelude.Text.split_first portfolio_copilot.Prelude.Text.lstrip
    portfolio_copilot.Prelude.Text.upper portfolio_copilot.Prelude.Dict.get
    portfolio_copilot.Prelude.Text.strip portfolio_copilot.Prelude.Dict.put
    portfolio_copilot.Prelude.Text.lower
unknown_verb = refl

no_block :
    parse_recommendation_block no_amount no_date "<<<RECOMMENDATION>>> verb: buy <<<END>>>" 0
    ≡ hold_fallback "no recommendation block found" 0
unfolding hold_fallback parse_recommendation_block portfolio_copilot.Prelude.Text.without_prefix
no_block = refl
