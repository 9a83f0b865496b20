-- ===== src/Ledger/DigestLedger.antt =====
-- The digest use case next to a run of the ledger.
use portfolio_copilot.Prelude.{
  >>=-ok, ◌∙◌, sym, ok_injective, ap, ◌*◌, Result, str_eq, ℕ, if◌then◌else◌, Option, ◌≡◌, String,
  refl, ok, none, some, ◌>>=◌, >>=-eq-ok,
}
use portfolio_copilot.Decimal
use portfolio_copilot.Decimal.{Decimal}
use portfolio_copilot.Ledger.Row.{Amount, number, number, Amount, day, buy, Window}
use portfolio_copilot.Ledger.Record.{
  record_recommendation, hold_fallback, ParsedRecommendation, run_ledger,
}
use portfolio_copilot.Ledger.Digest.{
  gather, Gathered, Texts, DigestWork, AccountFile, execute, store_digest,
}
use portfolio_copilot.Ledger.Block.{strip_recommendation_block, parse_recommendation_block}
use portfolio_copilot.Ledger.Detect.{ledger_pre_digest, LiveBroker}
use portfolio_copilot.Prelude.Dict.{Dict}
use portfolio_copilot.Domain.Portfolio.{Position}

module _ (texts : Texts) (read_amount : String → Option Amount) (read_date : String → Option ℕ)
    (api_key model : String) (post : String → Result String) where
  store_digest-recommendations :
      (suffix rec_id : String) (target now : ℕ) (g : Gathered) (positions : Dict Position)
      (cash : Option Decimal) (w : DigestWork)
      → (parsed : ParsedRecommendation) × ((store_digest texts read_amount read_date api_key model
            post suffix rec_id target now g positions cash w).recommendations
          ≡ record_recommendation parsed rec_id (target * day) now positions cash w.recommendations)
  unfolding store_digest
  store_digest-recommendations suffix rec_id target now g positions cash w = (_, refl)

  -- A digest that returns has run the ledger on some recommendation.
  execute-run_ledger :
      (broker : Option LiveBroker) (account suffix rec_id : String) (target now : ℕ)
      (regime cash : String) (joint individual : Option AccountFile) (w : DigestWork)
      {w' : DigestWork}
      → execute texts read_amount read_date api_key model post broker account suffix rec_id target
          now regime cash joint individual w
        ≡ ok w'
      → (parsed : ParsedRecommendation) × (run_ledger broker account parsed rec_id
            (target * day)
            now
            w.recommendations
          ≡ ok w'.recommendations)
  unfolding execute run_ledger
  execute-run_ledger broker account suffix rec_id target now regime cash joint individual w {w'} h =
      let ((rows, positions, live_cash), e, k) =
        >>=-eq-ok (ledger_pre_digest broker account now w.recommendations) _ h in
      let w₁ = record w { recommendations = rows } in
      let g = gather texts target regime cash joint individual w₁ in
      let (parsed, q) =
        store_digest-recommendations suffix rec_id target now g positions live_cash w₁ in
      let same : store_digest texts read_amount read_date api_key model post suffix rec_id target
            now g positions live_cash w₁
          ≡ w' =
        ok_injective k in
      (
        parsed,
        >>=-ok (ledger_pre_digest broker account now w.recommendations) _ e
            ∙ ap ok (sym q ∙ ap (λ (v : DigestWork). v.recommendations) same),
      )

abbrev read_amount : String → Option Amount
read_amount s = if str_eq s "1500" then some (number (Decimal.of_ℕ 1500)) else none

abbrev read_date : String → Option ℕ
read_date s = if str_eq s "2026-07-01" then some 20635 else none

abbrev answer : String
answer =
    "## Action\nBUY\n```text\n<<<RECOMMENDATION>>>\nverb: buy\nsymbol: NVDA\namount_usd: $1,500\nwindow: This-Week\nrationale: a: b\nsupersedes: 2026-07-01\n<<<END>>>\n```\n"

bought : parse_recommendation_block read_amount read_date answer 0 ≡ record {
  verb = buy;
  symbol = some "NVDA";
  amount_usd = some (number (Decimal.of_ℕ 1500));
  window = Window.this_week;
  due_date = 604800000000;
  rationale = "a: b";
  supersedes_day = some 20635;
}
unfolding parse_recommendation_block portfolio_copilot.Prelude.Text.without_prefix
    portfolio_copilot.Prelude.Text.split_first portfolio_copilot.Prelude.Text.lstrip
    portfolio_copilot.Prelude.Text.upper portfolio_copilot.Prelude.Dict.get
    portfolio_copilot.Prelude.Text.strip portfolio_copilot.Prelude.Dict.put
    portfolio_copilot.Prelude.Text.lower portfolio_copilot.Prelude.Text.replace_char
    portfolio_copilot.Ledger.Row.window_days portfolio_copilot.Ledger.Record.clip
bought = refl

shown : strip_recommendation_block answer ≡ "## Action\nBUY"
unfolding strip_recommendation_block portfolio_copilot.Prelude.Text.rstrip
    portfolio_copilot.Prelude.Text.without_prefix portfolio_copilot.Prelude.Text.split_first
shown = refl

no_block :
    parse_recommendation_block read_amount read_date "verb: BUY" 0
    ≡ hold_fallback "no recommendation block found" 0
unfolding hold_fallback parse_recommendation_block portfolio_copilot.Prelude.Text.without_prefix
no_block = refl

unknown_verb :
    parse_recommendation_block read_amount read_date "<<<RECOMMENDATION>>>\nverb: sell\n<<<END>>>" 0
    ≡ hold_fallback "unknown verb: SELL" 0
unfolding hold_fallback parse_recommendation_block portfolio_copilot.Prelude.Text.without_prefix
    portfolio_copilot.Prelude.Text.split_first portfolio_copilot.Prelude.Text.lstrip
    portfolio_copilot.Prelude.Text.upper portfolio_copilot.Prelude.Dict.get
    portfolio_copilot.Prelude.Text.strip portfolio_copilot.Prelude.Dict.put
    portfolio_copilot.Prelude.Text.lower
unknown_verb = refl
