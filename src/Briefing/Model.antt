-- ===== src/Briefing/Model.antt =====
-- The summary of a language model, and the use case.
use portfolio_copilot.Prelude.{
  select, ◌&&◌, ◌-◌, is_nil, ◌++◌, not, length, ◌+◌, ◌*◌, ◌/◌, take, Exec, if◌then◌else◌, List,
  Option, Result, ℕ, String, ok, err, none, some, [], ◌∷◌, ◌>>=◌,
}
use portfolio_copilot.Decimal.{Decimal}
use portfolio_copilot.Domain.Congress.{TransactionType}
use portfolio_copilot.Domain.Events.{EventType, AggregateType, DomainEvent, briefed}
use portfolio_copilot.Outbox.UnitOfWork.{collect}
use portfolio_copilot.Ingest.{TradeDisclosureRow}
use portfolio_copilot.Briefing.{
  is_overlap, assess_market_regime, filings, fetch_held_tickers, fetch_disclosures, Work,
  BriefingRow, BriefingContent, GenerateBriefingCommand,
}
use portfolio_copilot.Briefing.Template.{
  symbol_or, sorted_set, range_text, template_summary, excerpt_of, BriefingContext, Format,
}
use portfolio_copilot.Prelude.Text.{
  has_part, strip, join, is_blank, one_of, lower, rstrip, split_last, first_chars, concat,
}

-- `transaction_type` as the column holds it
unfoldable pub type_name : TransactionType → String
type_name TransactionType.purchase = "PURCHASE"
type_name TransactionType.sale = "SALE"
type_name TransactionType.sale_partial = "SALE_PARTIAL"
type_name TransactionType.exchange = "EXCHANGE"
type_name TransactionType.other = "OTHER"

module _ (fmt : Format) where
  -- A disclosure in the prompt. `d in ctx.overlaps` compares rows of one session, which are the
  -- same object if their filings are the same. The sign has no variation selector here.
  prompt_line : List TradeDisclosureRow → TradeDisclosureRow → Result String
  unfolding type_name range_text
  prompt_line overlaps d = do
    amount ← range_text fmt.commas d.amount_range_low d.amount_range_high
    let overlap = if one_of d.filing_id (filings overlaps) then " ⚠ OVERLAPS YOUR PORTFOLIO" else ""
    ok (
        concat (
          "- "
          ∷ d.member_name
          ∷ " ("
          ∷ type_name d.transaction_type
          ∷ ") "
          ∷ symbol_or d.asset_description d.symbol
          ∷ " "
          ∷ amount
          ∷ " (traded "
          ∷ fmt.iso d.transaction_date
          ∷ ", filed "
          ∷ fmt.iso d.disclosure_date
          ∷ ", lag=?d)"
          ∷ overlap
          ∷ []))

  prompt_lines : List TradeDisclosureRow → List TradeDisclosureRow → Result (List String)
  unfolding prompt_line
  prompt_lines overlaps [] = ok []
  prompt_lines overlaps (d ∷ ds) = do
    line ← prompt_line overlaps d
    more ← prompt_lines overlaps ds
    ok (line ∷ more)

  unfoldable pub build_llm_prompt : BriefingContext → Result String
  unfolding prompt_lines
  build_llm_prompt ctx = do
    lines ← prompt_lines ctx.overlaps (take 30 ctx.disclosures)
    ok (
        join "\n" (
          concat ("Date: " ∷ fmt.iso ctx.date ∷ [])
            ∷ concat ("Market regime: " ∷ ctx.market_regime ∷ [])
            ∷ concat ("Held tickers: " ∷ join ", " (take 30 ctx.held_tickers) ∷ [])
            ∷ ""
            ∷ concat (
                "New Congressional trade disclosures ("
                ∷ fmt.show (length ctx.disclosures)
                ∷ " total):"
                ∷ [])
            ∷ ""
            ∷ lines
          ++ ""
            ∷ "Summarize these disclosures. Highlight any that overlap the held tickers. Note the disclosure lag (trades are 30-45 days old by law). Do NOT recommend trades."
            ∷ []))

  -- The push excerpt behind the last "PUSH:" of the model's text.
  unfoldable pub split_push : String → String → String × String
  split_push fallback text = elim (split_last "PUSH:" text) [
    | none ↦ (text, fallback)
    | some (body, push) ↦ (rstrip body, strip push)
  ]

  -- `_call_anthropic`, `_call_openai` and `_call_litellm`, which differ in their requests.
  call_model : (String → Result String) → BriefingContext → Result (String × String)
  unfolding build_llm_prompt split_push excerpt_of
  call_model post ctx = do
    prompt ← build_llm_prompt ctx
    text ← post prompt
    ok (split_push (excerpt_of fmt ctx) text)

  abbrev or_template : String × String → Result (String × String) → String × String
  or_template template (ok answer) = answer
  or_template template (err e) = template

  -- `_generate_llm_summary`, once the template is there; any exception gives the template.
  unfoldable pub generate_llm_summary :
      (String → Option (String → Result String))
      → String
      → String × String
      → BriefingContext
      → String × String
  unfolding call_model
  generate_llm_summary post provider template ctx =
      if one_of provider ("anthropic" ∷ "litellm" ∷ "openai" ∷ [])
      then elim (post provider) [
        | none ↦ template
        | some send ↦ or_template template (call_model send ctx)
      ]
      else template

  -- A summary that denies the disclosures that are there is replaced by the template.
  unfoldable pub choose_summary :
      BriefingContext → String × String → String × String → String × String
  choose_summary ctx template (summary, excerpt) =
      let opening = first_chars 200 (lower summary) in
      if not (is_nil ctx.disclosures) && (has_part "no" opening && has_part "disclos" opening)
      then template
      else (summary, excerpt)

  abbrev day_of : ℕ → ℕ
  day_of now = now / (24 * 60 * 60 * 1000000)

  abbrev pub target_of : Option ℕ → ℕ → ℕ
  target_of none now = day_of now
  target_of (some d) now = d

  -- What is gathered before the summary.
  unfoldable pub context_of : ℕ → Option (Result Decimal) → Work → BriefingContext
  unfolding fetch_disclosures fetch_held_tickers sorted_set assess_market_regime
  context_of target vix w =
      let end = target + 1 in
      let disclosures = fetch_disclosures (end - 7) end w.trade_disclosures in
      let held = fetch_held_tickers w.positions in
      record {
        date = target;
        disclosures = disclosures;
        overlaps = select (is_overlap held) disclosures;
        held_tickers = sorted_set held;
        market_regime = assess_market_regime fmt.decimal vix;
      }

  -- The summary that is stored: `api_key` is empty without a model.
  unfoldable pub summary_of :
      (String → Option (String → Result String))
      → String
      → String
      → BriefingContext
      → Result (String × String)
  unfolding template_summary generate_llm_summary choose_summary
  summary_of post provider api_key ctx = do
    template ← template_summary fmt ctx
    ok (
        if is_blank api_key
        then template
        else choose_summary ctx template (generate_llm_summary post provider template ctx))

  abbrev generated_by : String → String
  generated_by api_key = if is_blank api_key then "template" else "llm"

  -- The row, the event and the result.
  unfoldable pub persist :
      String → ℕ → ℕ → String → BriefingContext → String × String → Work → BriefingContent × Work
  unfolding collect
  persist suffix target now api_key ctx (summary, excerpt) w =
      let id = concat ("briefing-" ∷ fmt.iso target ∷ "-" ∷ suffix ∷ []) in
      let ids = filings ctx.disclosures in
      let row : BriefingRow = record {
        briefing_id = id;
        briefing_date = target;
        period_start = target + 1 - 7;
        period_end = target + 1;
        summary_markdown = summary;
        push_excerpt = excerpt;
        referenced_signal_ids = [];
        referenced_disclosure_ids = ids;
        body_blob_key = none;
        generated_at = now;
      } in
      let event : DomainEvent = record {
        type = EventType.briefing_produced;
        aggregate_id = id;
        aggregate_type = AggregateType.briefing;
        payload =
            briefed id target (length ctx.disclosures) (length ctx.overlaps) ctx.market_regime
              (generated_by api_key);
        schema_version = 1;
      } in
      (
        record {
          briefing_id = id;
          briefing_date = target;
          period_start = target + 1 - 7;
          period_end = target + 1;
          summary_markdown = summary;
          push_excerpt = excerpt;
          referenced_disclosure_ids = ids;
          disclosures_count = length ctx.disclosures;
          portfolio_overlaps = length ctx.overlaps;
          market_regime = ctx.market_regime;
          generated_at = now;
        },
        record w { briefings = w.briefings ++ row ∷ []; uow = collect (event ∷ []) w.uow },
      )

  abbrev pub stored : Work → Result (BriefingContent × Work) → Result BriefingContent × Work
  stored w (ok (c, w')) = (ok c, w')
  stored w (err e) = (err e, w)

  -- `suffix` is what `uuid4` gives the identifier.
  unfoldable pub execute :
      GenerateBriefingCommand
      → Option (Result Decimal)
      → (String → Option (String → Result String))
      → String
      → String
      → String
      → ℕ
      → Exec Work BriefingContent
  unfolding context_of summary_of persist
  execute cmd vix post provider api_key suffix now w =
      let target = target_of cmd.for_date now in
      let ctx = context_of target vix w in
      stored w (do
        summary ← summary_of post provider api_key ctx
        ok (persist suffix target now api_key ctx summary w))
