-- ===== src/Ledger/Digest.antt =====
-- The digest use case around the ledger: what it gathers, which text it keeps, and what it stores.
-- The texts that are written for people and for the model are `Texts`, functions of what was gathered;
-- the files of account holdings are arguments, as they were read. Dates are days.
use portfolio_copilot.Prelude.{
  ◌++◌, select, codes, length, ◌-◌, ltb, ◌*◌, Bool, if◌then◌else◌, ◌+◌, ℕ, Option, String, List,
  Result, ok, err, none, some, true, false, [], ◌∷◌, ◌>>=◌,
}
use portfolio_copilot.Decimal
use portfolio_copilot.Decimal.{Decimal}
use portfolio_copilot.Prelude.Dict.{Dict}
use portfolio_copilot.Domain.Events.{EventType, AggregateType, DomainEvent, digested}
use portfolio_copilot.Outbox.UnitOfWork.{UnitOfWork, collect}
use portfolio_copilot.Ingest.{TradeDisclosureRow}
use portfolio_copilot.Positions.Tables.{PositionRow}
use portfolio_copilot.Ledger.Row.{Amount, Amount, RecommendationRow, day}
use portfolio_copilot.Ledger.Record.{record_recommendation, ParsedRecommendation, hold_fallback}
use portfolio_copilot.Prelude.Text.{concat, strip, rstrip, is_blank, split_last}
use portfolio_copilot.Ledger.Detect.{ledger_pre_digest, LiveBroker}
use portfolio_copilot.Domain.Portfolio.{Position}
use portfolio_copilot.Briefing.{fetch_held_tickers, is_overlap, fetch_disclosures}
use portfolio_copilot.Ledger.Block.{strip_recommendation_block, parse_recommendation_block}

pub record DigestRow : Type 0 where
  pub digest_id : String
  pub digest_date : ℕ
  pub summary_markdown : String
  pub push_excerpt : String
  pub model : String
  pub net_liquidation : Option String
  pub cash_to_deploy : Option String
  pub disclosures_count : ℕ
  pub body_blob_key : Option String
  pub generated_at : ℕ

-- `_Pos` and `_Account`
pub record Pos : Type 0 where
  pub sym : String
  pub qty : Decimal
  pub mv : Decimal
  pub pnl : Decimal

pub record AccountFile : Type 0 where
  pub name : String
  pub managed : Bool
  pub cash : Decimal
  pub positions : List Pos

-- What the use case reads and writes.
pub record DigestWork : Type 0 where
  pub trade_disclosures : List TradeDisclosureRow
  pub positions : List PositionRow
  pub recommendations : List RecommendationRow
  pub digests : List DigestRow
  pub uow : UnitOfWork

pos_of : PositionRow → Pos
pos_of r = record { sym = r.symbol; qty = r.quantity; mv = r.market_value; pnl = r.unrealized_pnl }

insert_by_value : Pos → List Pos → List Pos
insert_by_value p [] = p ∷ []
insert_by_value p (q ∷ qs) =
    let rest = insert_by_value p qs in if Decimal.le q.mv p.mv then p ∷ q ∷ qs else q ∷ rest

-- `_fetch_positions`: the largest market value first.
unfoldable pub fetch_positions : List PositionRow → List Pos
unfolding pos_of insert_by_value
fetch_positions [] = []
fetch_positions (r ∷ rs) = insert_by_value (pos_of r) (fetch_positions rs)

unfoldable pub total_of : List Pos → Decimal
total_of [] = Decimal.of_ℕ 0
total_of (p ∷ ps) = Decimal.add p.mv (total_of ps)

-- What the texts are made of.
pub record Gathered : Type 0 where
  pub target_date : ℕ
  pub positions : List Pos
  pub total_sec : Decimal
  pub disclosures : List TradeDisclosureRow
  pub overlaps : List TradeDisclosureRow
  pub regime : String
  pub cash_to_deploy : String
  pub individual : Option AccountFile
  pub joint_managed : Bool

pub record Texts : Type 0 where
  pub build_context : Gathered → List RecommendationRow → String
  pub template_digest : Gathered → String
  pub template_push : Gathered → String
  pub iso : ℕ → String
  pub decimal : Decimal → String

-- Real cash, if the file of the individual account was read.
abbrev cash_of : (Decimal → String) → String → Option AccountFile → String
cash_of show cash none = cash
cash_of show cash (some a) = show a.cash

abbrev is_managed : Option AccountFile → Bool
is_managed none = false
is_managed (some a) = a.managed

unfoldable pub gather :
    Texts
    → (target : ℕ) → (regime cash : String) → (joint individual : Option AccountFile) → DigestWork
    → Gathered
unfolding fetch_positions total_of
gather texts target regime cash joint individual w =
    let end = target + 1 in
    let disclosures = fetch_disclosures (end - 45) end w.trade_disclosures in
    let positions = fetch_positions w.positions in
    record {
      target_date = target;
      positions = positions;
      total_sec = total_of positions;
      disclosures = disclosures;
      overlaps = select (is_overlap (fetch_held_tickers w.positions)) disclosures;
      regime = regime;
      cash_to_deploy = cash_of texts.decimal cash individual;
      individual = individual;
      joint_managed = is_managed joint;
    }

-- A text, its push excerpt, and whether the model wrote it.
pub record Draft : Type 0 where
  pub summary : String
  pub push : String
  pub by_model : Bool

-- The answer of the model is kept if it is longer than 200 characters.
abbrev or_template : Draft → Result (String × String) → Draft
or_template t (err e) = t
or_template t (ok (md, excerpt)) =
    if ltb 200 (length (codes md))
    then record {
      summary = md;
      push = if is_blank excerpt then t.push else excerpt;
      by_model = true;
    }
    else t

-- `_call_openrouter`, given the text that the provider answers.
unfoldable pub call_openrouter : Result String → Result (String × String)
call_openrouter answer = answer >>= λ text. ok (elim (split_last "PUSH:" text) [
  | none ↦ (text, "")
  | some (head, tail) ↦ (rstrip head, strip tail)
])

unfoldable pub draft_of :
    (api_key : String) → (String → Result String) → Texts → Gathered → String → Draft
unfolding call_openrouter
draft_of api_key post texts g context =
    let template : Draft = record {
      summary = texts.template_digest g;
      push = texts.template_push g;
      by_model = false;
    } in
    if is_blank api_key then template else or_template template (call_openrouter (post context))

-- The recommendation of a draft, and the text without its block.
unfoldable pub read_draft :
    (String → Option Amount) → (String → Option ℕ) → ℕ → Draft → ParsedRecommendation × String
read_draft read_amount read_date digest_dt d =
    if d.by_model
    then (
      parse_recommendation_block read_amount read_date d.summary digest_dt,
      strip_recommendation_block d.summary,
    )
    else (hold_fallback "frontier model unavailable — template digest" digest_dt, d.summary)

module _ (texts : Texts) (read_amount : String → Option Amount) (read_date : String → Option ℕ)
    (api_key model : String) (post : String → Result String) where
  -- What is stored once the ledger has been prepared; `suffix` is the end of the identifier.
  unfoldable pub store_digest :
      (suffix recommendation_id : String)
      → (target now : ℕ) → Gathered
      → Dict Position
      → Option Decimal
      → DigestWork
      → DigestWork
  unfolding draft_of read_draft collect
  store_digest suffix rec_id target now g positions cash w =
      let draft = draft_of api_key post texts g (texts.build_context g w.recommendations) in
      let (parsed, summary) = read_draft read_amount read_date (target * day) draft in
      let model_used : String = if draft.by_model then model else "template" in
      let generated_by : String = if draft.by_model then "openrouter" else "template" in
      let id = concat ("digest-" ∷ texts.iso target ∷ "-" ∷ suffix ∷ []) in
      let row : DigestRow = record {
        digest_id = id;
        digest_date = target;
        summary_markdown = summary;
        push_excerpt = draft.push;
        model = model_used;
        net_liquidation = some (texts.decimal (Decimal.quantize g.total_sec 2));
        cash_to_deploy = some g.cash_to_deploy;
        disclosures_count = length g.disclosures;
        body_blob_key = none;
        generated_at = now;
      } in
      let event : DomainEvent = record {
        type = EventType.briefing_produced;
        aggregate_id = id;
        aggregate_type = AggregateType.briefing;
        payload =
            digested id target (length g.disclosures) (length g.overlaps) generated_by model_used;
        schema_version = 1;
      } in
      record w {
        digests = w.digests ++ row ∷ [];
        recommendations =
            record_recommendation parsed rec_id (target * day) now positions cash w.recommendations;
        uow = collect (event ∷ []) w.uow;
      }

  unfoldable pub execute :
      Option LiveBroker
      → (account suffix recommendation_id : String) → (target now : ℕ) → (regime cash : String)
      → (joint individual : Option AccountFile) → DigestWork
      → Result DigestWork
  unfolding gather store_digest
  execute broker account suffix rec_id target now regime cash joint individual w = do
    (rows, positions, live_cash) ← ledger_pre_digest broker account now w.recommendations
    let w₁ = record w { recommendations = rows }
    let g = gather texts target regime cash joint individual w₁
    ok (store_digest suffix rec_id target now g positions live_cash w₁)
