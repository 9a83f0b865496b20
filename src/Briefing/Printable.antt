-- ===== src/Briefing/Printable.antt =====
-- When a briefing can be written: the template prints both ends of the range of an overlap.
use portfolio_copilot.Prelude.{
  ◌>>=◌, ◌++◌, ℕ, not-false, not-true, is_ok-returns, is_ok, Bool-cases, take, if◌then◌else◌,
  Result, List, Option, any, arith, type_error, is_some, ◌≡◌, not, String, ◌&&◌, Bool, refl, ok,
  err, none, some, true, false, [], ◌∷◌, inl, inr,
}
use portfolio_copilot.Ingest.{TradeDisclosureRow}
use portfolio_copilot.Briefing.Template.{
  template_summary, overlap_line, overlap_lines, overlap_section, has_amount, range_text,
  overlap_amount, BriefingContext, Format,
}
use portfolio_copilot.Prelude.Int.{ℤ}
use portfolio_copilot.Briefing.Model.{stored, target_of, context_of, persist, execute, summary_of}
use portfolio_copilot.Outbox.UnitOfWork.{collect}
use portfolio_copilot.Briefing.{
  filings, BriefingRow, BriefingContent, Work, GenerateBriefingCommand,
}
use portfolio_copilot.Decimal.Number.{Decimal}
use portfolio_copilot.Domain.Events.{DomainEvent}

-- A range with a lower end and no upper one, as "Over $50,000,000" is stored.
abbrev pub is_open_ended : TradeDisclosureRow → Bool
is_open_ended d = has_amount d.amount_range_low && not (is_some d.amount_range_high)

range_closed :
    (commas : ℤ → String) (low high : Option ℤ)
    → has_amount low && not (is_some high) ≡ false
    → is_ok (if has_amount low then range_text commas low high else ok "undisclosed") ≡ true
unfolding range_text
range_closed commas none high h = refl
range_closed commas (some z) none h = elim (Bool-cases (has_amount (some z))) [
  | inl t ↦ absurd (ground (arith, t, h))
  | inr f ↦ rw f refl
]
range_closed commas (some z) (some y) h = elim (Bool-cases (has_amount (some z))) [
  | inl t ↦ rw t refl
  | inr f ↦ rw f refl
]

amount-closed :
    (commas : ℤ → String) (d : TradeDisclosureRow)
    → is_open_ended d ≡ false
    → (s : String) × (overlap_amount commas d ≡ ok s)
unfolding overlap_amount
amount-closed commas d h =
    is_ok-returns _ (range_closed commas d.amount_range_low d.amount_range_high h)

amount-open :
    (commas : ℤ → String) (d : TradeDisclosureRow)
    → is_open_ended d ≡ true
    → overlap_amount commas d ≡ err type_error
unfolding overlap_amount range_text
amount-open commas d h = ground (arith, h)

module _ (fmt : Format) where
  lines-closed :
      (ds : List TradeDisclosureRow)
      → any is_open_ended ds ≡ false
      → (ls : List String) × (overlap_lines fmt ds ≡ ok ls)
  unfolding overlap_lines overlap_line
  lines-closed [] h = ([], refl)
  lines-closed (d ∷ ds) h = elim (Bool-cases (is_open_ended d)) [
    | inl t ↦ absurd (ground (arith, t, h))
    | inr f ↦
        let (s, e) = amount-closed fmt.commas d f in
        let (ls, k) = lines-closed ds (ground (arith, f, h)) in
        is_ok-returns (overlap_lines fmt (d ∷ ds)) (rw (e, k) refl)
  ]

  lines-open :
      (ds : List TradeDisclosureRow)
      → any is_open_ended ds ≡ true
      → overlap_lines fmt ds ≡ err type_error
  unfolding overlap_lines overlap_line
  lines-open [] h = cc
  lines-open (d ∷ ds) h = elim (Bool-cases (is_open_ended d)) [
    | inl t ↦ rw (amount-open fmt.commas d t) refl
    | inr f ↦
        let (s, e) = amount-closed fmt.commas d f in
        rw (e, lines-open ds (ground (arith, f, h))) refl
  ]

  section-closed :
      (ds : List TradeDisclosureRow)
      → any is_open_ended (take 15 ds) ≡ false
      → (ls : List String) × (overlap_section fmt ds ≡ ok ls)
  unfolding overlap_section
  section-closed [] h = ([], refl)
  section-closed (d ∷ ds) h =
      let (ls, e) = lines-closed (take 15 (d ∷ ds)) h in
      is_ok-returns (overlap_section fmt (d ∷ ds)) (rw e refl)

  section-open :
      (ds : List TradeDisclosureRow)
      → any is_open_ended (take 15 ds) ≡ true
      → overlap_section fmt ds ≡ err type_error
  unfolding overlap_section
  section-open [] h = cc
  section-open (d ∷ ds) h = rw (lines-open (take 15 (d ∷ ds)) h) refl

  -- Whether the briefing of a context can be printed.
  abbrev pub is_printable : BriefingContext → Bool
  is_printable ctx = not (any is_open_ended (take 15 ctx.overlaps))

  module _ (post : String → Option (String → Result String)) (provider api_key : String) where
    summary-closed :
        (ctx : BriefingContext)
        → is_printable ctx ≡ true
        → (s : String × String) × (summary_of fmt post provider api_key ctx ≡ ok s)
    unfolding summary_of template_summary
    summary-closed ctx h =
        let (ls, e) = section-closed ctx.overlaps (not-true _ h) in
        is_ok-returns (summary_of fmt post provider api_key ctx) (rw e refl)

    summary-open :
        (ctx : BriefingContext)
        → is_printable ctx ≡ false
        → summary_of fmt post provider api_key ctx ≡ err type_error
    unfolding summary_of template_summary
    summary-open ctx h = rw (section-open ctx.overlaps (not-false _ h)) refl

module _ (fmt : Format) (post : String → Option (String → Result String))
    (provider api_key : String) where
  -- The summary that is stored, if there is one.
  some_summary :
      (ctx : BriefingContext)
      → (s : String × String) × (summary_of fmt post provider api_key ctx
          ≡ (if is_printable fmt ctx then ok s else err type_error))
  some_summary ctx = elim (Bool-cases (is_printable fmt ctx)) [
    | inl t ↦ let (s, e) = summary-closed fmt post provider api_key ctx t in (s, rw (t, e) refl)
    | inr f ↦ (("", ""), rw (f, summary-open fmt post provider api_key ctx f) refl)
  ]

  -- What is written for a summary.
  persist_lem :
      (suffix : String) (target now : ℕ) (ctx : BriefingContext) (s : String × String) (w : Work)
      → let (c, w') = persist fmt suffix target now api_key ctx s w in
        (row : BriefingRow) × (event : DomainEvent) × (w' ≡ record w {
          briefings = w.briefings ++ row ∷ [];
          uow = record w.uow { events = w.uow.events ++ event ∷ [] };
        })
        × (row.referenced_disclosure_ids ≡ filings ctx.disclosures)
        × (event.aggregate_id ≡ row.briefing_id)
        × (c.summary_markdown ≡ row.summary_markdown)
  unfolding persist collect
  persist_lem suffix target now ctx s w = (_, _, refl, refl, refl, refl)

  stored-if :
      (b : Bool) (w : Work) (s : String × String) (write : String × String → BriefingContent × Work)
      {r : Result (String × String)}
      → r ≡ (if b then ok s else err type_error)
      → stored fmt w (r >>= λ summary. ok (write summary))
        ≡ (if b then (ok (write s).0, (write s).1) else (err type_error, w))
  stored-if true w s write e = rw e refl
  stored-if false w s write e = rw e refl

  execute_run :
      (cmd : GenerateBriefingCommand) (vix : Option (Result Decimal)) (suffix : String) (now : ℕ)
      (w : Work)
      → let target = target_of fmt cmd.for_date now in
        let ctx = context_of fmt target vix w in
        (s : String × String) × (execute fmt cmd vix post provider api_key suffix now w ≡ (
          if is_printable fmt ctx
          then (
            ok (persist fmt suffix target now api_key ctx s w).0,
            (persist fmt suffix target now api_key ctx s w).1,
          )
          else (err type_error, w)))
  unfolding execute
  execute_run cmd vix suffix now w =
      let target = target_of fmt cmd.for_date now in
      let ctx = context_of fmt target vix w in
      let (s, e) = some_summary ctx in
      (
        s,
        stored-if (is_printable fmt ctx) w s
            (λ summary. persist fmt suffix target now api_key ctx summary w) e,
      )

  -- A briefing is written exactly if none of the first fifteen disclosures that overlap the
  -- holdings has an open-ended range; whether there is a language model, and what it answers, does
  -- not matter. If one has, the use case raises a TypeError and stores nothing. If none has, it
  -- returns, stores one briefing that refers to the disclosures of the week, and collects one event.
  pub execute-IsPrintable :
      (cmd : GenerateBriefingCommand) (vix : Option (Result Decimal)) (suffix : String) (now : ℕ)
      (w : Work)
      → let ctx = context_of fmt (target_of fmt cmd.for_date now) vix w in
        (c : BriefingContent) × (w' : Work) × (row : BriefingRow) × (event : DomainEvent) × (execute
            fmt cmd vix post provider api_key suffix now w
          ≡ (if is_printable fmt ctx then (ok c, w') else (err type_error, w)))
        × (w' ≡ record w {
          briefings = w.briefings ++ row ∷ [];
          uow = record w.uow { events = w.uow.events ++ event ∷ [] };
        })
        × (row.referenced_disclosure_ids ≡ filings ctx.disclosures)
        × (event.aggregate_id ≡ row.briefing_id)
        × (c.summary_markdown ≡ row.summary_markdown)
  execute-IsPrintable cmd vix suffix now w =
      let target = target_of fmt cmd.for_date now in
      let ctx = context_of fmt target vix w in
      let (s, e) = execute_run cmd vix suffix now w in
      let p = persist_lem suffix target now ctx s w in (_, _, p.0, p.1, e, p.2, p.3, p.4, p.5)
