-- ===== src/Quotes/Counts.antt =====
-- refresh_quotes.py: the counts of a refresh, and the prices that it cannot take.
use portfolio_copilot.Prelude.{
  ap, >>=-err, ◌∙◌, >>=-ok, inl, inr, Result-cases, ◌++◌, Error, [], ◌∷◌, ok_injective, Result,
  money_precision, length-append, ◌<◌, length, ◌≡◌, arith, List, ◌+◌, Bool, String, ℕ, >>=-eq-ok,
  some, true, false, ok, err, refl,
}
use portfolio_copilot.Prelude.Dict
use portfolio_copilot.Prelude.Dict.{Dict}
use portfolio_copilot.Decimal
use portfolio_copilot.Decimal.{Decimal}
use portfolio_copilot.Domain.Money
use portfolio_copilot.Domain.Money.{Money}
use portfolio_copilot.Quotes.{
  quote_map, symbols_of, RefreshQuotesResult, QuoteEnrichment, with_quote, money_price, Totals,
  count, refresh_quotes, enrich, enrich_all,
}
use portfolio_copilot.Domain.Portfolio.{Position, Quote}
use portfolio_copilot.Domain.Symbol.{Symbol}

-- After `n` positions.
abbrev Counted : ℕ → Totals → Type 0
Counted n t = (t.fetched + t.missing ≡ n) × (length t.enriched ≡ n)

Counted-count :
    (n : ℕ) (e : Bool × QuoteEnrichment) (t : Totals) → Counted n t → Counted (n + 1) (count e t)
unfolding count
Counted-count n (true, e) t h = (omega (arith, h.0), rw length-append (omega (arith, h.1)))
Counted-count n (false, e) t h = (omega (arith, h.0), rw length-append (omega (arith, h.1)))

Counted-enrich_all :
    (quotes : Dict Quote) (ps : List Position) (n : ℕ) (t : Totals) {t' : Totals}
    → Counted n t
    → enrich_all quotes ps t ≡ ok t'
    → Counted (n + length ps) t'
unfolding enrich_all
Counted-enrich_all quotes [] n t h k =
    rw (← ok_injective k) (omega (arith, h.0), omega (arith, h.1))
Counted-enrich_all quotes (p ∷ ps) n t h k =
    let (e, _, k₁) = >>=-eq-ok (enrich p (Dict.get p.symbol.ticker quotes)) _ k in
    let (x, y) = Counted-enrich_all quotes ps (n + 1) (count e t) (Counted-count n e t h) k₁ in
    (omega (arith, x), omega (arith, y))

-- A refresh of quotes that returns has one enrichment for each position, and counts each position
-- once, as fetched or as missing.
pub refresh_quotes_counts :
    (id : String) (ps : List Position) (get_quotes : List Symbol → Result (List Quote)) (now : ℕ)
    {r : RefreshQuotesResult}
    → refresh_quotes id ps get_quotes now ≡ ok r
    → (r.quotes_fetched + r.quotes_missing ≡ length ps) × (length r.enriched ≡ length ps)
unfolding refresh_quotes
refresh_quotes_counts id [] get_quotes now h = rw (← ok_injective h) (omega arith, refl)
refresh_quotes_counts id (p ∷ ps) get_quotes now h =
    let (quotes, _, h₁) = >>=-eq-ok (get_quotes (symbols_of (p ∷ ps))) _ h in
    let start : Totals = record { fetched = 0; missing = 0; enriched = [] } in
    let (t, looped, h₂) = >>=-eq-ok (enrich_all (quote_map quotes []) (p ∷ ps) start) _ h₁ in
    let (x, y) =
      Counted-enrich_all (quote_map quotes []) (p ∷ ps) 0 start (omega arith, refl) looped in
    rw (← ok_injective h₂) (omega (arith, x), omega (arith, y))

-- A positive price with more than four places that four places can express, which is one written
-- with zeros at its end.
pub record IsPadded (q : Quote) : Type 0 where
  pub positive : Decimal.is_pos q.last ≡ true
  pub long : 4 < q.last.scale
  pub padded : Decimal.same_value (Decimal.quantize q.last 4) q.last ≡ true

padded_price : (p : Position) (q : Quote) → IsPadded q → enrich p (some q) ≡ err money_precision
unfolding enrich money_price with_quote Money.make_money
padded_price p q v = ground (arith, v.positive, v.long, v.padded)

padded_raises :
    (quotes : Dict Quote) (front : List Position) (p : Position) (back : List Position) (q : Quote)
    (t : Totals)
    → Dict.get p.symbol.ticker quotes ≡ some q
    → IsPadded q
    → (e : Error) × (enrich_all quotes (front ++ p ∷ back) t ≡ err e)
unfolding enrich_all
padded_raises quotes [] p back q t found v = (money_precision, rw (found, padded_price p q v) refl)
padded_raises quotes (x ∷ front) p back q t found v =
    elim (Result-cases (enrich x (Dict.get x.symbol.ticker quotes))) [
      | inr (e, failed) ↦ (e, rw failed refl)
      | inl (y, turn) ↦
          let (e, rest) = padded_raises quotes front p back q (count y t) found v in
          (e, rw (turn, rest) refl)
    ]

-- A positive price with more than four places, those after the fourth zeros, is not rounded: a
-- refresh of quotes over any positions raises if one of them has such a price.
pub trailing_zeros_raise :
    (id : String) (x : Position) (xs front : List Position) (p : Position) (back : List Position)
    (get_quotes : List Symbol → Result (List Quote)) (now : ℕ) (quotes : List Quote) (q : Quote)
    → x ∷ xs ≡ front ++ p ∷ back
    → get_quotes (symbols_of (x ∷ xs)) ≡ ok quotes
    → Dict.get p.symbol.ticker (quote_map quotes []) ≡ some q
    → IsPadded q
    → (e : Error) × (refresh_quotes id (x ∷ xs) get_quotes now ≡ err e)
unfolding refresh_quotes
trailing_zeros_raise id x xs front p back get_quotes now quotes q split asked found v =
    let start : Totals = record { fetched = 0; missing = 0; enriched = [] } in
    let (e, failed) = padded_raises (quote_map quotes []) front p back q start found v in
    let failed' : enrich_all (quote_map quotes []) (x ∷ xs) start ≡ err e =
      ap (λ l. enrich_all (quote_map quotes []) l start) split ∙ failed in
    (
      e,
      >>=-ok (get_quotes (symbols_of (x ∷ xs))) _ asked
          ∙ >>=-err (enrich_all (quote_map quotes []) (x ∷ xs) start) _ failed',
    )
