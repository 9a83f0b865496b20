-- ===== src/Quotes.antt =====
-- application/market_data/refresh_quotes.py. The market data is what `get_quotes` returns for the
-- symbols of the positions.
pub mod Counts
mod Tests
use portfolio_copilot.Prelude.{
  codes, ◌++◌, [], Option, ℕ, ◌+◌, ◌∷◌, Bool, String, List, Result, if◌then◌else◌, ◌>>=◌, none,
  some, true, false, ok, err,
}
use portfolio_copilot.Prelude.Dict
use portfolio_copilot.Prelude.Dict.{Dict}
use portfolio_copilot.Decimal
use portfolio_copilot.Decimal.{Decimal}
use portfolio_copilot.Domain.Money
use portfolio_copilot.Domain.Money.{Money}
use portfolio_copilot.Domain.Symbol.{Symbol, is_empty}
use portfolio_copilot.Domain.Portfolio.{Position, Quote}

pub record QuoteEnrichment : Type 0 where
  pub symbol : String
  pub quantity : Decimal
  pub cost_basis_per_share : Money
  pub live_price : Option Money
  pub live_market_value : Option Money
  pub live_unrealized_pnl : Option Money
  pub price_change_pct : Option Decimal
  pub quote_time : Option ℕ

pub record RefreshQuotesResult : Type 0 where
  pub account_id : String
  pub enriched : List QuoteEnrichment
  pub quotes_fetched : ℕ
  pub quotes_missing : ℕ
  pub refreshed_at : ℕ

-- The price of a quote, rounded to four places if that changes its value.
unfoldable pub money_price : Decimal → Decimal
money_price last =
    let rounded = Decimal.quantize last 4 in
    if Decimal.same_value rounded last then last else rounded

-- The enrichment of a position without a usable quote.
unfoldable pub without_quote : Position → QuoteEnrichment
without_quote p = record {
  symbol = p.symbol.ticker;
  quantity = p.quantity;
  cost_basis_per_share = p.average_cost;
  live_price = none;
  live_market_value = none;
  live_unrealized_pnl = none;
  price_change_pct = none;
  quote_time = none;
}

unfoldable pub change_pct : Decimal → Decimal → Result Decimal
change_pct last cost =
    if Decimal.is_zero cost then ok (Decimal.quantize (Decimal.of_ℕ 0) 2) else (do
      ratio ← Decimal.div (Decimal.sub last cost) cost
      ok (Decimal.quantize (Decimal.mul ratio (Decimal.of_ℕ 100)) 2))

unfoldable pub with_quote : Position → Decimal → ℕ → Result QuoteEnrichment
unfolding change_pct
with_quote p last time = do
  let currency = p.market_value.currency
  live_price ← Money.make_money last currency
  live_mv ← Money.make_money (Decimal.quantize (Decimal.mul last p.quantity) 4) currency
  let cost_total = Decimal.mul p.average_cost.amount p.quantity
  live_pnl ← Money.make_money (Decimal.quantize (Decimal.sub live_mv.amount cost_total) 4) currency
  pct ← change_pct last p.average_cost.amount
  ok (record {
    symbol = p.symbol.ticker;
    quantity = p.quantity;
    cost_basis_per_share = p.average_cost;
    live_price = some live_price;
    live_market_value = some live_mv;
    live_unrealized_pnl = some live_pnl;
    price_change_pct = some pct;
    quote_time = some time;
  })

-- A turn of the loop: whether a usable quote was there, and the enrichment.
unfoldable pub enrich : Position → Option Quote → Result (Bool × QuoteEnrichment)
unfolding money_price with_quote without_quote
enrich p none = ok (false, without_quote p)
enrich p (some q) =
    let last = money_price q.last in
    if Decimal.is_pos last
    then (do e ← with_quote p last q.timestamp; ok (true, e))
    else ok (false, without_quote p)

-- The variables of the loop.
pub record Totals : Type 0 where
  pub fetched : ℕ
  pub missing : ℕ
  pub enriched : List QuoteEnrichment

unfoldable pub count : Bool × QuoteEnrichment → Totals → Totals
count (true, e) t = record t { fetched = t.fetched + 1; enriched = t.enriched ++ e ∷ [] }
count (false, e) t = record t { missing = t.missing + 1; enriched = t.enriched ++ e ∷ [] }

unfoldable pub enrich_all : Dict Quote → List Position → Totals → Result Totals
unfolding enrich count
enrich_all quotes [] t = ok t
enrich_all quotes (p ∷ ps) t = do
  e ← enrich p (Dict.get p.symbol.ticker quotes)
  enrich_all quotes ps (count e t)

-- `{q.symbol.ticker: q for q in quotes}`
unfoldable pub quote_map : List Quote → Dict Quote → Dict Quote
quote_map [] d = d
quote_map (q ∷ qs) d = quote_map qs (Dict.put q.symbol.ticker q d)

unfoldable pub symbols_of : List Position → List Symbol
symbols_of [] = []
symbols_of (p ∷ ps) =
    let rest = symbols_of ps in if is_empty (codes p.symbol.ticker) then rest else p.symbol ∷ rest

unfoldable pub refresh_quotes :
    String → List Position → (List Symbol → Result (List Quote)) → ℕ → Result RefreshQuotesResult
unfolding enrich_all quote_map symbols_of
refresh_quotes id [] get_quotes now = ok (record {
  account_id = id;
  enriched = [];
  quotes_fetched = 0;
  quotes_missing = 0;
  refreshed_at = now;
})
refresh_quotes id (p ∷ ps) get_quotes now = do
  quotes ← get_quotes (symbols_of (p ∷ ps))
  t ← enrich_all (quote_map quotes []) (p ∷ ps) (record { fetched = 0; missing = 0; enriched = [] })
  ok (record {
    account_id = id;
    enriched = t.enriched;
    quotes_fetched = t.fetched;
    quotes_missing = t.missing;
    refreshed_at = now;
  })
