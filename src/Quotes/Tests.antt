-- ===== src/Quotes/Tests.antt =====
-- Two positions, one of which has a quote.
use portfolio_copilot.Prelude.{
  Error, arith, length, money_precision, ◌∷◌, [], ◌≡◌, Result, ◌+◌, ℕ, String, List, none, some, ok,
  err, refl,
}
use portfolio_copilot.Decimal
use portfolio_copilot.Decimal.{Decimal}
use portfolio_copilot.Domain.Money.{Money}
use portfolio_copilot.Domain.Portfolio.{Position, Quote}
use portfolio_copilot.Quotes.{RefreshQuotesResult, change_pct, refresh_quotes}
use portfolio_copilot.Prelude.Int.{pos}
use portfolio_copilot.Domain.Symbol.{Symbol, equity}
use portfolio_copilot.Quotes.Counts.{IsPadded, trailing_zeros_raise, refresh_quotes_counts}

abbrev dollars : ℕ → Money
dollars n = record { amount = Decimal.of_ℕ n; currency = "USD" }

abbrev holding : String → Position
holding ticker = record {
  account_id = "A1";
  symbol = record { ticker = ticker; asset_class = equity };
  quantity = Decimal.of_ℕ 10;
  average_cost = dollars 80;
  market_value = dollars 900;
  unrealized_pnl = dollars 100;
  as_of = 0;
}

abbrev quote_at : Decimal → Quote
quote_at last = record {
  symbol = record { ticker = "AAPL"; asset_class = equity };
  bid = last;
  ask = last;
  last = last;
  timestamp = 7;
  volume = none;
}

abbrev answer : List Symbol → Result (List Quote)
answer symbols = ok (quote_at (Decimal.of_ℕ 100) ∷ [])

abbrev or_none : Result RefreshQuotesResult → RefreshQuotesResult
or_none (ok r) = r
or_none (err e) = record {
  account_id = "";
  enriched = [];
  quotes_fetched = 0;
  quotes_missing = 0;
  refreshed_at = 0;
}

abbrev held : List Position
held = holding "AAPL" ∷ holding "MSFT" ∷ []

abbrev result : RefreshQuotesResult
result = or_none (refresh_quotes "A1" held answer 9)

refreshed : refresh_quotes "A1" held answer 9 ≡ ok result
unfolding refresh_quotes portfolio_copilot.Prelude.Dict.get portfolio_copilot.Prelude.Dict.put
    portfolio_copilot.Decimal.Rounding.quantize portfolio_copilot.Prelude.Int.◌*ℤ◌
    portfolio_copilot.Domain.Money.make_money portfolio_copilot.Decimal.Number.mul
    portfolio_copilot.Decimal.Number.sub portfolio_copilot.Decimal.Division.div
    portfolio_copilot.Prelude.Int.◌-ℤ◌
refreshed = refl

-- 25 percent up.
changed :
    change_pct (Decimal.of_ℕ 100) (Decimal.of_ℕ 80) ≡ ok (record { int = pos 2500; scale = 2 })
unfolding change_pct portfolio_copilot.Decimal.Division.div portfolio_copilot.Decimal.Number.sub
    portfolio_copilot.Prelude.Int.◌-ℤ◌ portfolio_copilot.Prelude.Int.◌*ℤ◌
    portfolio_copilot.Decimal.Rounding.quantize portfolio_copilot.Decimal.Number.mul
changed = refl

refresh_quotes_counts_example :
    (result.quotes_fetched + result.quotes_missing ≡ length held)
    × (length result.enriched ≡ length held)
refresh_quotes_counts_example = refresh_quotes_counts "A1" held answer 9 refreshed

-- 100.50000
abbrev padded : Decimal
padded = record { int = pos 10050000; scale = 5 }

padded-IsPadded : IsPadded (quote_at padded)
unfolding portfolio_copilot.Decimal.Rounding.quantize
padded-IsPadded = record { positive = refl; long = omega arith; padded = refl }

trailing_zeros_raise_example :
    (e : Error) × (refresh_quotes "A1"
        (holding "AAPL" ∷ [])
        (λ symbols. ok (quote_at padded ∷ []))
        9
      ≡ err e)
unfolding portfolio_copilot.Prelude.Dict.get portfolio_copilot.Quotes.quote_map
    portfolio_copilot.Prelude.Dict.put
trailing_zeros_raise_example =
    trailing_zeros_raise "A1" (holding "AAPL") [] [] (holding "AAPL") []
      (λ symbols. ok (quote_at padded ∷ [])) 9 (quote_at padded ∷ []) (quote_at padded) refl refl
      refl padded-IsPadded
