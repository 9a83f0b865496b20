-- ===== src/Domain/Tests.antt =====
-- Money and symbols at concrete values.
use portfolio_copilot.Prelude.{
  invalid_operation, ◌^◌, empty_ticker, codes, some, currency_mismatch, if◌then◌else◌, ◌≡◌, arith,
  refl, ok, err,
}
use portfolio_copilot.Decimal
use portfolio_copilot.Decimal.{Decimal}
use portfolio_copilot.Domain.Money
use portfolio_copilot.Domain.Money.{Money, IsMoney}
use portfolio_copilot.Domain.Symbol.{
  coerce_symbol_lem, fixed_income, equity, matches_equity, is_empty, coerce_symbol,
}
use portfolio_copilot.Prelude.Int.{pos}

-- 10.50 USD, 0.25 USD and 3 EUR.
abbrev price : Money
price = record { amount = record { int = pos 1050; scale = 2 }; currency = "USD" }

abbrev fee : Money
fee = record { amount = record { int = pos 25; scale = 2 }; currency = "USD" }

abbrev euros : Money
euros = record { amount = Decimal.of_ℕ 3; currency = "EUR" }

fee-IsMoney : IsMoney fee
fee-IsMoney = record { places = omega arith; code = refl }

-- 10.50 times 0.333333, which is 3.4999965.
abbrev third : Decimal
third = record { int = pos 333333; scale = 6 }

-- 10 to the 25 dollars, times one.
too_large :
    Money.mul (record { amount = Decimal.of_ℕ (10 ^ 25); currency = "USD" }) (Decimal.of_ℕ 1)
    ≡ err invalid_operation
unfolding Money.mul portfolio_copilot.Decimal.Division.digit_count
    portfolio_copilot.Decimal.Rounding.quantize portfolio_copilot.Decimal.Division.in_context
    portfolio_copilot.Decimal.Number.mul portfolio_copilot.Prelude.Int.◌*ℤ◌
too_large = refl

sum_rounded :
    Money.add
      (record {
        amount = record { int = pos 12345678901234567890123451234; scale = 4 };
        currency = "USD";
      })
      (record { amount = record { int = pos 1; scale = 4 }; currency = "USD" })
    ≡ ok (record {
      amount = record { int = pos 1234567890123456789012345124; scale = 3 };
      currency = "USD";
    })
unfolding Money.add portfolio_copilot.Decimal.Division.in_context
    portfolio_copilot.Decimal.Number.add portfolio_copilot.Prelude.Int.◌+ℤ◌
    portfolio_copilot.Prelude.Int.◌*ℤ◌
sum_rounded = refl

mismatch_of_currencies :
    (Money.add price euros ≡ err currency_mismatch)
    × (Money.sub price euros ≡ err currency_mismatch)
unfolding Money.add Money.sub
mismatch_of_currencies = (refl, refl)

coerce_symbol_lem_example : coerce_symbol "912797LQ3" ≡ (
    if is_empty (codes "912797LQ3")
    then err empty_ticker
    else ok (record {
      ticker = "912797LQ3";
      asset_class = if matches_equity (codes "912797LQ3") then equity else fixed_income;
    }))
coerce_symbol_lem_example = coerce_symbol_lem "912797LQ3"
