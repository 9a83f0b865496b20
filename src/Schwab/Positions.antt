-- ===== src/Schwab/Positions.antt =====
-- The positions that `parse_account` returns: where they are filed, and which are left out.
use portfolio_copilot.Prelude.{
  not, All, ◌&&◌, List, arith, Result, Bool, Bool-cases, ◌∙◌, sym, ok_injective, ℕ, Option, String,
  ◌≡◌, refl, ok, err, none, some, true, false, [], ◌∷◌, ◌>>=◌, >>=-eq-ok, inl, inr,
}
use portfolio_copilot.Prelude.Dict
use portfolio_copilot.Prelude.Dict.{Dict}
use portfolio_copilot.Decimal
use portfolio_copilot.Decimal.{Decimal}
use portfolio_copilot.Domain.Money
use portfolio_copilot.Domain.Money.{IsMoney, Money}
use portfolio_copilot.Domain.Portfolio.{Account, Position}
use portfolio_copilot.Json.{Json, null, integer, float, boolean, str, array, object}
use portfolio_copilot.Schwab.Values.{
  objects_at, dict_or_self, money_or_zero, is_truthy, or_zero, text_at, dict_at, decimal,
  quantize_to_4dp, parse_money, number,
}
use portfolio_copilot.Schwab.Parsing.{
  net_liquidation, market_total, parse_account, parse_positions, parse_symbol, is_valid_position,
  parse_position,
}
use portfolio_copilot.Prelude.Text.{upper}
use mathlib.Core.Path.{subst}

-- What a position of a parsed account is.
pub record IsParsed (id : String) (p : Position) : Type 0 where
  pub filed : p.account_id ≡ id
  pub held : Decimal.is_zero p.quantity ≡ false
  pub cost : IsMoney p.average_cost
  pub worth : IsMoney p.market_value

-- The two readings of a number agree.
decimal-number :
    (read : String → Option Decimal) (v : Json) {a b : Decimal}
    → number v ≡ ok a
    → decimal read v ≡ ok b
    → a ≡ b
unfolding number decimal
decimal-number read (integer z) h k = ok_injective (sym h ∙ k)
decimal-number read (float d) h k = ok_injective (sym h ∙ k)
decimal-number read (boolean t) h k = cc
decimal-number read v h k = cc

-- Numbers that differ have a difference that is not zero.
difference_not_zero :
    (a b : Decimal) → Decimal.same_value a b ≡ false → Decimal.is_zero (Decimal.sub a b) ≡ false
difference_not_zero a b h = elim (Bool-cases (Decimal.is_zero (Decimal.sub a b))) [
  | inl z ↦ cc (Decimal.same-sub_zero a b z)
  | inr e ↦ e
]

usd-IsMoney : (d : Decimal) → IsMoney (record { amount = quantize_to_4dp d; currency = "USD" })
unfolding quantize_to_4dp
usd-IsMoney d = record { places = rw (Decimal.scale-quantize d 4) (omega arith); code = refl }

zero-IsMoney : IsMoney Money.zero_usd
zero-IsMoney = record { places = omega arith; code = refl }

read-IsMoney : (r : Result Decimal) → IsMoney (money_or_zero r)
read-IsMoney (ok d) = usd-IsMoney d
read-IsMoney (err e) = zero-IsMoney

money-IsMoney : (read : String → Option Decimal) (v : Json) → IsMoney (parse_money read v)
unfolding parse_money
money-IsMoney read null = zero-IsMoney
money-IsMoney read (integer z) = read-IsMoney (decimal read (integer z))
money-IsMoney read (float d) = read-IsMoney (decimal read (float d))
money-IsMoney read (boolean b) = read-IsMoney (decimal read (boolean b))
money-IsMoney read (str s) = read-IsMoney (decimal read (str s))
money-IsMoney read (array vs) = read-IsMoney (decimal read (array vs))
money-IsMoney read (object fs) = read-IsMoney (decimal read (object fs))

-- The two quantities of a valid position differ.
valid_position-differs :
    (d : Dict Json)
    → is_valid_position d ≡ ok true
    → (long short : Decimal) × (number (or_zero (Dict.get "longQuantity" d)) ≡ ok long)
      × (number (or_zero (Dict.get "shortQuantity" d)) ≡ ok short)
      × (Decimal.same_value long short ≡ false)
unfolding is_valid_position
valid_position-differs d h =
    let (i, e₀, h₁) = >>=-eq-ok (dict_at "instrument" d) _ h in
    let (long, e₁, h₂) = >>=-eq-ok (number (or_zero (Dict.get "longQuantity" d))) _ h₁ in
    let (short, e₂, h₃) = >>=-eq-ok (number (or_zero (Dict.get "shortQuantity" d))) _ h₂ in
    (long, short, e₁, e₂, symbol_and (Dict.get "symbol" i) _ (ok_injective h₃))
  where
    symbol_and :
        (o : Option Json) (b : Bool)
        → elim o [ none ↦ false | some v ↦ is_truthy v && not b ] ≡ true
        → b ≡ false
    symbol_and none b h = cc
    symbol_and (some v) b h = ground (arith, h)

differs_held :
    (l t long short : Decimal)
    → l ≡ long
    → t ≡ short
    → Decimal.same_value l t ≡ false
    → Decimal.is_zero (Decimal.sub long short) ≡ false
differs_held l t long short el et h = rw (sym el, sym et) (difference_not_zero l t h)

IsParsed-same : (id : String) {q p : Position} → q ≡ p → IsParsed id q → IsParsed id p
IsParsed-same id e h = subst (λ r. IsParsed id r) e h

module _ (read : String → Option Decimal) (now : ℕ) where
  parse_position-IsParsed :
      (id : String) (d : Dict Json) (as_of : Option ℕ) {p : Position}
      → is_valid_position d ≡ ok true
      → parse_position read now id d as_of ≡ ok p
      → IsParsed id p
  unfolding parse_position is_valid_position
  parse_position-IsParsed id d as_of valid h =
      let (i, e₀, h₁) = >>=-eq-ok (dict_at "instrument" d) _ h in
      let (raw, e₁, h₂) = >>=-eq-ok (text_at "symbol" "" i) _ h₁ in
      let (kind, e₂, h₃) = >>=-eq-ok (text_at "assetType" "EQUITY" i) _ h₂ in
      let (symbol, e₃, h₄) = >>=-eq-ok (parse_symbol raw (upper kind)) _ h₃ in
      let (long, e₄, h₅) = >>=-eq-ok (decimal read (or_zero (Dict.get "longQuantity" d))) _ h₄ in
      let (short, e₅, h₆) = >>=-eq-ok (decimal read (or_zero (Dict.get "shortQuantity" d))) _ h₅ in
      let avg = parse_money read (or_zero (Dict.get "averagePrice" d)) in
      let value = parse_money read (or_zero (Dict.get "marketValue" d)) in
      let (cost, e₆, h₇) = >>=-eq-ok (Money.mul avg (Decimal.abs (Decimal.sub long short))) _ h₆ in
      let (pnl, e₇, h₈) = >>=-eq-ok (Money.sub value cost) _ h₇ in
      let (l, t, el, et, differ) = valid_position-differs d valid in
      IsParsed-same id (ok_injective h₈) (record {
        filed = refl;
        held =
            differs_held l t long short (decimal-number read _ el e₄) (decimal-number read _ et e₅)
              differ;
        cost = money-IsMoney read _;
        worth = money-IsMoney read _;
      })

  -- An entry, which is kept if it is valid, in front of the others.
  first_entry-IsParsed :
      (id : String) (d : Dict Json) (ds : List (Dict Json)) (valid : Bool) {ps : List Position}
      → is_valid_position d ≡ ok valid
      → ((qs : List Position) → parse_positions read now id ds ≡ ok qs → All (IsParsed id) qs)
      → elim valid [
        | false ↦ parse_positions read now id ds
        | true ↦ (do
          position ← parse_position read now id d none
          more ← parse_positions read now id ds
          ok (position ∷ more))
      ]
        ≡ ok ps
      → All (IsParsed id) ps
  first_entry-IsParsed id d ds false e rest h = rest _ h
  first_entry-IsParsed id d ds true e rest h =
      let (p, e₁, h₁) = >>=-eq-ok (parse_position read now id d none) _ h in
      let (more, e₂, h₂) = >>=-eq-ok (parse_positions read now id ds) _ h₁ in
      rw (sym (ok_injective h₂)) (parse_position-IsParsed id d none e e₁, rest more e₂)

  pub parse_positions-IsParsed :
      (id : String) (ds : List (Dict Json)) {ps : List Position}
      → parse_positions read now id ds ≡ ok ps
      → All (IsParsed id) ps
  unfolding parse_positions
  parse_positions-IsParsed id [] h = rw (sym (ok_injective h)) tt
  parse_positions-IsParsed id (d ∷ ds) h =
      let (valid, e, h₁) = >>=-eq-ok (is_valid_position d) _ h in
      first_entry-IsParsed id d ds valid e (λ qs k. parse_positions-IsParsed id ds k) h₁

-- Every position of a parsed account is filed under it, is of a quantity that is not zero, and has
-- well-formed amounts.
pub parse_account-IsParsed :
    (read : String → Option Decimal) (now : ℕ) (id : String) (d : Dict Json) (as_of : Option ℕ)
    {a : Account}
    → parse_account read now id d as_of ≡ ok a
    → All (IsParsed id) a.positions
unfolding parse_account
parse_account-IsParsed read now id d as_of h =
    let (acct, e₀, h₁) = >>=-eq-ok (dict_or_self "securitiesAccount" d) _ h in
    let (balances, e₁, h₂) = >>=-eq-ok (dict_at "currentBalances" acct) _ h₁ in
    let (raw, e₂, h₃) = >>=-eq-ok (objects_at "positions" acct) _ h₂ in
    let (ps, e₃, h₄) = >>=-eq-ok (parse_positions read now id raw) _ h₃ in
    let (value, e₄, h₅) = >>=-eq-ok (Money.usd (market_total read now ps)) _ h₄ in
    let net_liq = parse_money read (or_zero (Dict.get "liquidationValue" balances)) in
    let cash = parse_money read (or_zero (Dict.get "cashBalance" balances)) in
    let (net, e₅, h₆) = >>=-eq-ok (net_liquidation read now net_liq cash value) _ h₅ in
    subst (λ (x : Account). All (IsParsed id) x.positions) (ok_injective h₆)
      (parse_positions-IsParsed read now id raw e₃)
