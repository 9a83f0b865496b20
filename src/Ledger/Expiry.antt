-- ===== src/Ledger/Expiry.antt =====
-- generate_digest.py: expiry and detection before a digest.
use portfolio_copilot.Prelude.{
  All-update_where, ◌∙◌, String, ap, >>=-returns, Bool, not, ◌&&◌, [], Bool-cases, if◌then◌else◌,
  ok_injective, ◌∷◌, All, Option, arith, List, Result, ◌≡◌, ℕ, ◌>>=◌, >>=-eq-ok, none, some, true,
  false, ok, refl, inl, inr,
}
use portfolio_copilot.Prelude.Dict.{Dict}
use portfolio_copilot.Decimal
use portfolio_copilot.Decimal.{Decimal}
use portfolio_copilot.Ledger.Row.{
  nan, number, Amount, shares_grew, is_active, expired_row, is_overdue, expire_overdue, Detail,
  RecommendationRow,
}
use portfolio_copilot.Ledger.Detect.{
  held_at, or_zero, fetch_live_self_directed, low, LiveBroker, grew, ledger_pre_digest, or_one,
  is_buy, detect_acted_on, marked, detect_live, rule_1, rule_2, check_one,
}
use portfolio_copilot.Domain.Portfolio.{Position}

rule_1-none :
    (s : Option String) (amount : Option Amount) (positions : Dict Position)
    → rule_1 s none amount positions ≡ ok none
unfolding rule_1
rule_1-none none amount positions = refl
rule_1-none (some s) amount positions = refl

rule_2-none : (amount : Option Amount) (cash : Decimal) → rule_2 amount none cash ≡ ok none
unfolding rule_2
rule_2-none none cash = refl
rule_2-none (some nan) cash = refl
rule_2-none (some (number a)) cash = refl

-- Without a baseline of the quantity and of the cash nothing counts as acted on, whatever the
-- account holds.
pub no_baseline_no_detection :
    (r : RecommendationRow) (positions : Dict Position) (cash : Decimal)
    → r.baseline_qty ≡ none
    → r.baseline_cash ≡ none
    → check_one r positions cash ≡ ok none
unfolding check_one
no_baseline_no_detection r positions cash h k =
    let first =
      ap (λ b. rule_1 r.symbol b r.amount_usd positions) h
      ∙ rule_1-none r.symbol r.amount_usd positions in
    let second = ap (λ b. rule_2 r.amount_usd b cash) k ∙ rule_2-none r.amount_usd cash in
    ground (arith, first, second)

abbrev NotOverdue : ℕ → RecommendationRow → Type 0
NotOverdue now r = is_overdue now r ≡ false

expire-NotOverdue :
    (now : ℕ) (rows : List RecommendationRow) → All (NotOverdue now) (expire_overdue now rows).1
unfolding expire_overdue expired_row
expire-NotOverdue now [] = tt
expire-NotOverdue now (r ∷ rows) = elim (Bool-cases (is_overdue now r)) [
  | inl e ↦ rw e (refl, expire-NotOverdue now rows)
  | inr e ↦ rw e (e, expire-NotOverdue now rows)
]

marked-NotOverdue :
    (now : ℕ) (seen : Option Detail) (r : RecommendationRow)
    → NotOverdue now r
    → NotOverdue now (marked now seen r)
unfolding marked
marked-NotOverdue now none r h = h
marked-NotOverdue now (some d) r h = refl

detect-NotOverdue :
    (positions : Dict Position) (cash : Decimal) (now : ℕ) (rows : List RecommendationRow)
    {rows' : List RecommendationRow}
    → All (NotOverdue now) rows
    → detect_acted_on positions cash now rows ≡ ok rows'
    → All (NotOverdue now) rows'
unfolding detect_acted_on
detect-NotOverdue positions cash now [] h k = rw (← ok_injective k) tt
detect-NotOverdue positions cash now (r ∷ rows) h k =
    let (seen, e, k₁) =
      >>=-eq-ok (if is_active r && is_buy r then check_one r positions cash else ok none) _ k in
    let (rest, e₁, k₂) = >>=-eq-ok (detect_acted_on positions cash now rows) _ k₁ in
    rw (← ok_injective k₂)
      (marked-NotOverdue now seen r h.0, detect-NotOverdue positions cash now rows h.1 e₁)

live-NotOverdue :
    (positions : Dict Position) (cash : Option Decimal) (now : ℕ) (rows : List RecommendationRow)
    {rows' : List RecommendationRow}
    → All (NotOverdue now) rows
    → detect_live positions cash now rows ≡ ok rows'
    → All (NotOverdue now) rows'
unfolding detect_live
live-NotOverdue positions none now rows h k = rw (← ok_injective k) h
live-NotOverdue positions (some cash) now rows h k = detect-NotOverdue positions cash now rows h k

or_one-nonzero : (a : Decimal) → Decimal.is_zero (or_one a) ≡ false
unfolding or_one
or_one-nonzero a = ground arith

nonzero-pos : (a : Decimal) → Decimal.is_pos a ≡ true → Decimal.is_zero a ≡ false
nonzero-pos a h = ground (arith, h)

abbrev Returns : Result (Option Detail) → Type 0
Returns r = (o : Option Detail) × (r ≡ ok o)

-- An amount that can be compared.
abbrev pub IsNumber : Option Amount → Type 0
IsNumber none = Unit
IsNumber (some nan) = ⊥
IsNumber (some (number a)) = Unit

grew-Returns :
    (amount : Decimal) (p : Position) (base : Decimal) → Returns (grew (number amount) p base)
unfolding grew
grew-Returns amount p base =
    let (estimate, e) =
      Decimal.div_returns amount (or_one p.average_cost.amount)
        (or_one-nonzero p.average_cost.amount) in
    >>=-returns (Decimal.div amount (or_one p.average_cost.amount)) _ e
      (compared estimate (Decimal.sub p.quantity base))
  where
    compared :
        (estimate delta : Decimal)
        → Returns (
            if Decimal.is_pos delta && Decimal.is_pos estimate
            then (Decimal.div delta estimate >>= λ ratio.
                ok (if Decimal.le low ratio then some (shares_grew delta estimate) else none))
            else ok none)
    compared estimate delta = elim (Bool-cases (Decimal.is_pos delta && Decimal.is_pos estimate)) [
      | inr e ↦ rw e (none, refl)
      | inl e ↦
          let (ratio, q) =
            Decimal.div_returns delta estimate (nonzero-pos estimate (ground (arith, e))) in
          rw e (>>=-returns (Decimal.div delta estimate) _ q (_, refl))
    ]

growth-Returns :
    (amount : Option Amount) (p : Position) (base : Decimal)
    → IsNumber amount
    → Returns (grew (or_zero amount) p base)
unfolding or_zero
growth-Returns none p base h = grew-Returns (Decimal.of_ℕ 0) p base
growth-Returns (some nan) p base h = absurd h
growth-Returns (some (number a)) p base h = grew-Returns a p base

rule_1-Returns :
    (s : Option String) (base : Option Decimal) (amount : Option Amount) (positions : Dict Position)
    → IsNumber amount
    → Returns (rule_1 s base amount positions)
unfolding rule_1
rule_1-Returns none base amount positions h = (none, refl)
rule_1-Returns (some s) none amount positions h = (none, refl)
rule_1-Returns (some s) (some base) amount positions h = held_position (held_at s positions)
  where
    held_position :
        (o : Option Position)
        → Returns (elim o as (λ _. Result (Option Detail)) [
          | none ↦ ok none
          | some p ↦ grew (or_zero amount) p base
        ])
    held_position none = (none, refl)
    held_position (some p) = growth-Returns amount p base h

rule_2-Returns :
    (amount : Option Amount) (base : Option Decimal) (cash : Decimal)
    → IsNumber amount
    → Returns (rule_2 amount base cash)
unfolding rule_2
rule_2-Returns none base cash h = (none, refl)
rule_2-Returns (some nan) base cash h = absurd h
rule_2-Returns (some (number amount)) none cash h = (none, refl)
rule_2-Returns (some (number amount)) (some base) cash h =
    elim (Bool-cases (not (Decimal.is_zero amount) && Decimal.is_pos (Decimal.sub base cash))) [
      | inr e ↦ rw e (none, refl)
      | inl e ↦
          let (ratio, q) = Decimal.div_returns (Decimal.sub base cash) amount (ground (arith, e)) in
          rw e (>>=-returns (Decimal.div (Decimal.sub base cash) amount) _ q (_, refl))
    ]

-- The amount of a recommendation can be compared.
abbrev pub IsComparable : RecommendationRow → Type 0
IsComparable r = IsNumber r.amount_usd

check_one-Returns :
    (r : RecommendationRow) (positions : Dict Position) (cash : Decimal)
    → IsComparable r
    → Returns (check_one r positions cash)
unfolding check_one
check_one-Returns r positions cash h =
    let (first, e) = rule_1-Returns r.symbol r.baseline_qty r.amount_usd positions h in
    >>=-returns (rule_1 r.symbol r.baseline_qty r.amount_usd positions) _ e (after first)
  where
    after :
        (first : Option Detail)
        → Returns (elim first as (λ _. Result (Option Detail)) [
          | some d ↦ ok (some d)
          | none ↦ rule_2 r.amount_usd r.baseline_cash cash
        ])
    after (some d) = (some d, refl)
    after none = rule_2-Returns r.amount_usd r.baseline_cash cash h

detect-returns :
    (positions : Dict Position) (cash : Decimal) (now : ℕ) (rows : List RecommendationRow)
    → All IsComparable rows
    → (rows' : List RecommendationRow) × (detect_acted_on positions cash now rows ≡ ok rows')
unfolding detect_acted_on
detect-returns positions cash now [] h = ([], refl)
detect-returns positions cash now (r ∷ rows) h =
    let (rest, p) = detect-returns positions cash now rows h.1 in
    let (seen, e) = seen_of (is_active r && is_buy r) in
    >>=-returns (if is_active r && is_buy r then check_one r positions cash else ok none) _ e
      (>>=-returns (detect_acted_on positions cash now rows) _ p (_, refl))
  where
    seen_of : (b : Bool) → Returns (if b then check_one r positions cash else ok none)
    seen_of true = check_one-Returns r positions cash h.0
    seen_of false = (none, refl)

live-returns :
    (positions : Dict Position) (cash : Option Decimal) (now : ℕ) (rows : List RecommendationRow)
    → All IsComparable rows
    → (rows' : List RecommendationRow) × (detect_live positions cash now rows ≡ ok rows')
unfolding detect_live
live-returns positions none now rows h = (rows, refl)
live-returns positions (some cash) now rows h = detect-returns positions cash now rows h

expire-IsComparable :
    (now : ℕ) (rows : List RecommendationRow)
    → All IsComparable rows
    → All IsComparable (expire_overdue now rows).1
unfolding expire_overdue expired_row
expire-IsComparable now rows h =
    All-update_where IsComparable IsComparable (is_overdue now) (expired_row now) rows (λ r e k. k)
      (λ r e k. k) h

-- The steps before a digest return, whatever the broker raises, if no amount of a recommendation is
-- NaN: no division is by zero. They leave no active recommendation past its due date.
pub pre_digest_clears :
    (broker : Option LiveBroker) (account : String) (now : ℕ) (rows : List RecommendationRow)
    → All IsComparable rows
    → let (positions, cash) = fetch_live_self_directed broker account in
      (rows' : List RecommendationRow) × (ledger_pre_digest broker account now rows
        ≡ ok (rows', positions, cash))
      × All (λ r. is_overdue now r ≡ false) rows'
unfolding ledger_pre_digest
pre_digest_clears broker account now rows h =
    let (positions, cash) = fetch_live_self_directed broker account in
    let unexpired = (expire_overdue now rows).1 in
    let (rows', p) = live-returns positions cash now unexpired (expire-IsComparable now rows h) in
    (rows', rw p refl, live-NotOverdue positions cash now unexpired (expire-NotOverdue now rows) p)
