-- ===== src/Decimal/Division.antt =====
-- `a / b` with 28 significant digits, by the algorithm of the `decimal` module: a quotient with at
-- least 29 digits and a sticky last one, the zeros of an exact quotient stripped towards the ideal
-- exponent, and the result rounded half-even.
use portfolio_copilot.Prelude.{
  arith, ◌≤◌, ℕ, zero, suc, ◌+◌, ◌-◌, ◌*◌, ◌/◌, ◌%◌, ◌^◌, ◌≡◌, refl, Bool, true, false, Result, ok,
  err, division_by_zero, ltb, leb, ◌==◌, if◌then◌else◌,
}
use portfolio_copilot.Prelude.Int.{pos, negsuc, magnitude, signed, is_negative}
use portfolio_copilot.Decimal.Number.{Decimal, is_zero, of_ℕ}
use portfolio_copilot.Decimal.Rounding.{round_half_even}

abbrev pub precision : ℕ
precision = 28

-- The length of the decimal writing of `n`; `n` rounds are enough, since n < 10 ^ n.
digits_on : ℕ → ℕ → ℕ
digits_on zero n = 1
digits_on (suc f) n = elim (ltb n 10) [ true ↦ 1 | false ↦ suc (digits_on f (n / 10)) ]

unfoldable pub digit_count : ℕ → ℕ
unfolding digits_on
digit_count n = digits_on n n

-- Zeros taken off the end, at most `k`; with the number of places that are left of `k`.
strip_zeros : ℕ → ℕ → ℕ × ℕ
strip_zeros zero c = (c, 0)
strip_zeros (suc k) c = elim (c % 10 == 0) [ true ↦ strip_zeros k (c / 10) | false ↦ (c, suc k) ]

-- `c * 10 ^ (minus - plus)` as a number, with no positive exponent.
with_scale : Bool → ℕ → ℕ → ℕ → Decimal
with_scale negative c plus minus =
    if leb minus plus
    then record { int = signed negative c; scale = plus - minus }
    else record { int = signed negative (c * 10 ^ (minus - plus)); scale = 0 }

-- `_fix`: a coefficient with more than 28 digits is rounded.
fix : Bool → ℕ → ℕ → ℕ → Decimal
unfolding digit_count with_scale round_half_even
fix negative c plus minus =
    let extra = digit_count c - precision in
    if extra == 0
    then with_scale negative c plus minus
    else with_scale negative (round_half_even c (10 ^ extra)) plus (minus + extra)

-- A number with at most 28 digits.
abbrev pub fits : Decimal → Bool
fits d = leb (digit_count (magnitude d.int)) precision

-- What an operation of the context returns for its exact result.
unfoldable pub in_context : Decimal → Decimal
unfolding fix
in_context d =
    let rounded = fix (is_negative d.int) (magnitude d.int) d.scale 0 in
    if fits d then d else rounded

pub in_context-fits : (d : Decimal) → fits d ≡ true → in_context d ≡ d
unfolding in_context
in_context-fits d h = rw h refl

pub scale-in_context : (d : Decimal) → (in_context d).scale ≤ d.scale
unfolding in_context with_scale fix
scale-in_context d = ground arith

-- The quotient of the coefficients `n` and `d`, shifted up or down to 29 or 30 digits.
quotient : Bool → ℕ → ℕ → ℕ → ℕ → ℕ → ℕ → Decimal
unfolding strip_zeros fix
quotient negative n d up down plus minus =
    let top = n * 10 ^ up in
    let bottom = d * 10 ^ down in
    let c = top / bottom in
    let (c', left) = strip_zeros up c in
    if top % bottom == 0
    then fix negative c' (plus + left) (minus + down)
    else fix negative (if c % 5 == 0 then c + 1 else c) (plus + up) (minus + down)

unfoldable pub div : Decimal → Decimal → Result Decimal
unfolding quotient
div a b =
    let n = magnitude a.int in
    let d = magnitude b.int in
    let up = digit_count d + precision + 1 - digit_count n in
    let down = digit_count n - (digit_count d + precision + 1) in
    let negative =
      if is_negative a.int
      then (if is_negative b.int then false else true)
      else is_negative b.int in
    if is_zero b
    then err division_by_zero
    else if is_zero a
    then ok (record { int = pos 0; scale = a.scale - b.scale })
    else ok (quotient negative n d up down a.scale b.scale)

either_returns : (b : Bool) (x y : Decimal) → (c : Decimal) × ((if b then ok x else ok y) ≡ ok c)
either_returns true x y = (x, refl)
either_returns false x y = (y, refl)

-- Only a division by zero raises.
pub div_returns : (a b : Decimal) → is_zero b ≡ false → (c : Decimal) × (div a b ≡ ok c)
unfolding div
div_returns a b h = rw h (either_returns (is_zero a) _ _)

third : div (of_ℕ 1) (of_ℕ 3) ≡ ok (record { int = pos 3333333333333333333333333333; scale = 28 })
unfolding div
third = refl

half : div (of_ℕ 1) (of_ℕ 2) ≡ ok (record { int = pos 5; scale = 1 })
unfolding div
half = refl

hundred_by_four : div (of_ℕ 100) (of_ℕ 4) ≡ ok (of_ℕ 25)
unfolding div
hundred_by_four = refl

minus_two_thirds :
    div (record { int = negsuc 19; scale = 1 }) (of_ℕ 3)
    ≡ ok (record { int = negsuc 6666666666666666666666666666; scale = 28 })
unfolding div
minus_two_thirds = refl
