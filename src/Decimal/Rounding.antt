-- ===== src/Decimal/Rounding.antt =====
-- `quantize` half-even and down, and `int`.
use native.Mathlib.Nat.{pow-suc}
use portfolio_copilot.Prelude.{
  false, true, zero, inr, inl, Bool-cases, suc, Bool, ℕ, ◌+◌, ◌-◌, ◌*◌, ◌/◌, ◌%◌, ◌^◌, ◌≤◌, ◌<◌,
  ◌≡◌, arith, leb, ltb, ◌==◌, if◌then◌else◌,
}
use portfolio_copilot.Prelude.Int.{ℤ, pos, magnitude, signed, is_negative, ◌*ℤ◌}
use portfolio_copilot.Decimal.Number.{is_pos, Decimal}

-- n / d to the nearest integer, ties to the even one.
unfoldable pub round_half_even : ℕ → ℕ → ℕ
round_half_even n d =
    let q = n / d in
    let r = n % d in
    if ltb (2 * r) d then q else if ltb d (2 * r) then q + 1 else if q % 2 == 0 then q else q + 1

-- A number with `k` places: its zeros filled up, or its magnitude rounded by `round`.
abbrev to_places : (ℕ → ℕ → ℕ) → Decimal → ℕ → Decimal
to_places round a k =
    if leb a.scale k
    then record { int = a.int *ℤ pos (10 ^ (k - a.scale)); scale = k }
    else record {
      int = signed (is_negative a.int) (round (magnitude a.int) (10 ^ (a.scale - k)));
      scale = k;
    }

-- `a.quantize(Decimal("0.0…1"))` with `k` places
unfoldable pub quantize : Decimal → ℕ → Decimal
unfolding round_half_even
quantize a k = to_places round_half_even a k

-- `a.quantize(…, rounding=ROUND_DOWN)`
unfoldable pub quantize_down : Decimal → ℕ → Decimal
quantize_down a k = to_places (λ n d. n / d) a k

-- `int(a)`, towards zero
unfoldable pub to_int : Decimal → ℤ
to_int a = signed (is_negative a.int) (magnitude a.int / 10 ^ a.scale)

-- A power of ten is positive.
pow-pos : (k : ℕ) → 0 < 10 ^ k
pow-pos zero = omega arith
pow-pos (suc k) = rw pow-suc (omega (arith, pow-pos k))

pub scale-quantize : (a : Decimal) (k : ℕ) → (quantize a k).scale ≡ k
unfolding quantize
scale-quantize a k = ground arith

pub scale-quantize_down : (a : Decimal) (k : ℕ) → (quantize_down a k).scale ≡ k
unfolding quantize_down
scale-quantize_down a k = ground arith

-- Rounding half-even moves a quotient by at most half a unit.
pub round_half_even_bounds :
    (n d : ℕ)
    → 0 < d
    → (2 * n ≤ 2 * (round_half_even n d * d) + d) × (2 * (round_half_even n d * d) ≤ 2 * n + d)
unfolding round_half_even
round_half_even_bounds n d h = grind arith

magnitude-signed : (b : Bool) (n : ℕ) → magnitude (signed b n) ≡ n
magnitude-signed b n = ground arith

magnitude-quantize :
    (a : Decimal) (k : ℕ)
    → k < a.scale
    → magnitude (quantize a k).int ≡ round_half_even (magnitude a.int) (10 ^ (a.scale - k))
unfolding quantize
magnitude-quantize a k h = elim (Bool-cases (leb a.scale k)) [
  | inl e ↦ absurd (ground arith)
  | inr e ↦ rw e (magnitude-signed (is_negative a.int) _)
]

-- A quantized number is within half a unit of its last place of the number that it rounds.
pub quantize_bounds :
    (a : Decimal) (k : ℕ)
    → k < a.scale
    → let unit = 10 ^ (a.scale - k) in
      let kept = magnitude (quantize a k).int * unit in
      (2 * magnitude a.int ≤ 2 * kept + unit) × (2 * kept ≤ 2 * magnitude a.int + unit)
quantize_bounds a k h =
    rw (magnitude-quantize a k h)
      (round_half_even_bounds (magnitude a.int) (10 ^ (a.scale - k)) (pow-pos (a.scale - k)))

-- A positive number is truncated to a natural number.
pub to_int_pos : (q : Decimal) → is_pos q ≡ true → (n : ℕ) × (to_int q ≡ pos n)
unfolding to_int
to_int_pos q h =
    let m = magnitude q.int / 10 ^ q.scale in
    let e : is_negative q.int ≡ false = ground arith in (m, rw e)
