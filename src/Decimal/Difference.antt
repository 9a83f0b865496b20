-- ===== src/Decimal/Difference.antt =====
-- When a difference is zero.
use portfolio_copilot.Prelude.{
  inr, inl, ◌⊎◌, ◌∙◌, sym, ==_iff, ◌-◌, true, ◌≤◌, zero, suc, ap, ◌^◌, arith, ◌*◌, ◌+◌, ℕ, ◌≡◌,
}
use portfolio_copilot.Prelude.Int.{ℤ, pos_part, neg_part, magnitude, ◌*ℤ◌, ◌-ℤ◌}
use portfolio_copilot.Decimal.Number.{
  right_side, left_side, same_value, is_zero, Decimal, sub, shift,
}
use native.Mathlib.Nat.{pow-zero, pow-suc}
use Prim.Native.Nat.{max}

shift_parts :
    (z : ℤ) (k : ℕ)
    → (pos_part (shift z k) ≡ pos_part z * 10 ^ k) × (neg_part (shift z k) ≡ neg_part z * 10 ^ k)
unfolding shift ◌*ℤ◌
shift_parts z k = ground arith

zero_difference :
    (a b : ℤ) → magnitude (a -ℤ b) ≡ 0 → pos_part a + neg_part b ≡ pos_part b + neg_part a
unfolding ◌-ℤ◌
zero_difference a b h = ground (arith, h)

pow-add : (a b : ℕ) → 10 ^ (a + b) ≡ 10 ^ a * 10 ^ b
pow-add a zero = let e : a + 0 ≡ a = omega arith in rw e (omega arith)
pow-add a (suc b) =
    let e : a + suc b ≡ suc (a + b) = omega arith in
    rw (e, pow-suc 10 (a + b), pow-add a b, pow-suc 10 b) (omega arith)

scaled : (a b c d x y : ℕ) → a * x + b ≡ c + d * x → a * (x * y) + b * y ≡ c * y + d * (x * y)
scaled a b c d x y h =
    let e : (a * x + b) * y ≡ (c + d * x) * y = ap (λ n. n * y) h in omega (arith, e)

pow_split : (m s : ℕ) → s ≤ m → 10 ^ (m - s) * 10 ^ s ≡ 10 ^ m
pow_split m s h =
    let e : m - s + s ≡ m = omega (arith, h) in sym (pow-add (m - s) s) ∙ ap (λ n. 10 ^ n) e

pow_none : (m s : ℕ) → m ≡ s → 10 ^ (m - s) ≡ 1
pow_none m s h = let e : m - s ≡ 0 = omega (arith, h) in rw e (pow-zero 10)

-- The equation between the parts of two integers over a common denominator.
common_parts :
    (a b : Decimal)
    → is_zero (sub a b) ≡ true
    → let m = max a.scale b.scale in
      let x = 10 ^ (m - a.scale) in
      let y = 10 ^ (m - b.scale) in
      pos_part a.int * x + neg_part b.int * y ≡ pos_part b.int * y + neg_part a.int * x
unfolding sub
common_parts a b h =
    let m = max a.scale b.scale in
    let none_left : magnitude (shift a.int (m - a.scale) -ℤ shift b.int (m - b.scale)) ≡ 0 =
      (==_iff _ 0).0 h in
    let parts = zero_difference (shift a.int (m - a.scale)) (shift b.int (m - b.scale)) none_left in
    let pa = shift_parts a.int (m - a.scale) in
    let pb = shift_parts b.int (m - b.scale) in omega (arith, parts, pa.0, pa.1, pb.0, pb.1)

sides_eq :
    (ap an bp bn x y u v : ℕ)
    → ap * x + bn * y ≡ bp * y + an * x
    → (x * u ≡ v) × (y ≡ 1)
    → ap * v + bn * u ≡ bp * u + an * v
sides_eq ap_ an bp bn x y u v h (e, one) =
    let k : (ap_ * x + bn * y) * u ≡ (bp * y + an * x) * u = ap (λ n. n * u) h in
    rw (sym e) (by_one ap_ an bp bn x y u one k)
  where
    by_one :
        (ap an bp bn x y u : ℕ)
        → y ≡ 1
        → (ap * x + bn * y) * u ≡ (bp * y + an * x) * u
        → ap * (x * u) + bn * u ≡ bp * u + an * (x * u)
    by_one ap_ an bp bn x y u one k = let k' = rw one at k in omega (arith, k')

sides_eq-left :
    (a b : Decimal) → is_zero (sub a b) ≡ true → a.scale ≤ b.scale → left_side a b ≡ right_side a b
sides_eq-left a b h le =
    let m = max a.scale b.scale in
    let top : m ≡ b.scale = omega (arith, le) in
    let below : a.scale ≤ m = omega arith in
    sides_eq (pos_part a.int) (neg_part a.int) (pos_part b.int) (neg_part b.int)
      (10 ^ (m - a.scale)) (10 ^ (m - b.scale)) (10 ^ a.scale) (10 ^ b.scale) (common_parts a b h)
      (pow_split m a.scale below ∙ ap (λ n. 10 ^ n) top, pow_none m b.scale top)

sides_eq-right :
    (a b : Decimal) → is_zero (sub a b) ≡ true → b.scale ≤ a.scale → left_side a b ≡ right_side a b
sides_eq-right a b h le =
    let m = max a.scale b.scale in
    let top : m ≡ a.scale = omega (arith, le) in
    let below : b.scale ≤ m = omega arith in
    sym (
      sides_eq (pos_part b.int) (neg_part b.int) (pos_part a.int) (neg_part a.int)
        (10 ^ (m - b.scale)) (10 ^ (m - a.scale)) (10 ^ b.scale) (10 ^ a.scale)
        (sym (common_parts a b h))
        (pow_split m b.scale below ∙ ap (λ n. 10 ^ n) top, pow_none m a.scale top))

leb-cases : (a b : ℕ) → (a ≤ b) ⊎ (b ≤ a)
leb-cases a b = ground arith

-- A difference that is zero is of two numbers of the same value.
pub same-sub_zero : (a b : Decimal) → is_zero (sub a b) ≡ true → same_value a b ≡ true
same-sub_zero a b h = elim (leb-cases a.scale b.scale) [
  | inl le ↦ (==_iff (left_side a b) (right_side a b)).1 (sides_eq-left a b h le)
  | inr le ↦ (==_iff (left_side a b) (right_side a b)).1 (sides_eq-right a b h le)
]
