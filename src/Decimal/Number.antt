-- ===== src/Decimal/Number.antt =====
-- The numbers, their exact operations and their order.
use Prim.Native.Nat.{max}
use native.Mathlib.Nat.{max_comm}
use portfolio_copilot.Prelude.{
  ℕ, ◌+◌, ◌-◌, ◌*◌, ◌^◌, ◌≤◌, ◌<◌, ◌≡◌, refl, Bool, true, false, arith, ltb, leb, ◌==◌,
}
use portfolio_copilot.Prelude.Int.{
  ℤ, pos, pos_part, neg_part, magnitude, is_negative, ◌+ℤ◌, ◌-ℤ◌, ◌*ℤ◌, int_laws, +ℤ_comm,
}

pub record Decimal : Type 0 where
  pub int : ℤ
  pub scale : ℕ

-- `Decimal(n)`
abbrev pub of_ℕ : ℕ → Decimal
of_ℕ n = record { int = pos n; scale = 0 }

abbrev pub of_ℤ : ℤ → Decimal
of_ℤ z = record { int = z; scale = 0 }

-- The two sides of a comparison, over the common denominator of both numbers.
abbrev pub left_side : Decimal → Decimal → ℕ
left_side a b = pos_part a.int * 10 ^ b.scale + neg_part b.int * 10 ^ a.scale

abbrev pub right_side : Decimal → Decimal → ℕ
right_side a b = pos_part b.int * 10 ^ a.scale + neg_part a.int * 10 ^ b.scale

-- `a < b` and `a <= b`
abbrev pub lt : Decimal → Decimal → Bool
lt a b = ltb (left_side a b) (right_side a b)

abbrev pub le : Decimal → Decimal → Bool
le a b = leb (left_side a b) (right_side a b)

-- `a == 0`, which is also `not a`
abbrev pub is_zero : Decimal → Bool
is_zero a = magnitude a.int == 0

-- `a < 0` and `a > 0`
abbrev pub is_neg : Decimal → Bool
is_neg a = is_negative a.int

abbrev pub is_pos : Decimal → Bool
is_pos a = ltb 0 (pos_part a.int)

-- `a == b`
abbrev pub same_value : Decimal → Decimal → Bool
same_value a b = left_side a b == right_side a b

-- The orders and the equality of the numbers as statements.
abbrev pub Le : Decimal → Decimal → Type 0
Le a b = left_side a b ≤ right_side a b

abbrev pub Lt : Decimal → Decimal → Type 0
Lt a b = left_side a b < right_side a b

abbrev pub SameValue : Decimal → Decimal → Type 0
SameValue a b = left_side a b ≡ right_side a b

unfoldable pub shift : ℤ → ℕ → ℤ
shift z k = z *ℤ pos (10 ^ k)

unfoldable pub add : Decimal → Decimal → Decimal
unfolding shift
add a b =
    let s = max a.scale b.scale in
    record { int = shift a.int (s - a.scale) +ℤ shift b.int (s - b.scale); scale = s }

unfoldable pub sub : Decimal → Decimal → Decimal
unfolding shift
sub a b =
    let s = max a.scale b.scale in
    record { int = shift a.int (s - a.scale) -ℤ shift b.int (s - b.scale); scale = s }

unfoldable pub mul : Decimal → Decimal → Decimal
mul a b = record { int = a.int *ℤ b.int; scale = a.scale + b.scale }

unfoldable pub abs : Decimal → Decimal
abs a = record { int = pos (magnitude a.int); scale = a.scale }

pub Le-of-not-lt : (a b : Decimal) → lt b a ≡ false → Le a b
Le-of-not-lt a b h = ground arith

pub Lt-of-lt : (a b : Decimal) → lt a b ≡ true → Lt a b
Lt-of-lt a b h = ground arith

pub Le-of-le : (a b : Decimal) → le a b ≡ true → Le a b
Le-of-le a b h = ground arith

pub SameValue-of-same : (a b : Decimal) → same_value a b ≡ true → SameValue a b
SameValue-of-same a b h = ground arith

pub add_comm : (a b : Decimal) → add a b ≡ add b a
unfolding add
add_comm a b =
    let s = max a.scale b.scale in
    cc (max_comm a.scale b.scale, +ℤ_comm (shift a.int (s - a.scale)) (shift b.int (s - b.scale)))

pub scale-add : (a b : Decimal) → (add a b).scale ≡ max a.scale b.scale
unfolding add
scale-add a b = refl

pub scale-sub : (a b : Decimal) → (sub a b).scale ≡ max a.scale b.scale
unfolding sub
scale-sub a b = refl

-- A number less itself is zero.
pub sub_self : (a : Decimal) → (sub a a).int ≡ pos 0
unfolding sub
sub_self a = omega int_laws

pub abs-sub_self : (a : Decimal) → (abs (sub a a)).int ≡ pos 0
unfolding abs
abs-sub_self a = let e = sub_self a in rw e refl

mul-one : (a : ℤ) → a *ℤ pos 1 ≡ a
unfolding ◌*ℤ◌
mul-one a = ground arith

add-zero_lem : (a : ℤ) → a +ℤ pos 0 ≡ a
add-zero_lem a = omega int_laws

shift-zero : (k : ℕ) → shift (pos 0) k ≡ pos 0
unfolding shift ◌*ℤ◌
shift-zero k = ground arith

-- Adding the integer zero changes nothing, the number of places included.
pub add-of_zero : (a : Decimal) → add a (of_ℕ 0) ≡ a
unfolding add
add-of_zero a =
    let e : max a.scale 0 ≡ a.scale = omega arith in
    let z : a.scale - a.scale ≡ 0 = omega arith in rw (e, z, mul-one, shift-zero, add-zero_lem)
