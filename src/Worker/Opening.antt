-- ===== src/Worker/Opening.antt =====
-- The loop of `next_market_open`.
use portfolio_copilot.Prelude.{
  ◌%◌, ◌/◌, ◌∙◌, Bool-cases, arith, leb, ◌⊎◌, ◌*◌, suc, ◌+◌, ◌≡◌, ◌≤◌, ◌<◌, ℕ, refl, some, true,
  false, inl, inr,
}
use portfolio_copilot.Worker.Clock.{
  et_hour, minute, hour, opening, next_market_open, is_market_open, day, weekday, walk_forward,
}

step_over :
    (fuel now t : ℕ)
    → (t ≤ now) ⊎ (5 ≤ weekday t)
    → walk_forward (suc fuel) now t ≡ walk_forward fuel now (t + day)
unfolding walk_forward
step_over fuel now t (inl le) =
    let e : leb t now ≡ true = ground (arith, le) in rw (walk_forward, e) refl
step_over fuel now t (inr w) =
    let e : leb 5 (weekday t) ≡ true = ground (arith, w) in
    elim (Bool-cases (leb t now)) [
      | inl a ↦ rw (walk_forward, a) refl
      | inr b ↦ rw (walk_forward, b, e) refl
    ]

stop_at : (fuel now t : ℕ) → now < t → weekday t < 5 → walk_forward (suc fuel) now t ≡ some t
unfolding walk_forward
stop_at fuel now t lt w =
    let a : leb t now ≡ false = ground (arith, lt) in
    let b : leb 5 (weekday t) ≡ false = ground (arith, w) in rw (walk_forward, a, b) refl

five_or_six : (t : ℕ) → (weekday t < 5) ⊎ ((weekday t ≡ 5) ⊎ (weekday t ≡ 6))
five_or_six t = ground arith

-- What the loop finds from a time on: the first weekday.
abbrev Found : ℕ → ℕ → ℕ → Type 0
Found fuel now t =
    (u : ℕ) × (walk_forward fuel now t ≡ some u)
    × (t ≤ u)
    × (u ≤ t + 2 * day)
    × (weekday u < 5)
    × ((k : ℕ) × (u ≡ t + k * day))

from_future : (fuel now t : ℕ) → now < t → Found (suc (suc (suc fuel))) now t
from_future fuel now t lt = elim (five_or_six t) [
  | inl w ↦ (t, stop_at (suc (suc fuel)) now t lt w, omega arith, omega arith, w, (0, omega arith))
  | inr (inl w) ↦
      let sunday : 5 ≤ weekday (t + day) = omega (arith, w) in
      let monday : weekday (t + day + day) < 5 = omega (arith, w) in
      (
        t + day + day,
        step_over (suc (suc fuel)) now t (inr (omega (arith, w)))
            ∙ step_over (suc fuel) now (t + day) (inr sunday)
            ∙ stop_at fuel now (t + day + day) (omega (arith, lt)) monday,
        omega arith,
        omega arith,
        monday,
        (2, omega arith),
      )
  | inr (inr w) ↦
      let monday : weekday (t + day) < 5 = omega (arith, w) in
      (
        t + day,
        step_over (suc (suc fuel)) now t (inr (omega (arith, w)))
            ∙ stop_at (suc fuel) now (t + day) (omega (arith, lt)) monday,
        omega arith,
        omega arith,
        monday,
        (1, omega arith),
      )
]

open_at :
    (t d : ℕ) → t ≡ d * day + 14 * hour + 30 * minute → weekday t < 5 → is_market_open t ≡ true
unfolding is_market_open
open_at t d e w =
    let a : leb 5 (weekday t) ≡ false = ground (arith, w) in
    let nine : et_hour t ≡ 9 = omega (arith, e) in
    let half : t / minute % 60 ≡ 30 = omega (arith, e) in rw (is_market_open, a, nine, half) refl

before_or_after : (now t : ℕ) → (now < t) ⊎ (t ≤ now)
before_or_after now t = ground arith

-- The walk to the next opening ends within four turns, whatever the time is. The time that it
-- returns lies in the future and less than four days away, on a weekday, and the market counts as
-- open at it.
pub next_market_open_lem :
    (now : ℕ)
    → (t : ℕ) × (next_market_open now ≡ some t)
      × (now < t)
      × (t < now + 4 * day)
      × (weekday t < 5)
      × (is_market_open t ≡ true)
unfolding next_market_open
next_market_open_lem now = elim (before_or_after now (opening now)) [
  | inl lt ↦
      let (u, run, low, high, w, (k, e)) = from_future 1 now (opening now) lt in
      (
        u,
        run,
        omega (arith, lt, low),
        omega (arith, high),
        w,
        open_at u (now / day + k) (omega (arith, e)) w,
      )
  | inr le ↦
      let (u, run, low, high, w, (k, e)) = from_future 0 now (opening now + day) (omega arith) in
      (
        u,
        step_over 3 now (opening now) (inl le) ∙ run,
        omega (arith, low),
        omega (arith, le, high),
        w,
        open_at u (now / day + 1 + k) (omega (arith, e)) w,
      )
]
