-- ===== src/Worker/Clock.antt =====
-- `SystemClock` of application/common/clock.py, with the time that `now` gives as an argument.
use portfolio_copilot.Prelude.{
  ◌&&◌, ◌==◌, not, ltb, ◌||◌, if◌then◌else◌, ◌+◌, leb, ◌*◌, ◌%◌, ◌/◌, Option, Bool, ℕ, none, some,
  true, false, zero, suc,
}

abbrev pub minute : ℕ
minute = 60000000

abbrev pub hour : ℕ
hour = 3600000000

abbrev pub day : ℕ
day = 86400000000

-- `weekday()`: the epoch was a Thursday.
abbrev pub weekday : ℕ → ℕ
weekday t = (t / day + 3) % 7

-- `(now.hour - 5) % 24`
abbrev pub et_hour : ℕ → ℕ
et_hour t = (t / hour % 24 + 19) % 24

unfoldable pub is_market_open : ℕ → Bool
is_market_open now =
    if leb 5 (weekday now)
    then false
    else if ltb (et_hour now) 9
    then false
    else if leb 16 (et_hour now)
    then false
    else not (et_hour now == 9 && ltb (now / minute % 60) 30)

-- The loop of `next_market_open`, on fuel; `none` is a loop that has not ended.
unfoldable pub walk_forward : ℕ → ℕ → ℕ → Option ℕ
walk_forward zero now candidate = none
walk_forward (suc fuel) now candidate = elim (leb candidate now || leb 5 (weekday candidate)) [
  | true ↦ walk_forward fuel now (candidate + day)
  | false ↦ some candidate
]

-- 14:30 UTC of the day of a time, which is 9:30 EST.
abbrev pub opening : ℕ → ℕ
opening now = now / day * day + 14 * hour + 30 * minute

unfoldable pub next_market_open : ℕ → Option ℕ
unfolding walk_forward
next_market_open now = walk_forward 4 now (opening now)
