-- ===== src/Domain/Money.antt =====
-- `Money` of src/trading/domain/common/value_objects.py: a decimal of at most four places with a
-- currency of three letters.
use text.Mathlib.TextPositions.{eq_refl}
use portfolio_copilot.Prelude.{
  invalid_operation, false, ◌≤◌, ◌≡◌, refl, ◌≢◌, ◌==◌, ltb, Bool, not, String, codes, length,
  str_eq, eq_iff, Result, ok, err, money_precision, currency_code, currency_mismatch, ◌>>◌,
  raise_if, arith, if◌then◌else◌,
}
use portfolio_copilot.Decimal
use portfolio_copilot.Decimal.{Decimal}

pub record Money : Type 0 where
  pub amount : Decimal
  pub currency : String

-- `Money.__post_init__`
unfoldable pub make_money : Decimal → String → Result Money
make_money amount currency =
    if ltb 4 amount.scale
    then err money_precision
    else if not (length (codes currency) == 3)
    then err currency_code
    else ok (record { amount = amount; currency = currency })

-- `Money.usd`
unfoldable pub usd : Decimal → Result Money
unfolding make_money
usd amount = make_money amount "USD"

-- `Money.zero()`
abbrev pub zero_usd : Money
zero_usd = record { amount = Decimal.of_ℕ 0; currency = "USD" }

abbrev check_currency : Money → Money → Result (Unit {0})
check_currency a b = raise_if (not (str_eq a.currency b.currency)) currency_mismatch

-- `a + b`
unfoldable pub add : Money → Money → Result Money
unfolding make_money
add a b = do
  check_currency a b
  make_money (Decimal.in_context (Decimal.add a.amount b.amount)) a.currency

-- `a - b`
unfoldable pub sub : Money → Money → Result Money
unfolding make_money
sub a b = do
  check_currency a b
  make_money (Decimal.in_context (Decimal.sub a.amount b.amount)) a.currency

-- `a * factor`; a quantized product of more than 28 digits raises.
unfoldable pub mul : Money → Decimal → Result Money
unfolding make_money
mul a factor =
    let product = Decimal.quantize (Decimal.in_context (Decimal.mul a.amount factor)) 4 in
    if Decimal.fits product then make_money product a.currency else err invalid_operation

abbrev pub is_negative : Money → Bool
is_negative a = Decimal.is_neg a.amount

abbrev pub is_zero : Money → Bool
is_zero a = Decimal.is_zero a.amount

-- What the constructor checks.
pub record IsMoney (m : Money) : Type 0 where
  pub places : m.amount.scale ≤ 4
  pub code : length (codes m.currency) ≡ 3

-- A value that the constructor accepts is well-formed, and the one that it was given.
pub make_money-eq-ok :
    (a : Decimal) (c : String) {m : Money}
    → make_money a c ≡ ok m
    → IsMoney m × (m.amount ≡ a) × (m.currency ≡ c)
unfolding make_money
make_money-eq-ok a c h = ground arith

pub make_money-IsMoney : (m : Money) → IsMoney m → make_money m.amount m.currency ≡ ok m
unfolding make_money
make_money-IsMoney m v = ground arith

make_money_accepts :
    (a : Decimal) (c : String)
    → a.scale ≤ 4
    → length (codes c) ≡ 3
    → make_money a c ≡ ok (record { amount = a; currency = c })
unfolding make_money
make_money_accepts a c h k = ground arith

check_same : (a b : Money) → a.currency ≡ b.currency → check_currency a b ≡ ok tt
check_same a b e = rw (e, eq_refl b.currency)

-- Well-formed money in one currency adds up without an exception, to the sum rounded to 28 digits,
-- and the sum is well-formed.
add_closed :
    (a b : Money)
    → IsMoney a
    → IsMoney b
    → a.currency ≡ b.currency
    → (s : Money) × (add a b ≡ ok s)
      × IsMoney s
      × (s.amount ≡ Decimal.in_context (Decimal.add a.amount b.amount))
unfolding add
add_closed a b ha hb e =
    let total = Decimal.in_context (Decimal.add a.amount b.amount) in
    let few = Decimal.scale-in_context (Decimal.add a.amount b.amount) in
    let width = Decimal.scale-add a.amount b.amount in
    let fits : total.scale ≤ 4 = omega (arith, few, width, ha.places, hb.places) in
    (
      record a { amount = total },
      rw (check_same a b e) (make_money_accepts _ _ fits ha.code),
      record { places = fits; code = ha.code },
      refl,
    )

-- The same of a difference.
sub_closed :
    (a b : Money)
    → IsMoney a
    → IsMoney b
    → a.currency ≡ b.currency
    → (d : Money) × (sub a b ≡ ok d)
      × IsMoney d
      × (d.amount ≡ Decimal.in_context (Decimal.sub a.amount b.amount))
unfolding sub
sub_closed a b ha hb e =
    let rest = Decimal.in_context (Decimal.sub a.amount b.amount) in
    let few = Decimal.scale-in_context (Decimal.sub a.amount b.amount) in
    let width = Decimal.scale-sub a.amount b.amount in
    let fits : rest.scale ≤ 4 = omega (arith, few, width, ha.places, hb.places) in
    (
      record a { amount = rest },
      rw (check_same a b e) (make_money_accepts _ _ fits ha.code),
      record { places = fits; code = ha.code },
      refl,
    )

-- A product whose rounded value needs more than 28 digits raises.
mul_overflows :
    (a : Money) (factor : Decimal)
    → Decimal.fits (Decimal.quantize (Decimal.in_context (Decimal.mul a.amount factor)) 4) ≡ false
    → mul a factor ≡ err invalid_operation
unfolding mul
mul_overflows a factor h = rw h refl

-- Money in two currencies raises when it is added or subtracted.
mismatch_raises :
    (a b : Money)
    → a.currency ≢ b.currency
    → (add a b ≡ err currency_mismatch) × (sub a b ≡ err currency_mismatch)
unfolding add sub
mismatch_raises a b ne =
    (ground (arith, eq_iff a.currency b.currency), ground (arith, eq_iff a.currency b.currency))
