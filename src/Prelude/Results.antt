-- ===== src/Prelude/Results.antt =====
-- A computation that returns or raises. `Error` has one constructor for each `raise` of the
-- modelled code; a message's text is not modelled.
use Prim.Native.Nat.{ℕ}
use Prim.Native.String.{String}
use mathlib.Core.Path.{◌≡◌, refl}
use mathlib.Core.Bool.{Bool, true, false}
use mathlib.Core.Option.{Option}
use mathlib.Core.Logic.{◌⊎◌, inl, inr}

pub data Error : Type 0 where
  money_precision currency_code currency_mismatch : Error
  division_by_zero : Error
  empty_ticker invalid_equity_ticker invalid_option_symbol : Error
  no_quantity_or_target quantity_and_target limit_price_missing : Error
  target_not_positive quantity_not_positive fractional_quantity : Error
  unsupported_order_type unsupported_side : Error
  insufficient_buying_power zero_shares : Error
  unknown_account : String → Error
  no_quote : String → Error
  broker_failure integrity_error : Error
  type_error invalid_operation key_error : Error
  massive_error : (status_code : Option ℕ) → Error
  massive_auth_error massive_rate_limit_error : Error
  schwab_auth_error schwab_account_not_found schwab_symbol_not_found schwab_error : Error
  schwab_rate_limit_error : (retry_after : Option ℕ) → Error
  llm_parse_error advisor_llm_error : Error
  quiver_parse_error quiver_error quiver_auth_error value_error : Error
  quiver_rate_limit_error : Option String → Error

pub data Result {ℓ} (A : Type ℓ) : Type ℓ where
  err : Error → Result A
  ok : A → Result A

infixl 5 ◌>>◌ ◌>>=◌
abbrev pub ◌>>=◌ {ℓ κ} : {A : Type ℓ} {B : Type κ} → Result A → (A → Result B) → Result B
err x >>= next = err x
ok a >>= next = next a

abbrev pub ◌>>◌ {ℓ} : {B : Type ℓ} → Result (Unit {0}) → Result B → Result B
check >> next = check >>= λ _. next

-- `if b: raise e`
abbrev pub raise_if : Bool → Error → Result (Unit {0})
raise_if true e = err e
raise_if false e = ok tt

pub ok_injective {ℓ} : {A : Type ℓ} {x y : A} → ok x ≡ ok y → x ≡ y
ok_injective h = cc

-- Inversion of a computation that returned.
pub >>=-eq-ok {ℓ κ} :
    {A : Type ℓ} {B : Type κ} (r : Result A) (next : A → Result B) {b : B}
    → (r >>= next) ≡ ok b
    → (a : A) × (r ≡ ok a) × (next a ≡ ok b)
>>=-eq-ok (err x) next h = cc
>>=-eq-ok (ok a) next h = (a, refl, h)

-- A chain returns if its first part does and the rest does on what that returned.
pub >>=-returns {ℓ κ} :
    {A : Type ℓ} {B : Type κ} (m : Result A) (f : A → Result B) {a : A}
    → m ≡ ok a
    → (b : B) × (f a ≡ ok b)
    → (b : B) × ((m >>= f) ≡ ok b)
>>=-returns m f e (b, p) = (b, rw e p)

-- A computation on a state that may raise: what was written before an exception stays written.
abbrev pub Exec : Type 0 → Type 0 → Type 0
Exec S A = S → Result A × S

pub Result-cases {ℓ} :
    {A : Type ℓ} (r : Result A) → ((a : A) × (r ≡ ok a)) ⊎ ((e : Error) × (r ≡ err e))
Result-cases (ok a) = inl (a, refl)
Result-cases (err e) = inr (e, refl)

abbrev pub is_ok {ℓ} : {A : Type ℓ} → Result A → Bool
is_ok (ok a) = true
is_ok (err e) = false

pub is_ok-returns {ℓ} : {A : Type ℓ} (r : Result A) → is_ok r ≡ true → (a : A) × (r ≡ ok a)
is_ok-returns (ok a) h = (a, refl)
is_ok-returns (err e) h = cc

-- A chain goes on with what its first part returned.
pub >>=-ok {ℓ κ} :
    {A : Type ℓ} {B : Type κ} (m : Result A) (f : A → Result B) {a : A} → m ≡ ok a → (m >>= f) ≡ f a
>>=-ok m f e = rw e refl

pub >>=-err {ℓ κ} :
    {A : Type ℓ} {B : Type κ} (m : Result A) (f : A → Result B) {e : Error}
    → m ≡ err e
    → (m >>= f) ≡ err e
>>=-err m f h = rw h refl
