-- ===== src/Domain/Symbol.antt =====
-- Symbols (src/trading/domain/common/value_objects.py): the asset classes, the two ticker formats
-- and `coerce_symbol`. Tickers are ASCII texts.
use portfolio_copilot.Prelude.{
  ℕ, zero, suc, ◌≡◌, refl, ◌==◌, leb, Bool, true, false, ◌&&◌, ◌||◌, String, List, [], ◌∷◌, codes,
  Result, ok, err, empty_ticker, invalid_equity_ticker, invalid_option_symbol, arith, not,
  if◌then◌else◌,
}

pub data AssetClass : Type 0 where
  equity option fixed_income fund : AssetClass

is_upper : ℕ → Bool
is_upper c = leb b'A' c && leb c b'Z'

is_digit : ℕ → Bool
is_digit c = leb b'0' c && leb c b'9'

-- `$` of a regular expression: the end of the text, or a newline that ends it.
at_end : List ℕ → Bool
at_end [] = true
at_end (c ∷ []) = c == 10
at_end _ = false

-- `x{1,n}` before `rest`, where `rest` cannot begin with an `x`: the longest run is taken.
some_of : (ℕ → Bool) → (List ℕ → Bool) → ℕ → List ℕ → Bool
some_of x rest n [] = rest []
some_of x rest zero (c ∷ cs) = rest (c ∷ cs)
some_of x rest (suc n) (c ∷ cs) = elim (x c) [ true ↦ some_of x rest n cs | false ↦ rest (c ∷ cs) ]

one_to : (ℕ → Bool) → (List ℕ → Bool) → ℕ → List ℕ → Bool
unfolding some_of
one_to x rest zero cs = false
one_to x rest (suc n) [] = false
one_to x rest (suc n) (c ∷ cs) = x c && some_of x rest n cs

-- `x{n}` before `rest`
exactly : (ℕ → Bool) → (List ℕ → Bool) → ℕ → List ℕ → Bool
exactly x rest zero cs = rest cs
exactly x rest (suc n) [] = false
exactly x rest (suc n) (c ∷ cs) = x c && exactly x rest n cs

-- `([.\-][A-Z]{1,4})?$`
suffix : List ℕ → Bool
unfolding at_end one_to is_upper
suffix [] = true
suffix (c ∷ cs) = at_end (c ∷ cs) || (c == b'.' || c == b'-') && one_to is_upper at_end 4 cs

-- `_EQUITY_RE`
pub matches_equity : List ℕ → Bool
unfolding suffix
matches_equity cs = one_to is_upper suffix 6 cs

-- `[CP]\d{8}$`
contract : List ℕ → Bool
unfolding at_end exactly is_digit
contract [] = false
contract (c ∷ cs) = (c == b'C' || c == b'P') && exactly is_digit at_end 8 cs

-- `_OPTION_RE`
matches_option : List ℕ → Bool
unfolding contract one_to is_upper
matches_option cs = one_to is_upper (exactly is_digit contract 6) 6 cs

pub record Symbol : Type 0 where
  pub ticker : String
  pub asset_class : AssetClass

is_equity : AssetClass → Bool
is_equity equity = true
is_equity _ = false

is_option : AssetClass → Bool
is_option option = true
is_option _ = false

abbrev pub is_empty : List ℕ → Bool
is_empty [] = true
is_empty _ = false

-- `Symbol.__post_init__`
unfoldable pub make_symbol : String → AssetClass → Result Symbol
unfolding is_equity is_option matches_equity matches_option
make_symbol t a =
    if is_empty (codes t)
    then err empty_ticker
    else if is_equity a && not (matches_equity (codes t))
    then err invalid_equity_ticker
    else if is_option a && not (matches_option (codes t))
    then err invalid_option_symbol
    else ok (record { ticker = t; asset_class = a })

or_fixed_income : String → Result Symbol → Result Symbol
or_fixed_income t (ok s) = ok s
or_fixed_income t (err _) = make_symbol t fixed_income

unfoldable pub coerce_symbol : String → Result Symbol
unfolding or_fixed_income
coerce_symbol t = or_fixed_income t (make_symbol t equity)

-- A text that is not empty always becomes a symbol with that text as its ticker: an equity if it
-- has the ticker format, and fixed income otherwise. The empty text raises.
pub coerce_symbol_lem :
    (t : String)
    → coerce_symbol t ≡ (
        if is_empty (codes t)
        then err empty_ticker
        else ok (record {
          ticker = t;
          asset_class = if matches_equity (codes t) then equity else fixed_income;
        }))
unfolding coerce_symbol make_symbol
coerce_symbol_lem t = ground arith

-- The newline that `$` lets pass: a ticker with a line break behind it is accepted as it stands.
pub newline_accepted :
    make_symbol "AAPL\n" equity ≡ ok (record { ticker = "AAPL\n"; asset_class = equity })
unfolding make_symbol
newline_accepted = refl

formats :
    (matches_equity (codes "BRK.B") ≡ true)
    × (matches_equity (codes "BRK.") ≡ false)
    × (matches_equity (codes "ABCDEFG") ≡ false)
    × (matches_option (codes "NVDA240315C00080000") ≡ true)
    × (matches_option (codes "NVDA240315X00080000") ≡ false)
unfolding matches_equity matches_option
formats = (refl, refl, refl, refl, refl)
