-- ===== src/Positions/Rows.antt =====
-- Looking rows up in the table `positions`, across the statements of refresh_positions.py.
use portfolio_copilot.Prelude.{
  Option-cases, any, false, inl, inr, Bool-cases, ◌∙◌, ok_injective, is_some, sym, ap, ok, eq_iff,
  ◌&&◌, refl, not, [], str_eq, ℕ, arith, ◌++◌, select, if◌then◌else◌, ◌∷◌, Option, List, ◌≡◌,
  Result, String, >>=-eq-ok, none, some,
}
use portfolio_copilot.Prelude.Dict
use portfolio_copilot.Prelude.Dict.{Dict}
use portfolio_copilot.Positions.Tables.{
  from_rows, is_at, position_row, insert_position, upsert_local_account, PositionRow,
  upsert_local_position, delete_local_position, from_row, Tables,
}
use portfolio_copilot.Positions.Refresh.{by_symbol}
use portfolio_copilot.Domain.Symbol.{coerce_symbol_lem, coerce_symbol, Symbol}
use portfolio_copilot.Domain.Portfolio.{BrokerAccount, Position}
use portfolio_copilot.Domain.Money.{make_money}

-- The last row of a ticker in an account, and the last position of a ticker.
abbrev pub last_row : String → String → List PositionRow → Option PositionRow
last_row id ticker [] = none
last_row id ticker (r ∷ rows) = elim (last_row id ticker rows) [
  | some x ↦ some x
  | none ↦ if is_at id ticker r then some r else none
]

abbrev pub reported : String → List Position → Option Position
reported ticker [] = none
reported ticker (p ∷ ps) = elim (reported ticker ps) [
  | some x ↦ some x
  | none ↦ if str_eq p.symbol.ticker ticker then some p else none
]

-- All rows of a ticker in an account.
abbrev pub rows_at : String → String → List PositionRow → List PositionRow
rows_at id ticker rows = select (is_at id ticker) rows

rows_at-append :
    (id ticker : String) (rows : List PositionRow) (r : PositionRow)
    → rows_at id ticker (rows ++ r ∷ [])
      ≡ (if is_at id ticker r then rows_at id ticker rows ++ r ∷ [] else rows_at id ticker rows)
rows_at-append id ticker [] r = ground arith
rows_at-append id ticker (x ∷ rows) r = ground (arith, rows_at-append id ticker rows r)

rows_at-select :
    (id ticker a b : String) (rows : List PositionRow)
    → rows_at a b (select (λ r. not (is_at id ticker r)) rows)
      ≡ (if str_eq id a && str_eq ticker b then [] else rows_at a b rows)
rows_at-select id ticker a b [] = ground arith
rows_at-select id ticker a b (r ∷ rows) = ground (
  arith,
  eq_iff r.account_id id,
  eq_iff r.account_id a,
  eq_iff id a,
  eq_iff r.symbol ticker,
  eq_iff r.symbol b,
  eq_iff ticker b,
  rows_at-select id ticker a b rows,
)

-- The last of some rows.
abbrev pub last_of : List PositionRow → Option PositionRow
last_of [] = none
last_of (r ∷ rows) = elim (last_of rows) [ some x ↦ some x | none ↦ some r ]

pub last_of-rows_at :
    (a b : String) (rows : List PositionRow) → last_row a b rows ≡ last_of (rows_at a b rows)
last_of-rows_at a b [] = refl
last_of-rows_at a b (r ∷ rows) = ground (arith, last_of-rows_at a b rows)

-- A ticker without a last row has no row.
pub rows_at-nil :
    (a b : String) (rows : List PositionRow)
    → is_some (last_row a b rows) ≡ false
    → rows_at a b rows ≡ []
rows_at-nil a b [] h = refl
rows_at-nil a b (r ∷ rows) h = elim (Option-cases (last_row a b rows)) [
  | inr (x, e) ↦ absurd (ground (arith, e, h))
  | inl e ↦ let rest = rows_at-nil a b rows (rw e refl) in ground (arith, e, h, rest)
]

-- After the deletion of a ticker no row has it.
pub deleted_untaken :
    (id ticker : String) (rows : List PositionRow)
    → any (is_at id ticker) (select (λ r. not (is_at id ticker r)) rows) ≡ false
deleted_untaken id ticker [] = refl
deleted_untaken id ticker (r ∷ rows) = ground (arith, deleted_untaken id ticker rows)

pub rows_at-delete :
    (id ticker a b : String) (t : Tables)
    → rows_at a b (delete_local_position id ticker t).positions
      ≡ (if str_eq id a && str_eq ticker b then [] else rows_at a b t.positions)
unfolding delete_local_position
rows_at-delete id ticker a b t = rows_at-select id ticker a b t.positions

pub rows_at-upsert :
    (p : Position) (now : ℕ) (a b : String) (t : Tables) {t' : Tables}
    → upsert_local_position p now t ≡ ok t'
    → rows_at a b t'.positions ≡ (
        if str_eq p.account_id a && str_eq p.symbol.ticker b
        then position_row now p ∷ []
        else rows_at a b t.positions)
unfolding upsert_local_position insert_position position_row
rows_at-upsert p now a b t h =
    let row = position_row now p in
    let t₁ = delete_local_position p.account_id p.symbol.ticker t in
    let e = rows_at-delete p.account_id p.symbol.ticker a b t in
    let f = rows_at-append a b t₁.positions row in ground (arith, e, f)

pub positions-upsert_account :
    (accounts : Result (List BrokerAccount)) (id : String) (now : ℕ) (t : Tables)
    → (upsert_local_account accounts id now t).positions ≡ t.positions
unfolding upsert_local_account
positions-upsert_account accounts id now t = ground arith

ticker-coerce : (t : String) {s : Symbol} → coerce_symbol t ≡ ok s → s.ticker ≡ t
ticker-coerce t h = let e = coerce_symbol_lem t in ground (arith, e)

pub symbol-from_row :
    (r : PositionRow) {p : Position} → from_row r ≡ ok p → p.symbol.ticker ≡ r.symbol
unfolding from_row
symbol-from_row r h =
    let (s, e, h₁) = >>=-eq-ok (coerce_symbol r.symbol) _ h in
    let (c, e₁, h₂) = >>=-eq-ok (make_money r.average_cost r.average_cost_currency) _ h₁ in
    let (m, e₂, h₃) = >>=-eq-ok (make_money r.market_value "USD") _ h₂ in
    let (u, e₃, h₄) = >>=-eq-ok (make_money r.unrealized_pnl "USD") _ h₃ in
    ap (λ (x : Position). x.symbol.ticker) (sym (ok_injective h₄)) ∙ ticker-coerce r.symbol e

pub from_rows-nil : {ps : List Position} → from_rows [] ≡ ok ps → ps ≡ []
unfolding from_rows
from_rows-nil h = sym (ok_injective h)

pub from_rows-cons :
    (r : PositionRow) (rows : List PositionRow) {ps : List Position}
    → from_rows (r ∷ rows) ≡ ok ps
    → (p : Position) × (l : List Position) × (from_row r ≡ ok p)
      × (from_rows rows ≡ ok l)
      × (ps ≡ p ∷ l)
unfolding from_rows
from_rows-cons r rows h =
    let (p, e, h₁) = >>=-eq-ok (from_row r) _ h in
    let (l, e₁, h₂) = >>=-eq-ok (from_rows rows) _ h₁ in (p, l, e, e₁, sym (ok_injective h₂))

-- The rows of an account.
abbrev pub rows_of : String → List PositionRow → List PositionRow
rows_of id rows = select (λ (r : PositionRow). str_eq r.account_id id) rows

pub reported-from_rows :
    (id b : String) (rows : List PositionRow) {ps : List Position}
    → from_rows (rows_of id rows) ≡ ok ps
    → is_some (reported b ps) ≡ is_some (last_row id b rows)
reported-from_rows id b [] h = rw (from_rows-nil h) refl
reported-from_rows id b (r ∷ rows) h = elim (Bool-cases (str_eq r.account_id id)) [
  | inr e ↦
      let skipped : rows_of id (r ∷ rows) ≡ rows_of id rows = rw e refl in
      let rest = reported-from_rows id b rows (ap from_rows (sym skipped) ∙ h) in
      ground (arith, rest, e)
  | inl e ↦
      let kept : rows_of id (r ∷ rows) ≡ r ∷ rows_of id rows = rw e refl in
      let (p, l, read, more, same) =
        from_rows-cons r (rows_of id rows) (ap from_rows (sym kept) ∙ h) in
      let rest = reported-from_rows id b rows more in
      let named = symbol-from_row r read in rw same (ground (arith, rest, e, named))
]

pub get-by_symbol :
    (b : String) (ps : List Position) (d : Dict Position)
    → Dict.get b (by_symbol ps d) ≡ elim (reported b ps) [ some p ↦ some p | none ↦ Dict.get b d ]
unfolding by_symbol
get-by_symbol b [] d = refl
get-by_symbol b (p ∷ ps) d =
    let e = get-by_symbol b ps (Dict.put p.symbol.ticker p d) in
    let f = Dict.get-put p.symbol.ticker b p d in ground (arith, e, f)
