-- ===== src/Positions/Drift.antt =====
-- refresh_positions.py: the drift rules across two refreshes.
use portfolio_copilot.Prelude.{
  is_nil, not, if◌then◌else◌, All, sym, inr, eq_iff, inl, Bool-cases, ◌∙◌, str_eq, false, arith,
  ok_injective, [], ap, ◌≡◌, String, ◌∷◌, Option, List, ℕ, refl, ok, >>=-eq-ok, none, some,
}
use portfolio_copilot.Prelude.Dict
use portfolio_copilot.Prelude.Dict.{Dict, contains}
use portfolio_copilot.Decimal
use portfolio_copilot.Decimal.{Decimal}
use mathlib.Core.Option
use portfolio_copilot.Positions.Tables.{
  upsert_local_account, Tables, position_row, load_local_positions, from_row, from_rows,
  upsert_local_position, PositionRow,
}
use portfolio_copilot.Positions.Refresh.{
  by_symbol, RefreshPositionsResult, BrokerPort, drop_orphans, execute, record_drift, differs,
  detect_drift, refresh_all, refresh_position, Progress, RefreshPositionsCommand,
}
use portfolio_copilot.Domain.Portfolio.{Position}
use portfolio_copilot.Positions.Rows.{
  last_of, last_of-rows_at, symbol-from_row, get-by_symbol, positions-upsert_account,
  from_rows-cons, from_rows-nil, last_row, rows_of, reported,
}
use portfolio_copilot.Prelude.Int.{pos}
use text.Mathlib.TextPositions.{eq_refl}
use portfolio_copilot.Domain.Money.{make_money-eq-ok, make_money}
use portfolio_copilot.Domain.Symbol.{coerce_symbol}
use portfolio_copilot.Domain.Events.{DomainEvent}
use portfolio_copilot.Positions.Mirror.{last_of-mirrored, refresh_mirrors, BelongsTo}
use mathlib.Core.Path.{subst}

-- What the drift rules compare.
abbrev pub compared : Position → Decimal × Decimal
compared p = (p.quantity, p.unrealized_pnl.amount)

abbrev compared_row : PositionRow → Decimal × Decimal
compared_row r = (r.quantity, r.unrealized_pnl)

abbrev SameView : Option Position → Option Position → Type 0
SameView p q = Option.map compared p ≡ Option.map compared q

differs_self : (k s : ℕ) (a : Decimal) → differs (record { int = pos k; scale = s }) a a ≡ false
differs_self k s a = let e = Decimal.abs-sub_self a in rw e (ground arith)

detect_drift-same : (p q : Position) → compared q ≡ compared p → detect_drift p (some q) ≡ none
unfolding detect_drift
detect_drift-same p q e =
    let e₁ : q.quantity ≡ p.quantity = ap (λ x. x.0) e in
    let e₂ : q.unrealized_pnl.amount ≡ p.unrealized_pnl.amount = ap (λ x. x.1) e in
    rw (e₁, e₂, differs_self 1 4 p.quantity, differs_self 100 2 p.unrealized_pnl.amount) refl

no_entries : (d : Dict Position) → ((b : String) → Dict.get b d ≡ none) → d ≡ []
unfolding Dict.get
no_entries [] h = refl
no_entries ((k, p) ∷ d) h = absurd (let e = h k in ground (arith, e, eq_refl k))

-- No ticker stands twice.
abbrev pub IsDistinctTickers : List Position → Type 0
IsDistinctTickers [] = Unit
IsDistinctTickers (p ∷ ps) = (reported p.symbol.ticker ps ≡ none) × IsDistinctTickers ps

option_injective : {A : Type 0} {x y : A} → some x ≡ some y → x ≡ y
option_injective h = cc

module _ (cmd : RefreshPositionsCommand) (now : ℕ) where
  refresh_position-quiet :
      (p : Position) (s : Progress) {s' : Progress} {q : Position}
      → Dict.get p.symbol.ticker s.prior_by_symbol ≡ some q
      → compared q ≡ compared p
      → refresh_position cmd now p s ≡ ok s'
      → (s'.drift_details ≡ s.drift_details)
        × (s'.prior_by_symbol ≡ Dict.pop p.symbol.ticker s.prior_by_symbol)
  unfolding refresh_position record_drift
  refresh_position-quiet p s {s'} {q} known same h =
      let (t, e, h₁) = >>=-eq-ok (upsert_local_position p now s.tables) _ h in
      let quiet = detect_drift-same p q same in (ground (arith, quiet, known), ground arith)

  found :
      (o : Option Position) (p : Position)
      → SameView o (some p)
      → (q : Position) × (o ≡ some q) × (compared q ≡ compared p)
  found none p h = cc h
  found (some q) p h = (q, refl, option_injective h)

  -- The prior positions agree with the rest of the fresh ones after a turn of the loop.
  left :
      (p : Position) (ps : List Position) (s s₁ : Progress) (b : String)
      → reported p.symbol.ticker ps ≡ none
      → s₁.prior_by_symbol ≡ Dict.pop p.symbol.ticker s.prior_by_symbol
      → SameView (Dict.get b s.prior_by_symbol) (reported b (p ∷ ps))
      → SameView (Dict.get b s₁.prior_by_symbol) (reported b ps)
  left p ps s s₁ b alone popped view =
      let gone = Dict.get-pop p.symbol.ticker b s.prior_by_symbol in
      elim (Bool-cases (str_eq p.symbol.ticker b)) [
        | inl e ↦
            let one = (eq_iff p.symbol.ticker b).0 e in
            let absent : reported b ps ≡ none = rw (← one) alone in
            rw (popped, gone, e, absent) refl
        | inr e ↦ rw (popped, gone, e) (other view e)
      ]
    where
      other :
          SameView (Dict.get b s.prior_by_symbol) (reported b (p ∷ ps))
          → str_eq p.symbol.ticker b ≡ false
          → SameView (Dict.get b s.prior_by_symbol) (reported b ps)
      other v e =
          let passed : reported b (p ∷ ps) ≡ reported b ps = ground (arith, e) in
          v ∙ ap (Option.map compared) passed

  refresh_all-quiet :
      (ps : List Position) (s : Progress) {s' : Progress}
      → IsDistinctTickers ps
      → ((b : String) → SameView (Dict.get b s.prior_by_symbol) (reported b ps))
      → refresh_all cmd now ps s ≡ ok s'
      → (s'.drift_details ≡ s.drift_details) × (s'.prior_by_symbol ≡ [])
  unfolding refresh_all
  refresh_all-quiet [] s distinct view h =
      let same = ok_injective h in
      rw (← same) (refl, no_entries s.prior_by_symbol (λ b. let v = view b in ground (arith, v)))
  refresh_all-quiet (p ∷ ps) s {s'} distinct view h =
      let (s₁, e, h₁) = >>=-eq-ok (refresh_position cmd now p s) _ h in
      let last : reported p.symbol.ticker (p ∷ ps) ≡ some p =
        let d = distinct.0 in ground (arith, d, eq_refl p.symbol.ticker) in
      let (q, known, same) =
        found (Dict.get p.symbol.ticker s.prior_by_symbol) p
          (view p.symbol.ticker ∙ ap (Option.map compared) last) in
      let (quiet, popped) = refresh_position-quiet p s known same e in
      let (rest, gone) =
        refresh_all-quiet ps s₁ distinct.1 (λ b. left p ps s s₁ b distinct.0 popped (view b)) h₁ in
      (rest ∙ quiet, gone)

compared-from_row :
    (r : PositionRow) {p : Position} → from_row r ≡ ok p → compared p ≡ compared_row r
unfolding from_row make_money
compared-from_row r h =
    let (s, _, h₁) = >>=-eq-ok (coerce_symbol r.symbol) _ h in
    let (c, _, h₂) = >>=-eq-ok (make_money r.average_cost r.average_cost_currency) _ h₁ in
    let (m, _, h₃) = >>=-eq-ok (make_money r.market_value "USD") _ h₂ in
    let (u, e, h₄) = >>=-eq-ok (make_money r.unrealized_pnl "USD") _ h₃ in
    let (_, kept, _) = make_money-eq-ok r.unrealized_pnl "USD" e in
    rw (← ok_injective h₄, kept) refl

view-from_rows :
    (id b : String) (rows : List PositionRow) {ps : List Position}
    → from_rows (rows_of id rows) ≡ ok ps
    → Option.map compared (reported b ps) ≡ Option.map compared_row (last_row id b rows)
view-from_rows id b [] h = rw (from_rows-nil h) refl
view-from_rows id b (r ∷ rows) h = elim (Bool-cases (str_eq r.account_id id)) [
  | inr e ↦
      let skipped : rows_of id (r ∷ rows) ≡ rows_of id rows = rw e refl in
      let rest = view-from_rows id b rows (ap from_rows (sym skipped) ∙ h) in
      ground (arith, rest, e)
  | inl e ↦
      let kept : rows_of id (r ∷ rows) ≡ r ∷ rows_of id rows = rw e refl in
      let (p, l, read, more, same) =
        from_rows-cons r (rows_of id rows) (ap from_rows (sym kept) ∙ h) in
      let rest = view-from_rows id b rows more in
      let named = symbol-from_row r read in
      let view = compared-from_row r read in rw same (ground (arith, rest, e, named, view))
]

get-prior : (b : String) (ps : List Position) → Dict.get b (by_symbol ps []) ≡ reported b ps
unfolding Dict.get
get-prior b ps = let e = get-by_symbol b ps [] in ground (arith, e)

row_view :
    (now : ℕ) (o : Option Position)
    → Option.map compared_row (Option.map (position_row now) o) ≡ Option.map compared o
unfolding position_row
row_view now none = refl
row_view now (some p) = refl

own_rows : {A : Type 0} (id : String) (x y : A) → (if str_eq id id then x else y) ≡ x
own_rows id x y = rw (eq_refl id) refl

-- A refresh right after another one finds no drift, if the broker still reports the same positions
-- and no ticker twice, in the account that they were asked for, and both refreshes return.
pub refresh_again_is_quiet :
    (cmd : RefreshPositionsCommand) (broker : BrokerPort) (now later : ℕ) (t : Tables)
    (fresh : List Position) {r r' : Tables × List DomainEvent × RefreshPositionsResult}
    → broker.get_positions cmd.account_id ≡ ok fresh
    → All (BelongsTo cmd.account_id) fresh
    → IsDistinctTickers fresh
    → execute cmd broker now t ≡ ok r
    → execute cmd broker later r.0 ≡ ok r'
    → (r'.2.drift_details ≡ []) × (r'.2.drift_detected ≡ false)
unfolding execute load_local_positions position_row drop_orphans
refresh_again_is_quiet cmd broker now later t fresh {r} {r'} asked own distinct first h =
    let id = cmd.account_id in
    let (l, e, h₁) = >>=-eq-ok (broker.get_positions id) _ h in
    let t₁ = upsert_local_account broker.get_accounts id later r.0 in
    let (prior, load, h₂) = >>=-eq-ok (load_local_positions id t₁) _ h₁ in
    let start : Progress = record {
      tables = t₁;
      prior_by_symbol = by_symbol prior [];
      drift_details = [];
      payloads = [];
    } in
    let (s, looped, h₃) = >>=-eq-ok (refresh_all cmd later l start) _ h₂ in
    let same : fresh ≡ l = ok_injective (sym asked ∙ e) in
    let kept = positions-upsert_account broker.get_accounts id later r.0 in
    let view : (b : String) → SameView (Dict.get b (by_symbol prior [])) (reported b fresh) = λ b.
      let mirror = refresh_mirrors cmd broker now t fresh id b asked own first in
      let read = view-from_rows id b t₁.positions load in
      ap (Option.map compared) (get-prior b prior)
      ∙ read
      ∙ ap (λ l. Option.map compared_row (last_row id b l)) kept
      ∙ ap (Option.map compared_row) (
          last_of-rows_at id b r.0.positions
          ∙ ap last_of (mirror ∙ own_rows id _ _)
          ∙ last_of-mirrored now (reported b fresh))
      ∙ row_view now (reported b fresh) in
    let (quiet, gone) =
      refresh_all-quiet cmd later fresh start distinct view
        (subst (λ x. refresh_all cmd later x start ≡ ok s) (sym same) looped) in
    let out : r'.2.drift_details ≡ (drop_orphans cmd later s.prior_by_symbol s).drift_details =
      ap (λ (x : Tables × List DomainEvent × RefreshPositionsResult). x.2.drift_details)
        (sym (ok_injective h₃)) in
    let detected : r'.2.drift_detected
        ≡ not (is_nil (drop_orphans cmd later s.prior_by_symbol s).drift_details) =
      ap (λ (x : Tables × List DomainEvent × RefreshPositionsResult). x.2.drift_detected)
        (sym (ok_injective h₃)) in
    rw (out, detected, gone) (rw quiet (refl, refl))
