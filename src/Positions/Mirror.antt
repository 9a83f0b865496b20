-- ===== src/Positions/Mirror.antt =====
-- refresh_positions.py: the local rows of an account after a refresh.
use portfolio_copilot.Prelude.{
  Option, ap, ◌∙◌, sym, refl, eq_iff, inl, inr, Bool-cases, [], ◌∷◌, ok_injective, arith, is_some,
  ◌&&◌, false, str_eq, if◌then◌else◌, All, ◌≡◌, List, String, ℕ, ok, >>=-eq-ok, none, some,
}
use portfolio_copilot.Prelude.Dict
use mathlib.Core.Option
use portfolio_copilot.Prelude.Dict.{Dict, contains}
use portfolio_copilot.Positions.Refresh.{
  RefreshPositionsResult, BrokerPort, execute, by_symbol, record_drift, refresh_all,
  refresh_position, drop_orphans, drop_orphan, Progress, RefreshPositionsCommand,
}
use portfolio_copilot.Domain.Portfolio.{Position}
use portfolio_copilot.Positions.Rows.{
  last_of, positions-upsert_account, reported-from_rows, get-by_symbol, rows_at-upsert,
  rows_at-delete, rows_at-nil, rows_at, reported, last_row,
}
use portfolio_copilot.Positions.Tables.{
  PositionRow, upsert_local_account, load_local_positions, upsert_local_position, Tables,
  position_row,
}
use text.Mathlib.TextPositions.{eq_refl}
use portfolio_copilot.Domain.Events.{DomainEvent}
use mathlib.Core.Path.{subst}

-- The positions that a broker returns for an account carry its identifier.
abbrev pub BelongsTo : String → Position → Type 0
BelongsTo id p = p.account_id ≡ id

-- The row that stands for what is reported of a ticker.
abbrev pub mirrored : ℕ → Option Position → List PositionRow
mirrored now none = []
mirrored now (some p) = position_row now p ∷ []

pub last_of-mirrored :
    (now : ℕ) (o : Option Position) → last_of (mirrored now o) ≡ Option.map (position_row now) o
last_of-mirrored now none = refl
last_of-mirrored now (some p) = refl

module _ (cmd : RefreshPositionsCommand) (now : ℕ) where
  pub refresh_position-eq-ok :
      (p : Position) (s : Progress) {s' : Progress}
      → refresh_position cmd now p s ≡ ok s'
      → (t : Tables) × (upsert_local_position p now s.tables ≡ ok t)
        × (s'.tables ≡ t)
        × (s'.prior_by_symbol ≡ Dict.pop p.symbol.ticker s.prior_by_symbol)
  unfolding refresh_position record_drift
  refresh_position-eq-ok p s h =
      let (t, e, h₁) = >>=-eq-ok (upsert_local_position p now s.tables) _ h in
      (t, e, ground arith, ground arith)

  -- The rows of the account after the first loop.
  row-refresh_all :
      (b : String) (ps : List Position) (s : Progress) {s' : Progress}
      → All (BelongsTo cmd.account_id) ps
      → refresh_all cmd now ps s ≡ ok s'
      → rows_at cmd.account_id b s'.tables.positions ≡ elim (reported b ps) [
        | some p ↦ position_row now p ∷ []
        | none ↦ rows_at cmd.account_id b s.tables.positions
      ]
  unfolding refresh_all
  row-refresh_all b [] s own h = rw (← ok_injective h) refl
  row-refresh_all b (p ∷ ps) s own h =
      let (s₁, e, h₁) = >>=-eq-ok (refresh_position cmd now p s) _ h in
      let (t, stored, same, _) = refresh_position-eq-ok p s e in
      let rest = row-refresh_all b ps s₁ own.1 h₁ in
      let here = rows_at-upsert p now cmd.account_id b s.tables stored in
      ground (arith, rest, here, same, own.0, eq_refl cmd.account_id)

  -- The rows of another account after it.
  other-refresh_all :
      (a b : String) (ps : List Position) (s : Progress) {s' : Progress}
      → All (BelongsTo cmd.account_id) ps
      → str_eq cmd.account_id a ≡ false
      → refresh_all cmd now ps s ≡ ok s'
      → rows_at a b s'.tables.positions ≡ rows_at a b s.tables.positions
  unfolding refresh_all
  other-refresh_all a b [] s own ne h = rw (← ok_injective h) refl
  other-refresh_all a b (p ∷ ps) s own ne h =
      let (s₁, e, h₁) = >>=-eq-ok (refresh_position cmd now p s) _ h in
      let (t, stored, same, _) = refresh_position-eq-ok p s e in
      let rest = other-refresh_all a b ps s₁ own.1 ne h₁ in
      let here = rows_at-upsert p now a b s.tables stored in ground (arith, rest, here, same, own.0)

  -- What is left of the prior positions.
  prior-refresh_all :
      (b : String) (ps : List Position) (s : Progress) {s' : Progress}
      → refresh_all cmd now ps s ≡ ok s'
      → Dict.get b s'.prior_by_symbol
        ≡ (if is_some (reported b ps) then none else Dict.get b s.prior_by_symbol)
  unfolding refresh_all
  prior-refresh_all b [] s h = rw (← ok_injective h) refl
  prior-refresh_all b (p ∷ ps) s h =
      let (s₁, e, h₁) = >>=-eq-ok (refresh_position cmd now p s) _ h in
      let (t, stored, _, popped) = refresh_position-eq-ok p s e in
      let rest = prior-refresh_all b ps s₁ h₁ in
      let gone = Dict.get-pop p.symbol.ticker b s.prior_by_symbol in
      ground (arith, rest, popped, gone)

  row-drop_orphans :
      (a b : String) (d : Dict Position) (s : Progress)
      → rows_at a b (drop_orphans cmd now d s).tables.positions
        ≡ (if str_eq cmd.account_id a && contains b d then [] else rows_at a b s.tables.positions)
  unfolding drop_orphans drop_orphan Dict.get
  row-drop_orphans a b [] s = ground arith
  row-drop_orphans a b ((k, p) ∷ d) s =
      let rest = row-drop_orphans a b d (drop_orphan cmd now k p s) in
      let here = rows_at-delete cmd.account_id k a b s.tables in ground (arith, rest, here)

  -- The local rows and the prior positions name the same tickers.
  contains-prior :
      (b : String) (t : Tables) {ps : List Position}
      → load_local_positions cmd.account_id t ≡ ok ps
      → contains b (by_symbol ps []) ≡ is_some (last_row cmd.account_id b t.positions)
  unfolding load_local_positions Dict.get
  contains-prior b t {ps} h =
      let e = get-by_symbol b ps [] in
      let f = reported-from_rows cmd.account_id b t.positions h in ground (arith, e, f)

  -- The two loops, after the load.
  loops_mirror :
      (a b : String) (fresh prior : List Position) (s : Progress) {s' : Progress}
      → All (BelongsTo cmd.account_id) fresh
      → load_local_positions cmd.account_id s.tables ≡ ok prior
      → s.prior_by_symbol ≡ by_symbol prior []
      → refresh_all cmd now fresh s ≡ ok s'
      → rows_at a b (drop_orphans cmd now s'.prior_by_symbol s').tables.positions ≡ (
          if str_eq cmd.account_id a
          then mirrored now (reported b fresh)
          else rows_at a b s.tables.positions)
  loops_mirror a b fresh prior s {s'} own load same h =
      let orphans = row-drop_orphans a b s'.prior_by_symbol s' in
      let left = prior-refresh_all b fresh s h in
      let known = contains-prior b s.tables load in
      elim (Bool-cases (str_eq cmd.account_id a)) [
        | inr ne ↦
            let rest = other-refresh_all a b fresh s own ne h in ground (arith, orphans, rest, ne)
        | inl e ↦
            let rest = row-refresh_all b fresh s own h in
            let one = (eq_iff cmd.account_id a).0 e in
            elim (Bool-cases (is_some (last_row cmd.account_id b s.tables.positions))) [
              | inl some_row ↦ ground (arith, orphans, left, known, rest, one, e, some_row)
              | inr no_row ↦
                  let empty = rows_at-nil cmd.account_id b s.tables.positions no_row in
                  ground (arith, orphans, left, known, rest, one, e, no_row, empty)
            ]
      ]

-- After a refresh that returns, whatever the table held before: if the broker reports a position of a
-- ticker, the account has exactly one row of it, the row of the last one that is reported, with the
-- time of the refresh; if it reports none, the account has no row of the ticker; and every other
-- account has the rows that it had. The broker's positions carry the account that they were asked for.
pub refresh_mirrors :
    (cmd : RefreshPositionsCommand) (broker : BrokerPort) (now : ℕ) (t : Tables)
    (fresh : List Position) (a b : String) {r : Tables × List DomainEvent × RefreshPositionsResult}
    → broker.get_positions cmd.account_id ≡ ok fresh
    → All (BelongsTo cmd.account_id) fresh
    → execute cmd broker now t ≡ ok r
    → rows_at a b r.0.positions ≡ (
        if str_eq cmd.account_id a
        then mirrored now (reported b fresh)
        else rows_at a b t.positions)
unfolding execute
refresh_mirrors cmd broker now t fresh a b {r} asked own h =
    let (l, e, h₁) = >>=-eq-ok (broker.get_positions cmd.account_id) _ h in
    let t₁ = upsert_local_account broker.get_accounts cmd.account_id now t in
    let (prior, load, h₂) = >>=-eq-ok (load_local_positions cmd.account_id t₁) _ h₁ in
    let start : Progress = record {
      tables = t₁;
      prior_by_symbol = by_symbol prior [];
      drift_details = [];
      payloads = [];
    } in
    let (s, looped, h₃) = >>=-eq-ok (refresh_all cmd now l start) _ h₂ in
    let same : fresh ≡ l = ok_injective (sym asked ∙ e) in
    let mirror =
      loops_mirror cmd now a b l prior start (subst (All (BelongsTo cmd.account_id)) same own) load
        refl looped in
    let kept = positions-upsert_account broker.get_accounts cmd.account_id now t in
    let out : rows_at a b r.0.positions
        ≡ rows_at a b (drop_orphans cmd now s.prior_by_symbol s).tables.positions =
      ap (λ (x : Tables × List DomainEvent × RefreshPositionsResult). rows_at a b x.0.positions)
        (sym (ok_injective h₃)) in
    rw (out, mirror, kept, same) refl
