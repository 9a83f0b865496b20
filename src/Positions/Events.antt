-- ===== src/Positions/Events.antt =====
-- The events that a refresh of refresh_positions.py collects, and when it returns.
use portfolio_copilot.Prelude.{
  >>=-returns, any-append_last, inr, inl, any-update_where, update_where, Bool-cases, ◌∙◌, str_eq,
  sym, any, String, [], ◌++◌, length-append, ◌∷◌, true, arith, ok_injective, All, ◌+◌, false, List,
  length, ◌≡◌, ℕ, refl, ok, >>=-eq-ok, some,
}
use portfolio_copilot.Prelude.Dict.{Dict}
use portfolio_copilot.Decimal
use portfolio_copilot.Decimal.{Decimal}
use portfolio_copilot.Positions.Tables.{
  AccountRow, find_account, new_row, refreshed_row, load_local_positions, upsert_local_account,
  delete_local_position, position_row, has_account, insert_position, upsert_local_position, Tables,
}
use portfolio_copilot.Positions.Mirror.{refresh_position-eq-ok, BelongsTo}
use portfolio_copilot.Positions.Refresh.{
  RefreshPositionsResult, execute, refresh_all, refresh_position, record_drift, drop_orphans,
  drop_orphan, by_symbol, Progress, BrokerPort, RefreshPositionsCommand,
}
use portfolio_copilot.Domain.Portfolio.{BrokerAccount, Position}
use portfolio_copilot.Domain.Events.{DomainEvent}
use portfolio_copilot.Positions.Rows.{deleted_untaken, positions-upsert_account}

-- One event for each drift detail, besides `n` others.
abbrev Counts : ℕ → Progress → Type 0
Counts n s = length s.payloads ≡ n + length s.drift_details

module _ (cmd : RefreshPositionsCommand) (now : ℕ) where
  count-refresh_position :
      (p : Position) (n : ℕ) (s : Progress) {s' : Progress}
      → Counts n s
      → refresh_position cmd now p s ≡ ok s'
      → Counts (n + 1) s'
  unfolding refresh_position record_drift
  count-refresh_position p n s c h =
      let (t, e, h₁) = >>=-eq-ok (upsert_local_position p now s.tables) _ h in
      grind (arith, length-append)

  count-refresh_all :
      (ps : List Position) (n : ℕ) (s : Progress) {s' : Progress}
      → Counts n s
      → refresh_all cmd now ps s ≡ ok s'
      → Counts (n + length ps) s'
  unfolding refresh_all
  count-refresh_all [] n s c h = rw (← ok_injective h) (omega arith)
  count-refresh_all (p ∷ ps) n s c h =
      let (s₁, e, h₁) = >>=-eq-ok (refresh_position cmd now p s) _ h in
      let rest = count-refresh_all ps (n + 1) s₁ (count-refresh_position p n s c e) h₁ in
      omega (arith, rest)

  count-drop_orphans :
      (d : Dict Position) (n : ℕ) (s : Progress) → Counts n s → Counts n (drop_orphans cmd now d s)
  unfolding drop_orphans drop_orphan
  count-drop_orphans [] n s c = c
  count-drop_orphans ((k, p) ∷ d) n s c =
      count-drop_orphans d n (drop_orphan cmd now k p s) (grind (arith, length-append))

-- A refresh that returns collects one event for each position that the broker reports and one more
-- for each drift that it details.
pub refresh_counts :
    (cmd : RefreshPositionsCommand) (broker : BrokerPort) (now : ℕ) (t : Tables)
    {r : Tables × List DomainEvent × RefreshPositionsResult}
    → execute cmd broker now t ≡ ok r
    → length r.1 ≡ length r.2.refreshed_positions + length r.2.drift_details
unfolding execute
refresh_counts cmd broker now t {r} h =
    let (l, e, h₁) = >>=-eq-ok (broker.get_positions cmd.account_id) _ h in
    let t₁ = upsert_local_account broker.get_accounts cmd.account_id now t in
    let (prior, load, h₂) = >>=-eq-ok (load_local_positions cmd.account_id t₁) _ h₁ in
    let start : Progress = record {
      tables = t₁;
      prior_by_symbol = by_symbol prior [];
      drift_details = [];
      payloads = [];
    } in
    let (s, looped, h₃) = >>=-eq-ok (refresh_all cmd now l start) _ h₂ in
    let turns = count-refresh_all cmd now l 0 start refl looped in
    let each : Counts (length l) s = omega (arith, turns) in
    rw (← ok_injective h₃) (count-drop_orphans cmd now s.prior_by_symbol (length l) s each)

-- What the constraints of the table ask of a position.
abbrev pub IsStorable : Position → Type 0
IsStorable p = Decimal.is_zero p.quantity ≡ false

module _ (cmd : RefreshPositionsCommand) (now : ℕ) where
  upsert-returns :
      (p : Position) (t : Tables)
      → IsStorable p
      → BelongsTo cmd.account_id p
      → has_account cmd.account_id t ≡ true
      → (t' : Tables) × (upsert_local_position p now t ≡ ok t')
        × (has_account cmd.account_id t' ≡ true)
  unfolding upsert_local_position insert_position position_row delete_local_position
  upsert-returns p t fits own known =
      let kept = delete_local_position p.account_id p.symbol.ticker t in
      let gone = deleted_untaken cmd.account_id p.symbol.ticker t.positions in
      (
        record t { positions = kept.positions ++ position_row now p ∷ [] },
        rw own (ground (arith, fits, known, gone)),
        known,
      )

  refresh_position-returns :
      (p : Position) (s : Progress) {t : Tables}
      → upsert_local_position p now s.tables ≡ ok t
      → (s' : Progress) × (refresh_position cmd now p s ≡ ok s')
  unfolding refresh_position
  refresh_position-returns p s {t} stored =
      >>=-returns (upsert_local_position p now s.tables) _ stored (_, refl)

  refresh_all-returns :
      (ps : List Position) (s : Progress)
      → All IsStorable ps
      → All (BelongsTo cmd.account_id) ps
      → has_account cmd.account_id s.tables ≡ true
      → (s' : Progress) × (refresh_all cmd now ps s ≡ ok s')
  unfolding refresh_all
  refresh_all-returns [] s fit own known = (s, refl)
  refresh_all-returns (p ∷ ps) s fit own known =
      let (t, stored, still) = upsert-returns p s.tables fit.0 own.0 known in
      let (s₁, moved) = refresh_position-returns p s stored in
      let (t₁, again, same, _) = refresh_position-eq-ok cmd now p s moved in
      let one : t ≡ t₁ = ok_injective (sym stored ∙ again) in
      let (s', rest) = refresh_all-returns ps s₁ fit.1 own.1 (rw (same, ← one) still) in
      (s', rw (moved, rest) refl)

update-has_account :
    (id : String) (now : ℕ) (a : BrokerAccount) (rows : List AccountRow)
    → any (λ (r : AccountRow). str_eq r.account_id id) rows ≡ true
    → any
        (λ (r : AccountRow). str_eq r.account_id id)
        (update_where (λ (r : AccountRow). str_eq r.account_id id) (refreshed_row now a) rows)
      ≡ true
unfolding refreshed_row
update-has_account id now a rows h =
    any-update_where _ _ _ (refreshed_row now a) rows (λ r e k. k) (λ r e k. k) h

find_account-lem :
    (id : String) (accounts : List BrokerAccount)
    → any (λ (a : BrokerAccount). str_eq a.account_id id) accounts ≡ true
    → (a : BrokerAccount) × (find_account id accounts ≡ some a) × (str_eq a.account_id id ≡ true)
unfolding find_account
find_account-lem id [] h = cc h
find_account-lem id (a ∷ accounts) h = elim (Bool-cases (str_eq a.account_id id)) [
  | inl e ↦ (a, rw e refl, e)
  | inr e ↦
      let tail : any (λ (a : BrokerAccount). str_eq a.account_id id) accounts ≡ true =
        ground (arith, e, h) in
      let (x, p, q) = find_account-lem id accounts tail in (x, rw (e, p) refl, q)
]

account-upsert :
    (id : String) (now : ℕ) (accounts : List BrokerAccount) (t : Tables)
    → any (λ (a : BrokerAccount). str_eq a.account_id id) accounts ≡ true
    → has_account id (upsert_local_account (ok accounts) id now t) ≡ true
unfolding upsert_local_account new_row
account-upsert id now accounts t h =
    let (a, found, named) = find_account-lem id accounts h in
    elim (Bool-cases (has_account id t)) [
      | inl e ↦ let kept = update-has_account id now a t.accounts e in ground (arith, found, kept)
      | inr e ↦
          let last =
            any-append_last (λ (r : AccountRow). str_eq r.account_id id) t.accounts
              (new_row now a) in
          ground (arith, found, last, named)
    ]

load-positions :
    (id : String) (t t' : Tables)
    → t.positions ≡ t'.positions
    → load_local_positions id t ≡ load_local_positions id t'
unfolding load_local_positions
load-positions id t t' e = rw e refl

-- A refresh returns if the broker lists the account and reports its positions, each under that
-- account and of a quantity that is not zero, and the local rows of the account can be read.
pub refresh_returns :
    (cmd : RefreshPositionsCommand) (broker : BrokerPort) (now : ℕ) (t : Tables)
    (accounts : List BrokerAccount) (fresh prior : List Position)
    → broker.get_accounts ≡ ok accounts
    → any (λ (a : BrokerAccount). str_eq a.account_id cmd.account_id) accounts ≡ true
    → broker.get_positions cmd.account_id ≡ ok fresh
    → All IsStorable fresh
    → All (BelongsTo cmd.account_id) fresh
    → load_local_positions cmd.account_id t ≡ ok prior
    → (r : Tables × List DomainEvent × RefreshPositionsResult) × (execute cmd broker now t ≡ ok r)
unfolding execute
refresh_returns cmd broker now t accounts fresh prior listed known asked fit own load =
    let id = cmd.account_id in
    let t₁ = upsert_local_account (ok accounts) id now t in
    let start : Progress = record {
      tables = t₁;
      prior_by_symbol = by_symbol prior [];
      drift_details = [];
      payloads = [];
    } in
    let read : load_local_positions id t₁ ≡ ok prior =
      load-positions id t₁ t (positions-upsert_account (ok accounts) id now t) ∙ load in
    let (s, looped) =
      refresh_all-returns cmd now fresh start fit own (account-upsert id now accounts t known) in
    let read' : load_local_positions id (upsert_local_account broker.get_accounts id now t)
        ≡ ok prior =
      rw listed read in
    >>=-returns (broker.get_positions id) _ asked (
      >>=-returns (load_local_positions id (upsert_local_account broker.get_accounts id now t)) _
        read' (rw listed (>>=-returns (refresh_all cmd now fresh start) _ looped (_, refl))))
