-- ===== src/Schwab/Mirrored.antt =====
-- The adapter as the broker of a refresh of positions.
use portfolio_copilot.Prelude.{
  All-map, if◌then◌else◌, str_eq, any, some, ◌∙◌, ok_injective, sym, All, List, ◌≡◌, ℕ, String,
  refl, ok, true, ◌∷◌,
}
use portfolio_copilot.Prelude.Effect.{lift, >>=-eq-ok}
use portfolio_copilot.Prelude.Dict.{contains}
use portfolio_copilot.Schwab.Adapter.{
  answer, get_account, get_positions, SchwabClient, Readers, resolved, ensure_account_hashes,
}
use portfolio_copilot.Schwab.Responses.{as_dict, resolve_account_hash, Hashes}
use portfolio_copilot.Domain.Portfolio.{Position, BrokerAccount}
use portfolio_copilot.Positions.Refresh.{
  RefreshPositionsResult, RefreshPositionsCommand, execute, BrokerPort,
}
use portfolio_copilot.Schwab.Adapter.{get_accounts}
use portfolio_copilot.Schwab.Positions.{parse_account-IsParsed, IsParsed}
use portfolio_copilot.Positions.Tables.{load_local_positions, Tables}
use portfolio_copilot.Domain.Events.{DomainEvent}
use portfolio_copilot.Positions.Rows.{reported, rows_at}
use portfolio_copilot.Positions.Events.{refresh_returns, IsStorable}
use portfolio_copilot.Positions.Mirror.{mirrored, refresh_mirrors, BelongsTo}

resolve-known :
    (id : String) (s : Hashes) → contains id s ≡ true → resolve_account_hash id s ≡ ok id
unfolding resolve_account_hash
resolve-known id s known = rw known refl

module _ {Spec : Type 0} (lib : Readers) (schwab : SchwabClient Spec) (now : ℕ) where
  -- A hash that is in the cache names its own account.
  resolved-known :
      (id : String) (c : String × String) (s : Hashes) {hash : String}
      → contains id (c ∷ s) ≡ true
      → (resolved lib schwab now id (c ∷ s)).0 ≡ ok hash
      → hash ≡ id
  unfolding resolved ensure_account_hashes
  resolved-known id c s known h =
      let (u, e₀, h₁, m₀) = >>=-eq-ok (ensure_account_hashes lib schwab now) _ (c ∷ s) h in
      let (found, e₁, h₂, m₁) = >>=-eq-ok (λ t. (resolve_account_hash id t, t)) _ (c ∷ s) h₁ in
      let (v, e₂, h₃, m₂) = >>=-eq-ok (lift schwab.client) _ (c ∷ s) h₂ in
      sym (ok_injective h₃) ∙ ok_injective (sym e₁ ∙ resolve-known id (c ∷ s) known)

  -- What `get_positions` returns for a hash of the cache is filed under that hash.
  get_positions-IsParsed :
      (id : String) (c : String × String) (s : Hashes) {ps : List Position}
      → contains id (c ∷ s) ≡ true
      → (get_positions lib schwab now id (c ∷ s)).0 ≡ ok ps
      → All (IsParsed id) ps
  unfolding get_positions get_account
  get_positions-IsParsed id c s known h =
      let (a, e₀, h₁, m₀) = >>=-eq-ok (get_account lib schwab now id) _ (c ∷ s) h in
      let (hash, e₁, h₂, m₁) = >>=-eq-ok (resolved lib schwab now id) _ (c ∷ s) e₀ in
      let s₁ = (resolved lib schwab now id (c ∷ s)).1 in
      let (v, e₂, h₃, m₂) = >>=-eq-ok (answer lib schwab now (schwab.get_account hash)) _ s₁ h₂ in
      let s₂ = (answer lib schwab now (schwab.get_account hash) s₁).1 in
      let (d, e₃, h₄, m₃) = >>=-eq-ok (lift (as_dict v)) _ s₂ h₃ in
      rw (sym (ok_injective h₁), sym (resolved-known id c s known e₁))
        (parse_account-IsParsed lib.read_decimal now hash d (some now) h₄)

  -- The adapter, its cache filled, as the broker that the use case takes.
  abbrev pub as_broker : Hashes → BrokerPort
  as_broker s = record {
    get_positions = λ id. (get_positions lib schwab now id s).0;
    get_accounts = (get_accounts lib schwab now s).0;
  }

  -- A refresh through the Schwab adapter, for an account that is named by a hash of the cache and
  -- that `get_accounts` lists: if Schwab's answers parse and the local rows of the account can be
  -- read, the refresh returns. The account then has exactly one row of a ticker that a parsed position
  -- has, with the values of the last one, and no row of any other ticker; and every other account
  -- has the rows that it had.
  pub schwab_refresh_mirrors :
      (cmd : RefreshPositionsCommand) (c : String × String) (s : Hashes) (later : ℕ) (t : Tables)
      (accounts : List BrokerAccount) (fresh prior : List Position)
      → contains cmd.account_id (c ∷ s) ≡ true
      → (get_accounts lib schwab now (c ∷ s)).0 ≡ ok accounts
      → any (λ (a : BrokerAccount). str_eq a.account_id cmd.account_id) accounts ≡ true
      → (get_positions lib schwab now cmd.account_id (c ∷ s)).0 ≡ ok fresh
      → load_local_positions cmd.account_id t ≡ ok prior
      → (r : Tables × List DomainEvent × RefreshPositionsResult) × (execute cmd
            (as_broker (c ∷ s))
            later
            t
          ≡ ok r)
        × ((a b : String)
            → rows_at a b r.0.positions ≡ (
                if str_eq cmd.account_id a
                then mirrored later (reported b fresh)
                else rows_at a b t.positions))
  schwab_refresh_mirrors cmd c s later t accounts fresh prior known listed named asked load =
      let parsed = get_positions-IsParsed cmd.account_id c s known asked in
      let held = All-map _ IsStorable fresh (λ p k. k.held) parsed in
      let own = All-map _ (BelongsTo cmd.account_id) fresh (λ p k. k.filed) parsed in
      let broker = as_broker (c ∷ s) in
      let (r, done) =
        refresh_returns cmd broker later t accounts fresh prior listed named asked held own load in
      (r, done, λ a b. refresh_mirrors cmd broker later t fresh a b asked own done)
