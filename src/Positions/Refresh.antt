-- ===== src/Positions/Refresh.antt =====
-- refresh_positions.py: the drift rules, the events and `execute`.
use portfolio_copilot.Prelude.{
  is_nil, not, [], ok, str_append, Result, ◌∷◌, if◌then◌else◌, ◌++◌, ℕ, Bool, String, Option, List,
  ◌>>=◌, none, some,
}
use portfolio_copilot.Prelude.Dict
use mathlib.Core.Option
use portfolio_copilot.Prelude.Dict.{Dict}
use portfolio_copilot.Decimal
use portfolio_copilot.Decimal.{Decimal}
use portfolio_copilot.Domain.Portfolio.{
  BrokerAccount, warning, critical, DriftKind, Severity, Position, missing_local, missing_broker,
  cost_basis,
}
use portfolio_copilot.Domain.Events.{
  AggregateType, DomainEvent, position_reconciled, position_drift_detected, reconciled, drift,
}
use portfolio_copilot.Positions.Tables.{
  upsert_local_position, upsert_local_account, delete_local_position, Tables, load_local_positions,
}
use portfolio_copilot.Prelude.Int.{pos}
use portfolio_copilot.Domain.Symbol.{Symbol}

-- What the command reads of the broker.
pub record BrokerPort : Type 0 where
  pub get_positions : String → Result (List Position)
  pub get_accounts : Result (List BrokerAccount)

pub record RefreshPositionsCommand : Type 0 where
  pub account_id : String
  pub correlation_id : ℕ
  pub actor : String

pub data Detail : Type 0 where
  new_position : (ticker : String) (quantity : Decimal) → Detail
  quantity_changed : (ticker : String) (prior fresh : Decimal) → Detail
  pnl_changed : (ticker : String) (prior fresh : Decimal) → Detail
  not_reported : (ticker : String) (quantity : Decimal) → Detail

pub record RefreshPositionsResult : Type 0 where
  pub account_id : String
  pub refreshed_positions : List Position
  pub drift_detected : Bool
  pub drift_details : List Detail
  pub refreshed_at : ℕ

-- `QUANTITY_DRIFT_EPSILON` and `PNL_DRIFT_THRESHOLD`
abbrev pub quantity_drift_epsilon : Decimal
quantity_drift_epsilon = record { int = pos 1; scale = 4 }

abbrev pub pnl_drift_threshold : Decimal
pnl_drift_threshold = record { int = pos 100; scale = 2 }

abbrev pub differs : Decimal → Decimal → Decimal → Bool
differs threshold a b = Decimal.lt threshold (Decimal.abs (Decimal.sub a b))

-- `_detect_drift`
unfoldable pub detect_drift : Position → Option Position → Option (DriftKind × Detail)
detect_drift fresh none = some (missing_local, new_position fresh.symbol.ticker fresh.quantity)
detect_drift fresh (some prior) =
    if differs quantity_drift_epsilon fresh.quantity prior.quantity
    then some
        (DriftKind.quantity, quantity_changed fresh.symbol.ticker prior.quantity fresh.quantity)
    else if differs pnl_drift_threshold fresh.unrealized_pnl.amount prior.unrealized_pnl.amount
    then some (
      cost_basis,
      pnl_changed fresh.symbol.ticker prior.unrealized_pnl.amount fresh.unrealized_pnl.amount,
    )
    else none

-- `_make_reconciled_event`
unfoldable pub make_reconciled_event : String → Position → ℕ → DomainEvent
make_reconciled_event id p now = record {
  type = position_reconciled;
  aggregate_id = str_append id (str_append ":" p.symbol.ticker);
  aggregate_type = AggregateType.position;
  payload =
      reconciled id p.symbol.ticker p.quantity p.average_cost.amount p.market_value.amount
        p.unrealized_pnl.amount now;
  schema_version = 1;
}

unfoldable pub severity_of : DriftKind → Severity
severity_of missing_broker = critical
severity_of _ = warning

-- `_make_drift_event`
unfoldable pub make_drift_event :
    String → Symbol → DriftKind → Position → Option Position → ℕ → ℕ → DomainEvent
unfolding severity_of
make_drift_event id symbol kind fresh prior now correlation_id = record {
  type = position_drift_detected;
  aggregate_id = str_append id (str_append ":" symbol.ticker);
  aggregate_type = AggregateType.position;
  payload =
      drift id symbol.ticker kind (severity_of kind) fresh.quantity
        (Option.map (λ (p : Position). p.quantity) prior) now correlation_id;
  schema_version = 1;
}

-- `{p.symbol.ticker: p for p in prior_positions}`
unfoldable pub by_symbol : List Position → Dict Position → Dict Position
by_symbol [] d = d
by_symbol (p ∷ ps) d = by_symbol ps (Dict.put p.symbol.ticker p d)

-- The variables of `execute` that its loops change.
pub record Progress : Type 0 where
  pub tables : Tables
  pub prior_by_symbol : Dict Position
  pub drift_details : List Detail
  pub payloads : List DomainEvent

module _ (cmd : RefreshPositionsCommand) (now : ℕ) where
  -- The `if drift is not None` of the first loop.
  unfoldable pub record_drift :
      Position → Option Position → Option (DriftKind × Detail) → Progress → Progress
  unfolding make_drift_event
  record_drift p prior none s = s
  record_drift p prior (some (kind, detail)) s = record s {
    drift_details = s.drift_details ++ detail ∷ [];
    payloads =
        s.payloads
        ++ make_drift_event cmd.account_id p.symbol kind p prior now cmd.correlation_id ∷ [];
  }

  -- A turn of the loop over the fresh positions.
  unfoldable pub refresh_position : Position → Progress → Result Progress
  unfolding record_drift detect_drift make_reconciled_event
  refresh_position p s = do
    t ← upsert_local_position p now s.tables
    let prior = Dict.get p.symbol.ticker s.prior_by_symbol
    let popped = record s {
      tables = t;
      prior_by_symbol = Dict.pop p.symbol.ticker s.prior_by_symbol;
    }
    let seen = record_drift p prior (detect_drift p prior) popped
    ok (record seen { payloads = seen.payloads ++ make_reconciled_event cmd.account_id p now ∷ [] })

  unfoldable pub refresh_all : List Position → Progress → Result Progress
  refresh_all [] s = ok s
  refresh_all (p ∷ ps) s = do s' ← refresh_position p s; refresh_all ps s'

  -- A turn of the loop over the positions that the broker no longer reports.
  unfoldable pub drop_orphan : String → Position → Progress → Progress
  unfolding delete_local_position make_drift_event
  drop_orphan ticker p s = record s {
    tables = delete_local_position cmd.account_id ticker s.tables;
    drift_details = s.drift_details ++ not_reported ticker p.quantity ∷ [];
    payloads =
        s.payloads
        ++ make_drift_event cmd.account_id p.symbol missing_broker p (some p) now cmd.correlation_id
          ∷ [];
  }

  unfoldable pub drop_orphans : Dict Position → Progress → Progress
  drop_orphans [] s = s
  drop_orphans ((ticker, p) ∷ d) s = drop_orphans d (drop_orphan ticker p s)

-- `execute`: the tables after it, the events that it collects and its result.
unfoldable pub execute :
    RefreshPositionsCommand
    → BrokerPort
    → ℕ
    → Tables
    → Result (Tables × List DomainEvent × RefreshPositionsResult)
unfolding load_local_positions refresh_all drop_orphans by_symbol
execute cmd broker now t = do
  fresh ← broker.get_positions cmd.account_id
  let t₁ = upsert_local_account broker.get_accounts cmd.account_id now t
  prior ← load_local_positions cmd.account_id t₁
  s ← refresh_all cmd now fresh (record {
    tables = t₁;
    prior_by_symbol = by_symbol prior [];
    drift_details = [];
    payloads = [];
  })
  let s' = drop_orphans cmd now s.prior_by_symbol s
  ok (
    s'.tables,
    s'.payloads,
    record {
      account_id = cmd.account_id;
      refreshed_positions = fresh;
      drift_detected = not (is_nil s'.drift_details);
      drift_details = s'.drift_details;
      refreshed_at = now;
    },
  )
