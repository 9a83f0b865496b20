-- ===== src/Domain/Events.antt =====
-- The event catalog (src/trading/domain/common/event_types.py) and the event that an aggregate
-- raises (events.py). A payload is a value with one constructor for each `payload` dict.
use portfolio_copilot.Prelude.{
  ℕ, ◌≡◌, refl, String, List, [], ◌∷◌, Option, none, some, Bool, true, false, not, str_eq,
  if◌then◌else◌,
}
use portfolio_copilot.Decimal.{Decimal}
use portfolio_copilot.Domain.Portfolio.{DriftKind, Severity}
use portfolio_copilot.Domain.Congress.{TransactionType}
use portfolio_copilot.Prelude.Int.{ℤ}

pub data EventType : Type 0 where
  position_reconciled position_drift_detected account_snapshot_taken bar_closed regime_changed :
      EventType
  gap_detected option_chain_snapshot_taken trade_disclosure_received member_updated : EventType
  filing_corrected signal_produced briefing_produced order_intent_created approval_requested :
      EventType
  approval_granted approval_rejected approval_expired order_submission_requested order_submitted :
      EventType
  order_filled order_cancelled order_rejected broker_order_status_synced audit_event_recorded :
      EventType

pub data AggregateType : Type 0 where
  account position ticker bar regime member trade_disclosure signal briefing order_intent :
      AggregateType
  approval order audit : AggregateType

-- `EventType(…).value`
unfoldable pub value : EventType → String
value position_reconciled = "portfolio.position_reconciled.v1"
value position_drift_detected = "portfolio.position_drift_detected.v1"
value account_snapshot_taken = "portfolio.account_snapshot_taken.v1"
value bar_closed = "market_data.bar_closed.v1"
value regime_changed = "market_data.regime_changed.v1"
value gap_detected = "market_data.gap_detected.v1"
value option_chain_snapshot_taken = "market_data.option_chain_snapshot_taken.v1"
value trade_disclosure_received = "congressional.trade_disclosure_received.v1"
value member_updated = "congressional.member_updated.v1"
value filing_corrected = "congressional.filing_corrected.v1"
value signal_produced = "signals.signal_produced.v1"
value briefing_produced = "signals.briefing_produced.v1"
value order_intent_created = "execution.order_intent_created.v1"
value approval_requested = "execution.approval_requested.v1"
value approval_granted = "execution.approval_granted.v1"
value approval_rejected = "execution.approval_rejected.v1"
value approval_expired = "execution.approval_expired.v1"
value order_submission_requested = "execution.order_submission_requested.v1"
value order_submitted = "execution.order_submitted.v1"
value order_filled = "execution.order_filled.v1"
value order_cancelled = "execution.order_cancelled.v1"
value order_rejected = "execution.order_rejected.v1"
value broker_order_status_synced = "execution.broker_order_status_synced.v1"
value audit_event_recorded = "audit.audit_event_recorded.v1"

unfoldable pub aggregate_value : AggregateType → String
aggregate_value AggregateType.account = "account"
aggregate_value AggregateType.position = "position"
aggregate_value AggregateType.ticker = "ticker"
aggregate_value AggregateType.bar = "bar"
aggregate_value AggregateType.regime = "regime"
aggregate_value AggregateType.member = "member"
aggregate_value AggregateType.trade_disclosure = "trade_disclosure"
aggregate_value AggregateType.signal = "signal"
aggregate_value AggregateType.briefing = "briefing"
aggregate_value AggregateType.order_intent = "order_intent"
aggregate_value AggregateType.approval = "approval"
aggregate_value AggregateType.order = "order"
aggregate_value AggregateType.audit = "audit"

-- Every member of the enum, in its order.
abbrev members : List EventType
members =
    position_reconciled ∷ position_drift_detected ∷ account_snapshot_taken ∷ bar_closed
    ∷ regime_changed ∷ gap_detected ∷ option_chain_snapshot_taken ∷ trade_disclosure_received
    ∷ member_updated ∷ filing_corrected ∷ signal_produced ∷ briefing_produced ∷ order_intent_created
    ∷ approval_requested ∷ approval_granted ∷ approval_rejected ∷ approval_expired
    ∷ order_submission_requested ∷ order_submitted ∷ order_filled ∷ order_cancelled ∷ order_rejected
    ∷ broker_order_status_synced ∷ audit_event_recorded ∷ []

abbrev aggregates : List AggregateType
aggregates =
    AggregateType.account ∷ AggregateType.position ∷ AggregateType.ticker ∷ AggregateType.bar
    ∷ AggregateType.regime ∷ AggregateType.member ∷ AggregateType.trade_disclosure
    ∷ AggregateType.signal ∷ AggregateType.briefing ∷ AggregateType.order_intent
    ∷ AggregateType.approval ∷ AggregateType.order ∷ AggregateType.audit ∷ []

find_value {ℓ} : {A : Type ℓ} → (A → String) → String → List A → Option A
find_value name s [] = none
find_value name s (e ∷ es) = if str_eq (name e) s then some e else find_value name s es

-- `EventType(s)`: the member with the value `s`; `none` is the ValueError.
unfoldable pub of_value : String → Option EventType
unfolding find_value value
of_value s = find_value value s members

unfoldable pub of_aggregate_value : String → Option AggregateType
unfolding find_value aggregate_value
of_aggregate_value s = find_value aggregate_value s aggregates

-- `_DEFERRED_EXECUTION_EVENTS`
is_deferred : EventType → Bool
is_deferred order_intent_created = true
is_deferred approval_requested = true
is_deferred approval_granted = true
is_deferred approval_rejected = true
is_deferred approval_expired = true
is_deferred order_submission_requested = true
is_deferred order_submitted = true
is_deferred order_filled = true
is_deferred order_cancelled = true
is_deferred order_rejected = true
is_deferred broker_order_status_synced = true
is_deferred _ = false

unfoldable pub is_produced_in_v1 : EventType → Bool
unfolding is_deferred
is_produced_in_v1 e = not (is_deferred e)

-- The value of a member names that member and no other.
pub of_value-value : (e : EventType) → of_value (value e) ≡ some e
unfolding of_value
of_value-value position_reconciled = refl
of_value-value position_drift_detected = refl
of_value-value account_snapshot_taken = refl
of_value-value bar_closed = refl
of_value-value regime_changed = refl
of_value-value gap_detected = refl
of_value-value option_chain_snapshot_taken = refl
of_value-value trade_disclosure_received = refl
of_value-value member_updated = refl
of_value-value filing_corrected = refl
of_value-value signal_produced = refl
of_value-value briefing_produced = refl
of_value-value order_intent_created = refl
of_value-value approval_requested = refl
of_value-value approval_granted = refl
of_value-value approval_rejected = refl
of_value-value approval_expired = refl
of_value-value order_submission_requested = refl
of_value-value order_submitted = refl
of_value-value order_filled = refl
of_value-value order_cancelled = refl
of_value-value order_rejected = refl
of_value-value broker_order_status_synced = refl
of_value-value audit_event_recorded = refl

pub of_aggregate_value-aggregate_value :
    (a : AggregateType) → of_aggregate_value (aggregate_value a) ≡ some a
unfolding of_aggregate_value
of_aggregate_value-aggregate_value AggregateType.account = refl
of_aggregate_value-aggregate_value AggregateType.position = refl
of_aggregate_value-aggregate_value AggregateType.ticker = refl
of_aggregate_value-aggregate_value AggregateType.bar = refl
of_aggregate_value-aggregate_value AggregateType.regime = refl
of_aggregate_value-aggregate_value AggregateType.member = refl
of_aggregate_value-aggregate_value AggregateType.trade_disclosure = refl
of_aggregate_value-aggregate_value AggregateType.signal = refl
of_aggregate_value-aggregate_value AggregateType.briefing = refl
of_aggregate_value-aggregate_value AggregateType.order_intent = refl
of_aggregate_value-aggregate_value AggregateType.approval = refl
of_aggregate_value-aggregate_value AggregateType.order = refl
of_aggregate_value-aggregate_value AggregateType.audit = refl

pub data Payload : Type 0 where
  reconciled :
      (account_id symbol : String) (quantity average_cost market_value unrealized_pnl : Decimal)
      (as_of : ℕ)
      → Payload
  drift :
      (account_id symbol : String) (drift_kind : DriftKind) (severity : Severity)
      (fresh_quantity : Decimal) (prior_quantity : Option Decimal) (detected_at correlation_id : ℕ)
      → Payload
  disclosed :
      (filing_id member_id member_name : String) (symbol : Option String)
      (transaction_type : TransactionType) (transaction_date disclosure_date : ℕ)
      (amount_range_low amount_range_high : Option ℤ) (lag_days : ℤ) (received_at : ℕ)
      → Payload
  briefed :
      (briefing_id : String) (briefing_date disclosures_count portfolio_overlaps : ℕ)
      (market_regime generated_by : String)
      → Payload
  digested :
      (digest_id : String) (digest_date disclosures_count portfolio_overlaps : ℕ)
      (generated_by model : String)
      → Payload
  blob_ref : (key : String) → Payload
  other : Payload

pub record DomainEvent : Type 0 where
  pub type : EventType
  pub aggregate_id : String
  pub aggregate_type : AggregateType
  pub payload : Payload
  pub schema_version : ℕ
