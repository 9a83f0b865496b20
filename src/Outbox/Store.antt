-- ===== src/Outbox/Store.antt =====
-- The tables `outbox` and `event_log` (persistence/models.py), as lists of rows.
use portfolio_copilot.Prelude.{
  ℕ, ◌≡◌, String, List, [], ◌∷◌, Option, none, Bool, false, is_some, ◌==◌, any,
}
use portfolio_copilot.Outbox.Envelope.{Envelope, EnvelopeDict, to_dict}
use portfolio_copilot.Domain.Events.{value, Payload, aggregate_value}

pub record OutboxRow : Type 0 where
  pub id : ℕ
  pub aggregate_id : String
  pub aggregate_type : String
  pub event_type : String
  pub schema_version : ℕ
  pub payload : Payload
  pub envelope : EnvelopeDict
  pub occurred_at : ℕ
  pub correlation_id : ℕ
  pub causation_id : Option ℕ
  pub published_at : Option ℕ
  pub retry_count : ℕ
  pub locked_at : Option ℕ
  pub locked_by : Option String
  pub last_error : Option String

pub record EventLogRow : Type 0 where
  pub event_id : ℕ
  pub event_type : String
  pub schema_version : ℕ
  pub aggregate_id : String
  pub aggregate_type : String
  pub occurred_at : ℕ
  pub correlation_id : ℕ
  pub causation_id : Option ℕ
  pub payload : Payload
  pub envelope : EnvelopeDict

pub record Db : Type 0 where
  pub outbox : List OutboxRow
  pub event_log : List EventLogRow

-- `_insert_outbox_row`: the row of an envelope, with the column defaults.
unfoldable pub outbox_row : Envelope → OutboxRow
outbox_row e = record {
  id = e.id;
  aggregate_id = e.aggregate_id;
  aggregate_type = aggregate_value e.aggregate_type;
  event_type = value e.type;
  schema_version = e.schema_version;
  payload = e.payload;
  envelope = to_dict e;
  occurred_at = e.occurred_at;
  correlation_id = e.correlation_id;
  causation_id = e.causation_id;
  published_at = none;
  retry_count = 0;
  locked_at = none;
  locked_by = none;
  last_error = none;
}

abbrev pub has_id : ℕ → EventLogRow → Bool
has_id id e = e.event_id == id

abbrev pub is_logged : ℕ → List EventLogRow → Bool
is_logged id log = any (has_id id) log

abbrev pub is_published : OutboxRow → Bool
is_published r = is_some r.published_at

-- No event stands twice in the log.
abbrev pub IsDistinct : List EventLogRow → Type 0
IsDistinct [] = Unit
IsDistinct (e ∷ log) = (is_logged e.event_id log ≡ false) × IsDistinct log
