-- ===== src/Outbox/Envelope.antt =====
-- event_envelope.py. The texts of UUIDs and of ISO times are known by what their readers, `UUID` and
-- `datetime.fromisoformat`, make of them.
use mathlib.Core.Option
use portfolio_copilot.Prelude.{refl, if◌then◌else◌, ℕ, ◌≡◌, String, Option, none, some}
use portfolio_copilot.Domain.Events.{
  EventType, AggregateType, Payload, DomainEvent, value, aggregate_value, of_value,
  of_aggregate_value, of_value-value, of_aggregate_value-aggregate_value,
}
use portfolio_copilot.Prelude.Text.{is_blank}

pub record Envelope : Type 0 where
  pub id : ℕ
  pub type : EventType
  pub aggregate_id : String
  pub aggregate_type : AggregateType
  pub occurred_at : ℕ
  pub correlation_id : ℕ
  pub payload : Payload
  pub schema_version : ℕ
  pub causation_id : Option ℕ

-- A text that its reader takes for a value, as `str` and `isoformat` print it, or one that makes the
-- reader raise a ValueError.
pub data Printed : Type 0 where
  printed : ℕ → Printed
  unreadable : String → Printed

unfoldable pub read_printed : Printed → Option ℕ
read_printed (printed n) = some n
read_printed (unreadable s) = none

-- `UUID(d["causation_id"]) if d.get("causation_id") else None`
unfoldable pub read_optional : Option Printed → Option (Option ℕ)
read_optional none = some none
read_optional (some (printed n)) = some (some n)
read_optional (some (unreadable s)) = if is_blank s then some none else none

-- The JSON dict; `schema_version` and `causation_id` may be missing.
pub record EnvelopeDict : Type 0 where
  pub id : Printed
  pub type : String
  pub aggregate_id : String
  pub aggregate_type : String
  pub occurred_at : Printed
  pub correlation_id : Printed
  pub causation_id : Option Printed
  pub schema_version : Option ℕ
  pub payload : Payload

unfoldable pub to_dict : Envelope → EnvelopeDict
to_dict e = record {
  id = printed e.id;
  type = value e.type;
  aggregate_id = e.aggregate_id;
  aggregate_type = aggregate_value e.aggregate_type;
  occurred_at = printed e.occurred_at;
  correlation_id = printed e.correlation_id;
  causation_id = Option.map printed e.causation_id;
  schema_version = some e.schema_version;
  payload = e.payload;
}

-- `d.get("schema_version", 1)`
version_or_one : Option ℕ → ℕ
version_or_one none = 1
version_or_one (some n) = n

infixl 5 ◌>>=◌
abbrev ◌>>=◌ : {A B : Type 0} → Option A → (A → Option B) → Option B
none >>= f = none
some a >>= f = f a

-- `from_dict`; `none` is the ValueError of a text that is no UUID or time, or of a type that is not
-- in the catalog.
unfoldable pub from_dict : EnvelopeDict → Option Envelope
unfolding version_or_one read_printed read_optional
from_dict d = do
  id ← read_printed d.id
  type ← of_value d.type
  aggregate_type ← of_aggregate_value d.aggregate_type
  occurred_at ← read_printed d.occurred_at
  correlation_id ← read_printed d.correlation_id
  causation_id ← read_optional d.causation_id
  some (record {
    id = id;
    type = type;
    aggregate_id = d.aggregate_id;
    aggregate_type = aggregate_type;
    occurred_at = occurred_at;
    correlation_id = correlation_id;
    payload = d.payload;
    schema_version = version_or_one d.schema_version;
    causation_id = causation_id;
  })

-- `make_envelope`, with the identifier that `uuid4` draws.
unfoldable pub make_envelope : ℕ → DomainEvent → ℕ → ℕ → Option ℕ → Envelope
make_envelope id event correlation_id occurred_at causation_id = record {
  id = id;
  type = event.type;
  aggregate_id = event.aggregate_id;
  aggregate_type = event.aggregate_type;
  occurred_at = occurred_at;
  correlation_id = correlation_id;
  payload = event.payload;
  schema_version = event.schema_version;
  causation_id = causation_id;
}

read-map_printed : (o : Option ℕ) → read_optional (Option.map printed o) ≡ some o
unfolding read_optional
read-map_printed none = refl
read-map_printed (some n) = refl

-- What is written to the outbox is read back as the same envelope.
pub from_dict-to_dict : (e : Envelope) → from_dict (to_dict e) ≡ some e
unfolding from_dict to_dict
from_dict-to_dict e =
    rw
      (
        of_value-value e.type,
        of_aggregate_value-aggregate_value e.aggregate_type,
        read-map_printed e.causation_id,
      )
      refl
