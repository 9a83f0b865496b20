-- ===== src/Worker/DriftAlert.antt =====
-- apps/worker/handlers/drift_alert.py: the handler on the bus. Its session is what was sent.
use portfolio_copilot.Prelude.{◌++◌, Option, none, some, [], ◌∷◌}
use portfolio_copilot.Domain.Events.{drift, position_drift_detected}
use portfolio_copilot.Domain.Portfolio.{Severity}
use portfolio_copilot.Outbox.Bus.{subscribe_sync, EventBus, Handler, done}
use portfolio_copilot.Outbox.Envelope.{Envelope}
use portfolio_copilot.Worker.Jobs.{note, Notification, Sent}

-- The alert of an envelope, if it has one.
unfoldable pub drift_note : Envelope → Option Notification
drift_note env = elim env.type [
  | position_drift_detected ↦ elim env.payload [
    | drift account symbol kind Severity.critical fresh prior at correlation ↦ some (
        note "Critical broker position drift detected" Severity.critical
          ("portfolio" ∷ "drift" ∷ "critical" ∷ []))
    | _ ↦ none
  ]
  | _ ↦ none
]

unfoldable pub handle_position_drift_alert : Handler Sent
unfolding drift_note
handle_position_drift_alert env sent = elim (drift_note env) [
  | none ↦ done sent
  | some n ↦ done (sent ++ n ∷ [])
]

unfoldable pub subscribe_drift_alert : EventBus Sent → EventBus Sent
unfolding handle_position_drift_alert
subscribe_drift_alert bus = subscribe_sync position_drift_detected handle_position_drift_alert bus
