-- ===== src/Worker/Tests.antt =====
-- A Saturday, and the jobs on it.
use portfolio_copilot.Prelude.{
  broker_failure, ◌+◌, schwab_auth_error, ◌≡◌, ◌*◌, length, ℕ, refl, ok, err, none, some, true,
  false, [], ◌∷◌, ◌<◌,
}
use portfolio_copilot.Decimal
use portfolio_copilot.Decimal.{Decimal}
use portfolio_copilot.Domain.Events.{AggregateType, drift, position_drift_detected}
use portfolio_copilot.Domain.Portfolio.{Severity, critical, warning, quantity}
use portfolio_copilot.Outbox.Bus.{raised, Outcome, done, publish_sync, empty_bus}
use portfolio_copilot.Worker.DriftAlert.{subscribe_drift_alert}
use portfolio_copilot.Worker.Jobs.{
  digest, run_vix_check, Sent, main, run_token_canary, run_pipeline_health,
}
use portfolio_copilot.Worker.Clock.{is_market_open, minute, weekday, day, hour, next_market_open}
use portfolio_copilot.Outbox.Envelope.{Envelope}
use portfolio_copilot.Worker.Opening.{next_market_open_lem}

-- Saturday, 3 January 1970, 20:00 UTC.
abbrev saturday : ℕ
saturday = 2 * day + 20 * hour

monday : next_market_open saturday ≡ some (4 * day + 14 * hour + 30 * minute)
unfolding next_market_open
monday = refl

next_market_open_lem_example :
    (t : ℕ) × (next_market_open saturday ≡ some t)
    × (saturday < t)
    × (t < saturday + 4 * day)
    × (weekday t < 5)
    × (is_market_open t ≡ true)
next_market_open_lem_example = next_market_open_lem saturday

abbrev calm : ℕ → Sent
calm vix = (run_vix_check "key" "pushover" "token" (ok (Decimal.of_ℕ vix)) none []).1

vix_alerts :
    (length (calm 17) ≡ 1) × (length (calm 18) ≡ 0) × (length (calm 29) ≡ 1) × (length (calm 0) ≡ 0)
unfolding run_vix_check
vix_alerts = (refl, refl, refl, refl)

-- On a Saturday only the disclosures count.
health :
    ((run_pipeline_health saturday 5 (12 * hour) (some day) none none []).0 ≡ ok true)
    × ((run_pipeline_health saturday 2 (12 * hour) (some day) none none []).0 ≡ ok false)
    × ((run_pipeline_health (4 * day) 5 0 (some day) none none []).0 ≡ ok false)
unfolding run_pipeline_health
health = (refl, refl, refl)

canary :
    ((run_token_canary (err schwab_auth_error) 0 none none []).0 ≡ ok false)
    × ((run_token_canary (ok []) 0 (some (25 * hour)) none []).0 ≡ ok true)
    × ((run_token_canary (ok []) 0 (some (23 * hour)) (some broker_failure) []).0
        ≡ err broker_failure)
unfolding run_token_canary
canary = (refl, refl, refl)

jobs :
    (main ("daily_digest" ∷ []) (λ j. ok tt) ≡ ok (0, some digest))
    × (main ("digest" ∷ []) (λ j. ok tt) ≡ ok (2, none))
    × (main [] (λ j. ok tt) ≡ ok (2, none))
unfolding main
jobs = (refl, refl, refl)

abbrev drifted : Severity → Envelope
drifted severity = record {
  id = 1;
  type = position_drift_detected;
  aggregate_id = "A1";
  aggregate_type = AggregateType.position;
  occurred_at = 0;
  correlation_id = 1;
  payload = drift "A1" "AAPL" quantity severity (Decimal.of_ℕ 1) none 0 1;
  schema_version = 1;
  causation_id = none;
}

abbrev sent_count : Outcome Sent → ℕ
sent_count (done sent) = length sent
sent_count (raised e) = 0

-- The subscribed handler pages for critical drift only.
pages :
    (sent_count (publish_sync (subscribe_drift_alert (empty_bus Sent)) (drifted critical) []) ≡ 1)
    × (sent_count (publish_sync (subscribe_drift_alert (empty_bus Sent)) (drifted warning) []) ≡ 0)
unfolding publish_sync portfolio_copilot.Outbox.Bus.deliver
    portfolio_copilot.Outbox.Bus.handlers_for portfolio_copilot.Prelude.Dict.get
    subscribe_drift_alert portfolio_copilot.Outbox.Bus.subscribe_sync
    portfolio_copilot.Prelude.Dict.put portfolio_copilot.Domain.Events.value
pages = (refl, refl)
