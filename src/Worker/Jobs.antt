-- ===== src/Worker/Jobs.antt =====
-- apps/worker/jobs and run_job.py. A notifier keeps what it was sent; the texts of messages are not
-- modelled, and a send that fails raises.
use portfolio_copilot.Prelude.{
  ◌||◌, not, ◌&&◌, ◌+◌, ◌++◌, ◌-◌, ◌*◌, Exec, ltb, str_eq, leb, Error, if◌then◌else◌, Bool, Option,
  String, Result, List, ℕ, ok, err, none, some, true, false, [], ◌∷◌,
}
use portfolio_copilot.Decimal
use portfolio_copilot.Decimal.{Decimal}
use portfolio_copilot.Domain.Portfolio.{Severity, BrokerAccount}
use portfolio_copilot.Prelude.Text.{is_blank}
use portfolio_copilot.Worker.Clock.{minute, hour}

pub record Notification : Type 0 where
  pub title : String
  pub severity : Severity
  pub tags : List String

abbrev pub Sent : Type 0
Sent = List Notification

abbrev pub note : String → Severity → List String → Notification
note title severity tags = record { title = title; severity = severity; tags = tags }

-- `notifier.send`; `failure` is the exception that it raises, if it does.
abbrev pub send : Option Error → Notification → Exec Sent (Unit {0})
send none n sent = (ok tt, sent ++ n ∷ [])
send (some e) n sent = (err e, sent)

-- The two thresholds of vix_alert.py.
abbrev vix_note : Decimal → Option Notification
vix_note vix =
    if Decimal.lt vix (Decimal.of_ℕ 18)
    then some (note "🟢 VIX Buy Window" Severity.info ("vix" ∷ "buy-signal" ∷ []))
    else if Decimal.lt (Decimal.of_ℕ 28) vix
    then some (note "🔴 VIX Risk-Off" Severity.warning ("vix" ∷ "risk-off" ∷ []))
    else none

abbrev send_some : Option Error → Option Notification → Exec Sent (Unit {0})
send_some failure none sent = (ok tt, sent)
send_some failure (some n) sent = send failure n sent

-- `run_vix_check`, with the settings it reads.
unfoldable pub run_vix_check :
    (massive_api_key push_provider pushover_api_token : String)
    → Result Decimal
    → Option Error
    → Exec Sent (Unit {0})
run_vix_check key provider token get_vix failure sent =
    if is_blank key then (ok tt, sent) else elim get_vix [
      | err e ↦ (err e, sent)
      | ok vix ↦
          if Decimal.same_value vix (Decimal.of_ℕ 0)
          then (ok tt, sent)
          else if str_eq provider "pushover" && not (is_blank token)
          then send_some failure (vix_note vix) sent
          else (ok tt, sent)
    ]

-- A source without a time, or whose last time is too old.
unfoldable pub is_stale : ℕ → ℕ → Option ℕ → Bool
is_stale now after none = true
is_stale now after (some t) = ltb after (now - t)

-- `_is_market_hours` of a New York time: its weekday and its minute of the day.
unfoldable pub is_market_hours : ℕ → ℕ → Bool
is_market_hours local_weekday local_time =
    if leb 5 local_weekday
    then false
    else leb (9 * hour + 30 * minute) local_time && leb local_time (16 * hour)

-- `run_pipeline_health`; the two times are those of the newest disclosure and of the newest quote.
unfoldable pub run_pipeline_health :
    (now : ℕ)
    → (local_weekday local_time : ℕ) → (last_disclosure last_market_update : Option ℕ)
    → Option Error
    → Exec Sent Bool
unfolding is_stale is_market_hours
run_pipeline_health now local_weekday local_time disclosed updated failure sent =
    let congress = is_stale now (48 * hour) disclosed in
    let market = is_market_hours local_weekday local_time && is_stale now (30 * minute) updated in
    if not (congress || market) then (ok true, sent) else elim failure [
      | some e ↦ (err e, sent)
      | none ↦ (
        ok false,
        sent
            ++ note "Source data has stopped flowing" Severity.warning
                ("pipeline" ∷ "stale-data" ∷ [])
              ∷ [],
      )
    ]

-- `notifier.send_critical` with the tags of the canary, then `return False`.
abbrev alert_false : Option Error → String → Exec Sent Bool
alert_false (some e) title sent = (err e, sent)
alert_false none title sent =
    (ok false, sent ++ note title Severity.critical ("schwab" ∷ "auth" ∷ "critical" ∷ []) ∷ [])

-- `run_token_canary`: the broker answers or raises anything.
unfoldable pub run_token_canary :
    Result (List BrokerAccount) → ℕ → Option ℕ → Option Error → Exec Sent Bool
run_token_canary (err e) now expires failure sent =
    alert_false failure "Schwab account canary failed" sent
run_token_canary (ok accounts) now none failure sent = (ok true, sent)
run_token_canary (ok accounts) now (some expires) failure sent =
    if ltb expires (now + 24 * hour)
    then alert_false failure "Schwab refresh token expires soon" sent
    else (ok true, sent)

-- The jobs of `JOBS`.
pub data Job : Type 0 where
  briefing digest ingest token_canary pipeline_health vix_alert advisor_views : Job

unfoldable pub job_of : String → Option Job
job_of id =
    if str_eq id "daily_briefing"
    then some briefing
    else if str_eq id "daily_digest"
    then some digest
    else if str_eq id "congressional_ingest"
    then some ingest
    else if str_eq id "token_canary"
    then some token_canary
    else if str_eq id "pipeline_health"
    then some pipeline_health
    else if str_eq id "vix_alert"
    then some vix_alert
    else if str_eq id "advisor_views"
    then some advisor_views
    else none

-- `main` of run_job.py: the exit code, and the job that has run.
unfoldable pub main : List String → (Job → Result (Unit {0})) → Result (ℕ × Option Job)
unfolding job_of
main (id ∷ []) run = elim (job_of id) [
  | none ↦ ok (2, none)
  | some job ↦ elim (run job) [ ok u ↦ ok (0, some job) | err e ↦ err e ]
]
main args run = ok (2, none)
