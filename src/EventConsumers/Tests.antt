-- ===== src/EventConsumers/Tests.antt =====
-- The consumers of events at concrete inputs.
use relavoi_backend.TenantWebhook.{status}
use relavoi_backend.EventConsumers.Sandbox.{Handled, handle_all, handle_all-sandbox}
use relavoi_backend.EventConsumers.Minutes.{IsMinutes, handle-call_ended}
use relavoi_backend.Billing.{call_minute, get_usage_summary}
use relavoi_backend.EventConsumers.{
  ConsumerAnswers, EventPayload, Office, call_ended_event, handle, metering, minutes_of, row_mode,
}
use relavoi_backend.Base.{
  sym, ap, ℕ, ◌+◌, ◌≡◌, refl, String, false, [], ◌∷◌, none, some, if◌then◌else◌, ◌==◌, string_eq,
  arith,
}
use relavoi_backend.Store.{SessionRow, sandbox}
use relavoi_backend.Examples.{order_row}

abbrev month : ℕ → ℕ × ℕ
month now = (0, 2678400000)

abbrev stringify : String → String → String → String
stringify event timestamp payload = payload

abbrev sign : String → String → String → String
sign algo key text = "5f3a"

abbrev trial_row : SessionRow
trial_row = record order_row { id = "s2"; mode = sandbox }

abbrev office : Office
office = record {
  ledger = record { periods = []; usage = []; current_period = λ tenant. none };
  outgoing = record { tenants = λ id. none; delivery_logs = []; timers = []; requests = [] };
  rows = λ id. if id == "s1" then some order_row else if id == "s2" then some trial_row else none;
  pushed = [];
}

abbrev answers : ConsumerAnswers
answers = record {
  mode_read_fails = false;
  usage = record {
    period_read_fails = false;
    period_insert_fails = false;
    tenant_update_fails = false;
    usage_insert_fails = false;
    period_id = "p1";
    now = 5000;
  };
  stamp = record {
    lookup_fails = false;
    hmac_algo = "sha256";
    delivery_id = "d1";
    timestamp = "5";
    iso_timestamp = "1970-01-01T00:00:05Z";
    now = 5000;
  };
  response = record { reply = status 200; took = 100; log_fails = false };
  push_fails = false;
}

-- The end of a call of 61 seconds.
abbrev ended : EventPayload
ended = record {
  tenant_id = some "t1";
  tenant_id_snake = none;
  session_id = some "s1";
  session_id_snake = none;
  mode = none;
  duration_seconds = some 61;
  customer_phone_hash = none;
  customer_phone_hash_snake = none;
  json = "{}";
}

two_minutes : minutes_of 61 ≡ 2
unfolding minutes_of
two_minutes = refl

handle-call_ended_example :
    (n : ℕ) × IsMinutes 61 n
    × ((get_usage_summary false "t1" 0 9000
            (handle month stringify sign answers call_ended_event metering ended
              office).ledger).metrics
          call_minute
        ≡ (get_usage_summary false "t1" 0 9000 office.ledger).metrics call_minute + n)
    × ((get_usage_summary false "t1" 0 9000
          (handle month stringify sign answers call_ended_event metering ended
            office).ledger).total_events
        ≡ (get_usage_summary false "t1" 0 9000 office.ledger).total_events + 1)
handle-call_ended_example =
    handle-call_ended month stringify sign answers ended office order_row 0 9000 refl refl refl refl
      refl refl refl refl refl (omega arith) (omega arith)

abbrev trial : EventPayload
trial = record ended { session_id = some "s2" }

abbrev trial_ended : Handled
trial_ended = record {
  event = call_ended_event;
  group = metering;
  payload = trial;
  answers = answers;
}

handle_all-sandbox_example :
    get_usage_summary false "t1" 0 9000
      (handle_all month stringify sign (trial_ended ∷ []) office).ledger
    ≡ get_usage_summary false "t1" 0 9000 office.ledger
handle_all-sandbox_example =
    handle_all-sandbox month stringify sign (trial_ended ∷ []) office false "t1" 0 9000
      (record { unsaid = refl; sandboxed = λ row there. ap (λ o. row_mode o) (sym there) }, tt)
