-- ===== src/EventConsumers.antt =====
-- What is done with the events of the bus, src/workers/event-consumers.ts.
--
-- `Office` is the state that the handlers read and write: the ledger of the billing manager, the
-- deliveries to tenants, and what is handed to the push service. A field of a payload is there if it
-- is a text. Each handler catches what it calls throws; logs are left out.
pub mod Sandbox
pub mod Minutes
mod Tests
use relavoi_backend.Base.{
  ℕ, ◌+◌, ◌/◌, String, Bool, true, false, ◌&&◌, List, [], ◌∷◌, Option, none, some, ltb, ◌==◌,
  nat_eq, string_eq, if◌then◌else◌, or_else, or_option,
}
use relavoi_backend.Store.{SessionRow, Mode, sandbox, live, truthy, is_text}
use relavoi_backend.Billing.{
  Metric, Ledger, UsageAnswers, record_usage, session_created, call_minute, sms_sent, sms_received,
  number_rental,
}
use relavoi_backend.TenantWebhook.{Outgoing, Stamp, Response, deliver}

pub data EventType : Type 0 where
  session_created_event session_activated_event session_expired_event : EventType
  call_incoming_event call_answered_event call_ended_event call_failed_event : EventType
  sms_sent_event sms_received_event pool_low_availability_event : EventType

pub data Group : Type 0 where
  metering tenant_webhook push alerting : Group

pub record EventPayload : Type 0 where
  pub tenant_id : Option String  -- `tenantId`
  pub tenant_id_snake : Option String  -- `tenant_id`
  pub session_id : Option String
  pub session_id_snake : Option String
  pub mode : Option String
  pub duration_seconds : Option ℕ
  pub customer_phone_hash : Option String
  pub customer_phone_hash_snake : Option String
  pub json : String

pub record Office : Type 0 where
  pub ledger : Ledger
  pub outgoing : Outgoing
  pub rows : String → Option SessionRow
  pub pushed : List (String × String × String)  -- tenant, hash of the phone, session

-- Which calls throw, and what the surroundings answer.
pub record ConsumerAnswers : Type 0 where
  pub mode_read_fails : Bool
  pub usage : UsageAnswers
  pub stamp : Stamp
  pub response : Response
  pub push_fails : Bool

abbrev pub event_name : EventType → String
event_name session_created_event = "session.created"
event_name session_activated_event = "session.activated"
event_name session_expired_event = "session.expired"
event_name call_incoming_event = "call.incoming"
event_name call_answered_event = "call.answered"
event_name call_ended_event = "call.ended"
event_name call_failed_event = "call.failed"
event_name sms_sent_event = "sms.sent"
event_name sms_received_event = "sms.received"
event_name pool_low_availability_event = "pool.low_availability"

abbrev pub get_tenant_id : EventPayload → Option String
get_tenant_id p = or_option p.tenant_id p.tenant_id_snake

abbrev pub get_session_id : EventPayload → Option String
get_session_id p = or_option p.session_id p.session_id_snake

-- `KNOWN_METRICS`, by the name of the metric.
unfoldable pub known_metric : String → Option Metric
known_metric name =
    if name == "session_created"
    then some session_created
    else if name == "call_minute"
    then some call_minute
    else if name == "sms_sent"
    then some sms_sent
    else if name == "sms_received"
    then some sms_received
    else if name == "number_rental"
    then some number_rental
    else none

abbrev pub row_mode : Option SessionRow → Mode
row_mode none = sandbox
row_mode (some row) = row.mode

-- `resolveMode`: what the payload says, else the mode of its session, else sandbox.
unfoldable pub resolve_mode : ConsumerAnswers → EventPayload → Office → Mode
resolve_mode a p x =
    if is_text p.mode "live"
    then live
    else if is_text p.mode "sandbox"
    then sandbox
    else if truthy p.session_id
    then if a.mode_read_fails then sandbox else row_mode (x.rows (or_else p.session_id ""))
    else sandbox

-- `Math.max(1, Math.ceil(seconds / 60))`.
unfoldable pub minutes_of : ℕ → ℕ
minutes_of seconds = let n = (seconds + 59) / 60 in if ltb n 1 then 1 else n

-- The subscriptions.
abbrev pub groups : EventType → List Group
groups session_created_event = metering ∷ tenant_webhook ∷ []
groups session_activated_event = tenant_webhook ∷ []
groups session_expired_event = metering ∷ tenant_webhook ∷ []
groups call_incoming_event = push ∷ tenant_webhook ∷ []
groups call_answered_event = tenant_webhook ∷ []
groups call_ended_event = tenant_webhook ∷ metering ∷ []
groups call_failed_event = tenant_webhook ∷ metering ∷ []
groups sms_sent_event = metering ∷ tenant_webhook ∷ []
groups sms_received_event = metering ∷ tenant_webhook ∷ []
groups pool_low_availability_event = alerting ∷ []

abbrev group_number : Group → ℕ
group_number metering = 0
group_number tenant_webhook = 1
group_number push = 2
group_number alerting = 3

abbrev is_among : Group → List Group → Bool
is_among g [] = false
is_among g (h ∷ hs) =
    let rest = is_among g hs in if group_number h == group_number g then true else rest

abbrev pub is_subscribed : EventType → Group → Bool
is_subscribed event group = is_among group (groups event)

-- What a metering handler asks to be metered: the name of a metric and a quantity.
unfoldable pub metered : EventType → EventPayload → Option (String × ℕ)
metered session_created_event p = some ("session_created", 1)
metered session_expired_event p = some ("session_expired", 1)
metered call_ended_event p = some ("call_minute", minutes_of (or_else p.duration_seconds 0))
metered call_failed_event p = some ("call_failed", 1)
metered sms_sent_event p = some ("sms_sent", 1)
metered sms_received_event p = some ("sms_received", 1)
metered session_activated_event p = none
metered call_incoming_event p = none
metered call_answered_event p = none
metered pool_low_availability_event p = none

module _ (month : ℕ → ℕ × ℕ) (stringify : String → String → String → String)
    (sign : String → String → String → String) (a : ConsumerAnswers) where
  unfoldable pub safe_meter_usage : Option String → String → ℕ → Mode → Office → Office
  safe_meter_usage tenant name quantity mode x =
      if truthy tenant
      then elim (known_metric name) [
        | none ↦ x
        | some metric ↦ record x {
          ledger = record_usage month a.usage (or_else tenant "") metric quantity mode x.ledger;
        }
      ]
      else x

  unfoldable pub meter_asked : Option (String × ℕ) → EventPayload → Office → Office
  meter_asked none p x = x
  meter_asked (some (name, quantity)) p x =
      safe_meter_usage (get_tenant_id p) name quantity (resolve_mode a p x) x

  unfoldable pub meter : EventType → EventPayload → Office → Office
  meter event p x = meter_asked (metered event p) p x

  unfoldable pub safe_deliver_webhook : EventType → EventPayload → Office → Office
  safe_deliver_webhook event p x =
      if truthy (get_tenant_id p)
      then record x {
        outgoing =
            deliver stringify sign
              (record {
                tenant_id = or_else (get_tenant_id p) "";
                event_type = event_name event;
                payload = p.json;
              })
              a.stamp a.response x.outgoing;
      }
      else x

  unfoldable pub safe_push : EventPayload → Office → Office
  safe_push p x =
      let hash = or_option p.customer_phone_hash p.customer_phone_hash_snake in
      if truthy (get_tenant_id p) && truthy (get_session_id p) && truthy hash
      then if a.push_fails then x else record x {
        pushed =
            (or_else (get_tenant_id p) "", or_else hash "", or_else (get_session_id p) "")
            ∷ x.pushed;
      }
      else x

  unfoldable pub run_handler : EventType → Group → EventPayload → Office → Office
  run_handler event metering p x = meter event p x
  run_handler event tenant_webhook p x = safe_deliver_webhook event p x
  run_handler event push p x = safe_push p x
  run_handler event alerting p x = x

  -- A group gets the events that it has subscribed to.
  unfoldable pub handle : EventType → Group → EventPayload → Office → Office
  handle event group p x = if is_subscribed event group then run_handler event group p x else x
