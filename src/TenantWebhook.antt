-- ===== src/TenantWebhook.antt =====
-- The delivery of events to the tenants' webhooks, src/services/tenant-webhook-delivery.ts.
--
-- `Outgoing` is the state that the class reads and writes; `requests` are the POSTs made, each with
-- the time at which it started. An attempt, which the source does not await, is one step: what it
-- does once its request has settled follows at once. The texts that JSON.stringify and Node's HMAC
-- make are parameters. Logs are left out.
pub mod Reachable
pub mod Draining
mod Tests
use relavoi_backend.Base.{
  ◌==◌, string_eq, ℕ, zero, suc, ◌+◌, ◌-◌, String, Bool, true, false, ◌&&◌, List, [], ◌∷◌, Option,
  none, some, ltb, leb, if◌then◌else◌, or_else, join, length, get_elem?,
}
use relavoi_backend.Store.{truthy}

pub record DeliverArgs : Type 0 where
  pub tenant_id : String
  pub event_type : String
  pub payload : String  -- as JSON

pub record TenantWebhookConfig : Type 0 where
  pub webhook_url : Option String
  pub webhook_secret : Option String

-- The headers that differ from one delivery to the next.
pub record Headers : Type 0 where
  pub event : String
  pub delivery : String
  pub timestamp : String
  pub signature : Option String

pub record RetryItem : Type 0 where
  pub url : String
  pub body : String
  pub headers : Headers
  pub attempt : ℕ
  pub tenant_id : String
  pub event_type : String

-- `errorMsg`: empty, `HTTP <status>`, or the message of what was thrown.
pub data ErrorMsg : Type 0 where
  no_error : ErrorMsg
  http_error : ℕ → ErrorMsg
  thrown : String → ErrorMsg

-- A row of `webhook_delivery_logs`.
pub record DeliveryLog : Type 0 where
  pub tenant_id : String
  pub event_type : String
  pub delivery_url : String
  pub http_status : ℕ
  pub response_body : ErrorMsg
  pub attempt_number : ℕ
  pub success : Bool
  pub delivered_at : ℕ

pub record Outgoing : Type 0 where
  pub tenants : String → Option TenantWebhookConfig
  pub delivery_logs : List DeliveryLog
  pub timers : List (ℕ × RetryItem)  -- `setTimeout`: when, and the attempt that it makes
  pub requests : List (ℕ × RetryItem)

-- How a request ends: a status, or an error (the abort after ten seconds is one).
pub data Reply : Type 0 where
  status : ℕ → Reply
  error : String → Reply

pub record Response : Type 0 where
  pub reply : Reply
  pub took : ℕ
  pub log_fails : Bool

abbrev pub backoff_ms : List ℕ
backoff_ms = 30000 ∷ 120000 ∷ 600000 ∷ []

abbrev pub max_attempts : ℕ
max_attempts = length backoff_ms + 1

abbrev pub last_backoff_ms : ℕ
last_backoff_ms = or_else (get_elem? backoff_ms (length backoff_ms - 1)) 0

-- `BACKOFF_MS[item.attempt - 1] ?? BACKOFF_MS[BACKOFF_MS.length - 1]`.
unfoldable pub backoff_after : ℕ → ℕ
backoff_after attempt = or_else (get_elem? backoff_ms (attempt - 1)) last_backoff_ms

unfoldable pub succeeded : Reply → Bool
succeeded (status s) = leb 200 s && ltb s 300
succeeded (error message) = false

status_code : Reply → ℕ
status_code (status s) = s
status_code (error message) = 0

error_msg : Reply → ErrorMsg
unfolding succeeded
error_msg (status s) = if succeeded (status s) then no_error else http_error s
error_msg (error message) = thrown message

unfoldable pub log_attempt : Response → RetryItem → ℕ → Outgoing → Outgoing
unfolding status_code error_msg
log_attempt a item start x = if a.log_fails then x else record x {
  delivery_logs =
      record {
        tenant_id = item.tenant_id;
        event_type = item.event_type;
        delivery_url = item.url;
        http_status = status_code a.reply;
        response_body = error_msg a.reply;
        attempt_number = item.attempt;
        success = succeeded a.reply;
        delivered_at = start + a.took;
      }
      ∷ x.delivery_logs;
}

-- `setTimeout(() => void this.attempt(nextItem), backoff)`.
unfoldable pub schedule : RetryItem → ℕ → Outgoing → Outgoing
unfolding backoff_after
schedule item now x = record x {
  timers =
      (now + backoff_after item.attempt, record item { attempt = item.attempt + 1 }) ∷ x.timers;
}

-- `attempt`, started at a time.
unfoldable pub attempt : Response → RetryItem → ℕ → Outgoing → Outgoing
attempt a item start x =
    let after = log_attempt a item start (record x { requests = (start, item) ∷ x.requests }) in
    if succeeded a.reply
    then after
    else if leb max_attempts item.attempt
    then after
    else schedule item (start + a.took) after

-- What a delivery is made with: the texts of its times and its new id.
pub record Stamp : Type 0 where
  pub lookup_fails : Bool
  pub hmac_algo : String  -- `config.WEBHOOK_HMAC_ALGO`
  pub delivery_id : String
  pub timestamp : String  -- whole seconds
  pub iso_timestamp : String
  pub now : ℕ

module _ (stringify : String → String → String → String)
    (sign : String → String → String → String) where
  -- `createHmac(algo, secret).update(`${timestamp}.${body}`)`, unless there is no secret.
  unfoldable pub signature_of : String → Option String → String → String → String
  signature_of algo secret timestamp body =
      if truthy secret then sign algo (or_else secret "") (join timestamp (join "." body)) else ""

  unfoldable pub first_item : DeliverArgs → Stamp → TenantWebhookConfig → RetryItem
  unfolding signature_of
  first_item args t tenant =
      let body = stringify args.event_type t.iso_timestamp args.payload in
      let signature = signature_of t.hmac_algo tenant.webhook_secret t.timestamp body in
      record {
        url = or_else tenant.webhook_url "";
        body = body;
        headers = record {
          event = args.event_type;
          delivery = t.delivery_id;
          timestamp = t.timestamp;
          signature =
              if signature == "" then none else some (join t.hmac_algo (join "=" signature));
        };
        attempt = 1;
        tenant_id = args.tenant_id;
        event_type = args.event_type;
      }

  unfoldable pub deliver : DeliverArgs → Stamp → Response → Outgoing → Outgoing
  deliver args t a x = if t.lookup_fails then x else elim (x.tenants args.tenant_id) [
    | none ↦ x
    | some tenant ↦
        if truthy tenant.webhook_url then attempt a (first_item args t tenant) t.now x else x
  ]

-- A timer that fires is over; its attempt starts when it fires.
unfoldable pub fire : Response → ℕ × RetryItem → ℕ → List (ℕ × RetryItem) → Outgoing → Outgoing
fire a (due, item) now others x = attempt a item now (record x { timers = others })

-- All timers in turn, each at its time, with what the tenants answer to each request.
unfoldable pub drain : ℕ → (RetryItem → Response) → Outgoing → Outgoing
drain zero answer x = x
drain (suc fuel) answer x = elim x.timers [
  | [] ↦ x
  | t ∷ others ↦ drain fuel answer (fire (answer t.1) t t.0 others x)
]
