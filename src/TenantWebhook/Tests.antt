-- ===== src/TenantWebhook/Tests.antt =====
-- Tests of the deliveries to tenants.
use relavoi_backend.TenantWebhook.Draining.{
  deliver-requests, drain-timers, planned, push_all, until_success,
}
use relavoi_backend.TenantWebhook.Reachable.{
  Reach, Reach-posts, delivering, firing, pending_attempts, posts, starting, stepping, work,
}
use relavoi_backend.TenantWebhook.{
  attempt, DeliverArgs, Outgoing, Response, RetryItem, Stamp, TenantWebhookConfig, backoff_after,
  backoff_ms, deliver, drain, fire, first_item, log_attempt, max_attempts, schedule, status,
}
use relavoi_backend.Base.{
  arith, ◌+◌, ◌≤◌, ◌≡◌, refl, String, false, [], ◌∷◌, none, some, length, if◌then◌else◌, leb, ◌==◌,
  string_eq,
}

abbrev stringify_event : String → String → String → String
stringify_event event timestamp payload = payload

abbrev hex : String → String → String → String
hex algo key text = "5f3a"

abbrev webhook : TenantWebhookConfig
webhook = record {
  webhook_url = some "https://tenant.example/hook";
  webhook_secret = some "secret";
}

abbrev idle : Outgoing
idle = record {
  tenants = λ id. if id == "t1" then some webhook else none;
  delivery_logs = [];
  timers = [];
  requests = [];
}

abbrev created : DeliverArgs
created = record { tenant_id = "t1"; event_type = "session.created"; payload = "{}" }

abbrev stamp : Stamp
stamp = record {
  lookup_fails = false;
  hmac_algo = "sha256";
  delivery_id = "d1";
  timestamp = "1700000000";
  iso_timestamp = "2023-11-14T22:13:20Z";
  now = 1000;
}

abbrev refused : Response
refused = record { reply = status 503; took = 200; log_fails = false }

abbrev accepted : Response
accepted = record { reply = status 204; took = 200; log_fails = false }

-- A tenant who accepts the third attempt.
abbrev third_time : RetryItem → Response
third_time item = if leb 3 item.attempt then accepted else refused

abbrev item : RetryItem
item = first_item stringify_event hex created stamp webhook

abbrev posted_once : Outgoing
posted_once = deliver stringify_event hex created stamp refused idle

one_timer : posted_once.timers ≡ (31200, record item { attempt = 2 }) ∷ []
unfolding deliver attempt schedule log_attempt first_item backoff_after
one_timer = refl

three_posts :
    (drain 3 third_time posted_once).requests
    ≡ (151400, record item { attempt = 3 })
      ∷ (31200, record item { attempt = 2 })
      ∷ (1000, item)
      ∷ []
unfolding drain fire deliver attempt schedule log_attempt first_item backoff_after
three_posts = refl

no_webhook :
    deliver stringify_event hex (record created { tenant_id = "t2" }) stamp refused idle ≡ idle
unfolding deliver
no_webhook = refl

posted_once-Reach : Reach stringify_event hex posted_once
unfolding posts pending_attempts
posted_once-Reach =
    stepping (starting (λ id. if id == "t1" then some webhook else none))
      (delivering created stamp refused refl refl)

fired-Reach :
    Reach stringify_event hex
      (fire accepted (31200, record item { attempt = 2 }) 31250 [] posted_once)
fired-Reach =
    stepping posted_once-Reach
      (firing accepted (31200, record item { attempt = 2 }) 31250 [] [] one_timer)

Reach-posts_example :
    posts "d1" (fire accepted (31200, record item { attempt = 2 }) 31250 [] posted_once).requests
      + pending_attempts "d1"
          (fire accepted (31200, record item { attempt = 2 }) 31250 [] posted_once).timers
    ≤ max_attempts
Reach-posts_example = Reach-posts stringify_event hex fired-Reach "d1"

drain-timers_example : (drain 3 third_time posted_once).timers ≡ []
unfolding deliver attempt schedule log_attempt first_item work
drain-timers_example =
    drain-timers 3 third_time posted_once ((ground arith, ground arith), tt) (omega arith)

deliver-requests_example :
    (drain
      (length backoff_ms)
      third_time
      (deliver stringify_event hex created stamp (third_time item) idle)).requests
    ≡ push_all (until_success third_time (planned item third_time backoff_ms 1 1000)) []
deliver-requests_example =
    deliver-requests stringify_event hex created stamp webhook third_time idle refl refl refl refl
