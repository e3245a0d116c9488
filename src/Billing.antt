-- ===== src/Billing.antt =====
-- Metering and billing periods, src/services/billing-manager.ts.
--
-- `Ledger` is the state that the class reads and writes. The calendar is a parameter: from a time,
-- the start of its month and of the next one, in UTC. Quantities are whole numbers. Logs are left
-- out.
pub mod Usage
pub mod Periods
mod Tests
use relavoi_backend.Base.{
  ℕ, zero, suc, ◌+◌, String, Bool, true, false, ◌&&◌, List, [], ◌∷◌, Option, none, some, ltb, leb,
  ◌==◌, nat_eq, string_eq, if◌then◌else◌, keep_if, update,
}
use relavoi_backend.Store.{Mode, sandbox, live}

pub data Metric : Type 0 where
  session_created call_minute sms_sent sms_received recording_minute number_rental : Metric

-- The metrics are told apart by their place in the list of all.
unfoldable pub metric_number : Metric → ℕ
metric_number session_created = 0
metric_number call_minute = 1
metric_number sms_sent = 2
metric_number sms_received = 3
metric_number recording_minute = 4
metric_number number_rental = 5

abbrev pub same_metric : Metric → Metric → Bool
same_metric m n = metric_number m == metric_number n

pub record UsageRecord : Type 0 where
  pub tenant_id : String
  pub billing_period_id : String
  pub metric : Metric
  pub quantity : ℕ
  pub mode : Mode
  pub recorded_at : ℕ

pub data PeriodStatus : Type 0 where
  active_period closed_period invoiced_period paid_period : PeriodStatus

pub record BillingPeriod : Type 0 where
  pub id : String
  pub tenant_id : String
  pub period_start : ℕ
  pub period_end : ℕ
  pub status : PeriodStatus

pub record Ledger : Type 0 where
  pub periods : List BillingPeriod
  pub usage : List UsageRecord
  pub current_period : String → Option String  -- `tenants.current_billing_period_id`

-- Which calls throw, and what the surroundings answer.
pub record UsageAnswers : Type 0 where
  pub period_read_fails : Bool
  pub period_insert_fails : Bool
  pub tenant_update_fails : Bool
  pub usage_insert_fails : Bool
  pub period_id : String
  pub now : ℕ

abbrev is_active_status : PeriodStatus → Bool
is_active_status active_period = true
is_active_status closed_period = false
is_active_status invoiced_period = false
is_active_status paid_period = false

abbrev pub is_active_of : String → BillingPeriod → Bool
is_active_of tenant q = q.tenant_id == tenant && is_active_status q.status

-- `orderBy('period_start', 'desc').first()`.
unfoldable pub latest : List BillingPeriod → Option BillingPeriod
latest [] = none
latest (q ∷ qs) = elim (latest qs) [
  | none ↦ some q
  | some best ↦ if ltb q.period_start best.period_start then some best else some q
]

module _ (month : ℕ → ℕ × ℕ) where
  unfoldable pub open_period : UsageAnswers → String → Ledger → Ledger
  open_period a tenant x = record x {
    periods =
        record {
          id = a.period_id;
          tenant_id = tenant;
          period_start = (month a.now).0;
          period_end = (month a.now).1;
          status = active_period;
        }
        ∷ x.periods;
    current_period =
        if a.tenant_update_fails
        then x.current_period
        else update x.current_period tenant (some a.period_id);
  }

  -- `ensureActivePeriod`; no id is a thrown error.
  unfoldable pub ensure_active_period : UsageAnswers → String → Ledger → Option String × Ledger
  ensure_active_period a tenant x =
      if a.period_read_fails
      then (none, x)
      else elim (latest (keep_if (is_active_of tenant) x.periods)) [
        | some q ↦ (some q.id, x)
        | none ↦
            if a.period_insert_fails then (none, x) else (some a.period_id, open_period a tenant x)
      ]

  unfoldable pub insert_usage :
      UsageAnswers → String → Metric → ℕ → Mode → Option String × Ledger → Ledger
  insert_usage a tenant metric quantity mode (none, x) = x
  insert_usage a tenant metric quantity mode (some period, x) =
      if a.usage_insert_fails then x else record x {
        usage =
            record {
              tenant_id = tenant;
              billing_period_id = period;
              metric = metric;
              quantity = quantity;
              mode = mode;
              recorded_at = a.now;
            }
            ∷ x.usage;
      }

  -- `recordUsage`, which swallows every error.
  unfoldable pub record_usage : UsageAnswers → String → Metric → ℕ → Mode → Ledger → Ledger
  record_usage a tenant metric quantity mode x =
      if tenant == ""
      then x
      else if leb quantity 0
      then x
      else insert_usage a tenant metric quantity mode (ensure_active_period a tenant x)

-- A row of the query: a metric, the sum of its quantities and the number of its records.
abbrev pub Group : Type 0
Group = Metric × ℕ × ℕ

unfoldable pub add_to_group : UsageRecord → List Group → List Group
add_to_group u [] = (u.metric, u.quantity, 1) ∷ []
add_to_group u ((m, sum, count) ∷ gs) =
    let rest = add_to_group u gs in
    if same_metric m u.metric then (m, sum + u.quantity, count + 1) ∷ gs else (m, sum, count) ∷ rest

-- `GROUP BY metric`.
unfoldable pub group_usage : List UsageRecord → List Group
group_usage [] = []
group_usage (u ∷ us) = add_to_group u (group_usage us)

abbrev pub is_live_mode : Mode → Bool
is_live_mode sandbox = false
is_live_mode live = true

abbrev pub is_billable : String → ℕ → ℕ → UsageRecord → Bool
is_billable tenant from until u =
    u.tenant_id == tenant
    && is_live_mode u.mode
    && leb from u.recorded_at
    && ltb u.recorded_at until

pub record UsageSummary : Type 0 where
  pub tenant_id : String
  pub period_start : ℕ
  pub period_end : ℕ
  pub metrics : Metric → ℕ
  pub total_events : ℕ

abbrev pub all_metrics : List Metric
all_metrics =
    session_created ∷ call_minute ∷ sms_sent ∷ sms_received ∷ recording_minute ∷ number_rental ∷ []

unfoldable pub includes : Metric → List Metric → Bool
includes m [] = false
includes m (n ∷ ns) = let rest = includes m ns in if same_metric n m then true else rest

abbrev pub set_metric : Metric → ℕ → (Metric → ℕ) → Metric → ℕ
set_metric m v f n = if same_metric m n then v else f n

-- The loop over the rows of the query.
unfoldable pub tally : List Group → (Metric → ℕ) × ℕ → (Metric → ℕ) × ℕ
tally [] t = t
tally ((m, sum, count) ∷ gs) (metrics, total) =
    tally gs (if includes m all_metrics then set_metric m sum metrics else metrics, total + count)

abbrev pub empty_metrics : Metric → ℕ
empty_metrics m = 0

-- `getUsageSummary`; a query that throws leaves the totals at zero.
unfoldable pub get_usage_summary : Bool → String → ℕ → ℕ → Ledger → UsageSummary
get_usage_summary fails tenant from until x =
    let rows =
      if fails then [] else group_usage (keep_if (is_billable tenant from until) x.usage) in
    let (metrics, total) = tally rows (empty_metrics, 0) in
    record {
      tenant_id = tenant;
      period_start = from;
      period_end = until;
      metrics = metrics;
      total_events = total;
    }
