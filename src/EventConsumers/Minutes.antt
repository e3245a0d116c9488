-- ===== src/EventConsumers/Minutes.antt =====
-- How a call is metered.
use relavoi_backend.Billing.{
  same_metric, call_minute, get_usage_summary, insert_usage, Ledger, Metric, UsageAnswers,
  UsageRecord, ensure_active_period, is_active_of, latest, record_usage,
}
use relavoi_backend.EventConsumers.{
  run_handler, known_metric, meter, meter_asked, metered, resolve_mode, safe_meter_usage,
  ConsumerAnswers, EventPayload, Office, call_ended_event, get_tenant_id, handle, metering,
  minutes_of,
}
use relavoi_backend.Base.{
  if◌then◌else◌, length, ℕ, ◌+◌, ◌/◌, ◌*◌, ◌≤◌, ◌<◌, ◌⊎◌, ◌≡◌, ◌≢◌, refl, ap, ◌∙◌, String, true,
  false, ◌∷◌, Option, none, some, arith, Bool-cases, Option-cases, inl, inr, or_else, eq_iff,
  eq_refl, keep_if, ◌==◌, string_eq, leb, ltb,
}
use relavoi_backend.Store.{SessionRow, live, truthy}
use relavoi_backend.EventConsumers.Sandbox.{counted, ensure_active_period-usage}
use relavoi_backend.Billing.Usage.{total_of, get_usage_summary_lem}

-- The minutes of a number of seconds: rounded up, and at least one.
pub record IsMinutes (seconds n : ℕ) : Type 0 where
  pub some_minute : 1 ≤ n
  pub covers : seconds ≤ 60 * n
  pub least : (n ≡ 1) ⊎ (60 * n < seconds + 60)

minutes_of-IsMinutes : (seconds : ℕ) → IsMinutes seconds (minutes_of seconds)
unfolding minutes_of
minutes_of-IsMinutes seconds = record {
  some_minute = ground arith;
  covers = ground arith;
  least = elim (Bool-cases (ltb ((seconds + 59) / 60) 1)) [
    | inl less ↦ inl (rw less refl)
    | inr more ↦ inr (rw more (omega arith))
  ];
}

-- The record that is made of a live event.
abbrev live_record : UsageAnswers → String → String → Metric → ℕ → UsageRecord
live_record a period tenant m quantity = record {
  tenant_id = tenant;
  billing_period_id = period;
  metric = m;
  quantity = quantity;
  mode = live;
  recorded_at = a.now;
}

module _ (month : ℕ → ℕ × ℕ) where
  ensure_active_period-some :
      (a : UsageAnswers) (tenant : String) (x : Ledger)
      → a.period_read_fails ≡ false
      → a.period_insert_fails ≡ false
      → (period : String) × ((ensure_active_period month a tenant x).0 ≡ some period)
  unfolding ensure_active_period
  ensure_active_period-some a tenant x reads inserts =
      elim (Option-cases (latest (keep_if (is_active_of tenant) x.periods))) [
        | inr (q, there) ↦ (q.id, rw (reads, there) refl)
        | inl nothing ↦ (a.period_id, rw (reads, nothing) (rw inserts refl))
      ]

  named-test : (tenant : String) → tenant ≢ "" → (tenant == "") ≡ false
  named-test tenant named = ground (arith, eq_iff tenant "", named)

  positive-test : (quantity : ℕ) → 1 ≤ quantity → leb quantity 0 ≡ false
  positive-test quantity some_quantity = ground arith

  insert_usage-live :
      (a : UsageAnswers) (tenant : String) (m : Metric) (quantity : ℕ) (x : Ledger) (from until : ℕ)
      (period : String) (res : Option String × Ledger)
      → res.0 ≡ some period
      → res.1.usage ≡ x.usage
      → a.usage_insert_fails ≡ false
      → from ≤ a.now
      → a.now < until
      → counted tenant from until (insert_usage month a tenant m quantity live res)
        ≡ live_record a period tenant m quantity ∷ counted tenant from until x
  unfolding insert_usage
  insert_usage-live a tenant m quantity x from until period (none, y) found same stores from_now
        now_until =
      absurd cc
  insert_usage-live a tenant m quantity x from until period (some id, y) found same stores from_now
        now_until =
      let id_is : id ≡ period = cc in
      let after : leb from a.now ≡ true = ground arith in
      let before : ltb a.now until ≡ true = ground arith in
      rw (stores, same, eq_refl tenant)
        (rw (after, before)
          (ap (λ i. live_record a i tenant m quantity ∷ counted tenant from until x) id_is))

  record_usage-live :
      (a : UsageAnswers) (tenant : String) (m : Metric) (quantity : ℕ) (x : Ledger) (from until : ℕ)
      → tenant ≢ ""
      → 1 ≤ quantity
      → a.period_read_fails ≡ false
      → a.period_insert_fails ≡ false
      → a.usage_insert_fails ≡ false
      → from ≤ a.now
      → a.now < until
      → (period : String) × (counted tenant from until
            (record_usage month a tenant m quantity live x)
          ≡ live_record a period tenant m quantity ∷ counted tenant from until x)
  unfolding record_usage
  record_usage-live a tenant m quantity x from until named some_quantity reads inserts stores
        from_now now_until =
      let (period, found) = ensure_active_period-some a tenant x reads inserts in
      (
        period,
        rw (named-test tenant named, positive-test quantity some_quantity)
            (insert_usage-live a tenant m quantity x from until period
              (ensure_active_period month a tenant x) found
              (ensure_active_period-usage month a tenant x) stores from_now now_until),
      )

-- A summary with one more record.
summary-added :
    (tenant : String) (from until : ℕ) (x y : Ledger) (u : UsageRecord) (m : Metric)
    → counted tenant from until y ≡ u ∷ counted tenant from until x
    → let before = get_usage_summary false tenant from until x in
      let after = get_usage_summary false tenant from until y in
      (after.metrics m
        ≡ (if same_metric u.metric m then before.metrics m + u.quantity else before.metrics m))
      × (after.total_events ≡ before.total_events + 1)
unfolding total_of
summary-added tenant from until x y u m added =
    let before = get_usage_summary_lem false tenant from until x m in
    let after = get_usage_summary_lem false tenant from until y m in
    (
      after.0 ∙ ap (total_of m) added ∙ ground (arith, before.0),
      after.1 ∙ ap length added ∙ omega (arith, before.1),
    )

truthy-named : (t : Option String) → truthy t ≡ true → or_else t "" ≢ ""
truthy-named none h = absurd cc
truthy-named (some t) h = ground (arith, h, eq_iff t "")

resolve_mode-live :
    (a : ConsumerAnswers) (p : EventPayload) (x : Office) (row : SessionRow)
    → p.mode ≡ none
    → truthy p.session_id ≡ true
    → a.mode_read_fails ≡ false
    → x.rows (or_else p.session_id "") ≡ some row
    → row.mode ≡ live
    → resolve_mode a p x ≡ live
unfolding resolve_mode
resolve_mode-live a p x row unsaid in_session reads there is_live =
    rw (unsaid, in_session, reads, there) is_live

module _ (month : ℕ → ℕ × ℕ) (stringify : String → String → String → String)
    (sign : String → String → String → String) where
  meter-call_ended :
      (a : ConsumerAnswers) (p : EventPayload) (x : Office) (row : SessionRow)
      → truthy (get_tenant_id p) ≡ true
      → p.mode ≡ none
      → truthy p.session_id ≡ true
      → a.mode_read_fails ≡ false
      → x.rows (or_else p.session_id "") ≡ some row
      → row.mode ≡ live
      → (handle month stringify sign a call_ended_event metering p x).ledger
        ≡ record_usage month a.usage
            (or_else (get_tenant_id p) "")
            call_minute
            (minutes_of (or_else p.duration_seconds 0))
            live
            x.ledger
  unfolding handle run_handler meter metered meter_asked safe_meter_usage known_metric
  meter-call_ended a p x row named unsaid in_session reads there is_live =
      rw (named, resolve_mode-live a p x row unsaid in_session reads there is_live) refl

  -- A call that ended, of a tenant, reported without a mode, in a live session: where Postgres
  -- answers, the metering handler raises the tenant's call minutes, in the summary of any period
  -- that holds the time, by the duration in minutes, rounded up and at least one, and counts one
  -- more event.
  pub handle-call_ended :
      (a : ConsumerAnswers) (p : EventPayload) (x : Office) (row : SessionRow) (from until : ℕ)
      → truthy (get_tenant_id p) ≡ true
      → p.mode ≡ none
      → truthy p.session_id ≡ true
      → a.mode_read_fails ≡ false
      → x.rows (or_else p.session_id "") ≡ some row
      → row.mode ≡ live
      → a.usage.period_read_fails ≡ false
      → a.usage.period_insert_fails ≡ false
      → a.usage.usage_insert_fails ≡ false
      → from ≤ a.usage.now
      → a.usage.now < until
      → let tenant = or_else (get_tenant_id p) "" in
        let y = handle month stringify sign a call_ended_event metering p x in
        let before = get_usage_summary false tenant from until x.ledger in
        let after = get_usage_summary false tenant from until y.ledger in
        (n : ℕ) × IsMinutes (or_else p.duration_seconds 0) n
        × (after.metrics call_minute ≡ before.metrics call_minute + n)
        × (after.total_events ≡ before.total_events + 1)
  handle-call_ended a p x row from until named unsaid in_session reads there is_live periods inserts
        stores from_now now_until =
      let tenant = or_else (get_tenant_id p) "" in
      let n = minutes_of (or_else p.duration_seconds 0) in
      let minutes = minutes_of-IsMinutes (or_else p.duration_seconds 0) in
      let (period, added) =
        record_usage-live month a.usage tenant call_minute n x.ledger from until
          (truthy-named (get_tenant_id p) named) minutes.some_minute periods inserts stores from_now
          now_until in
      let y = handle month stringify sign a call_ended_event metering p x in
      let metered_ledger = meter-call_ended a p x row named unsaid in_session reads there is_live in
      let counts =
        summary-added tenant from until x.ledger y.ledger
          (live_record a.usage period tenant call_minute n) call_minute
          (ap (counted tenant from until) metered_ledger ∙ added) in
      (n, minutes, counts.0 ∙ ground arith, counts.1)
