-- ===== src/Billing/Tests.antt =====
-- The ledger at concrete inputs.
use relavoi_backend.Billing.Periods.{HasOnePeriod, record_usage-HasOnePeriod}
use relavoi_backend.Billing.Usage.{get_usage_summary-Selects, Selects, total_of}
use relavoi_backend.Billing.{
  Metric, UsageRecord, Ledger, UsageAnswers, add_to_group, call_minute, ensure_active_period,
  get_usage_summary, group_usage, includes, insert_usage, latest, metric_number, open_period,
  record_usage, tally,
}
use relavoi_backend.Base.{true, List, ℕ, ◌≡◌, refl, false, [], none, length, string_eq, arith}
use relavoi_backend.Store.{live, sandbox}

abbrev january : ℕ → ℕ × ℕ
january now = (0, 2678400000)

abbrev empty_ledger : Ledger
empty_ledger = record { periods = []; usage = []; current_period = λ tenant. none }

abbrev usage_answers : UsageAnswers
usage_answers = record {
  period_read_fails = false;
  period_insert_fails = false;
  tenant_update_fails = false;
  usage_insert_fails = false;
  period_id = "p1";
  now = 5000;
}

abbrev metered_twice : Ledger
metered_twice =
    record_usage january usage_answers "t1" call_minute 3 live
      (record_usage january usage_answers "t1" call_minute 2 sandbox empty_ledger)

one_period : length metered_twice.periods ≡ 1
unfolding record_usage ensure_active_period open_period insert_usage latest
one_period = refl

live_minutes : (get_usage_summary false "t1" 0 9000 metered_twice).metrics call_minute ≡ 3
unfolding record_usage ensure_active_period open_period insert_usage latest get_usage_summary tally
    group_usage add_to_group includes metric_number
live_minutes = refl

get_usage_summary-Selects_example :
    ((rows : List UsageRecord) × Selects "t1" 0 9000 metered_twice.usage rows
      × ((m : Metric)
          → (get_usage_summary false "t1" 0 9000 metered_twice).metrics m ≡ total_of m rows)
      × ((get_usage_summary false "t1" 0 9000 metered_twice).total_events ≡ length rows))
    × ((m : Metric) → (get_usage_summary true "t1" 0 9000 metered_twice).metrics m ≡ 0)
    × ((get_usage_summary true "t1" 0 9000 metered_twice).total_events ≡ 0)
get_usage_summary-Selects_example = get_usage_summary-Selects "t1" 0 9000 metered_twice

nothing_billed_twice : HasOnePeriod metered_twice
nothing_billed_twice =
    record_usage-HasOnePeriod january usage_answers "t1" call_minute 3 live
      (record_usage january usage_answers "t1" call_minute 2 sandbox empty_ledger)
      (record_usage-HasOnePeriod january usage_answers "t1" call_minute 2 sandbox empty_ledger
        (λ tenant. omega arith))
