-- ===== src/Billing/Usage.antt =====
-- What the summary of a period counts.
use relavoi_backend.Billing.{
  empty_metrics, is_live_mode, Ledger, get_usage_summary, group_usage, is_billable, set_metric,
  all_metrics, call_minute, includes, metric_number, number_rental, recording_minute,
  session_created, sms_received, sms_sent, Group, Metric, UsageRecord, add_to_group, same_metric,
  tally,
}
use mathlib.Core.Bool.{false≢true}
use relavoi_backend.Store.{Mode, sandbox, live}
use relavoi_backend.Base.{
  ◌≤◌, ◌<◌, eq_iff, Bool-cases, inl, inr, sym, ◌∙◌, length, ◌||◌, ℕ, ◌+◌, ◌≡◌, refl, String, Bool,
  true, false, List, [], ◌∷◌, if◌then◌else◌, keep_if, nat_eq, arith,
}

-- The quantities of a metric, added up, and the number of records.
unfoldable pub total_of : Metric → List UsageRecord → ℕ
total_of m [] = 0
total_of m (u ∷ us) = let n = total_of m us in if same_metric u.metric m then n + u.quantity else n

group_total : Metric → List Group → ℕ
group_total m [] = 0
group_total m ((k, sum, count) ∷ gs) =
    let n = group_total m gs in if same_metric k m then n + sum else n

group_count : List Group → ℕ
group_count [] = 0
group_count ((k, sum, count) ∷ gs) = group_count gs + count

is_in : Metric → List Group → Bool
is_in m [] = false
is_in m ((k, sum, count) ∷ gs) = let rest = is_in m gs in if same_metric k m then true else rest

Unique : List Group → Type 0
Unique [] = Unit
Unique ((k, sum, count) ∷ gs) = (is_in k gs ≡ false) × Unique gs

add_to_group-total :
    (m : Metric) (u : UsageRecord) (gs : List Group)
    → group_total m (add_to_group u gs)
      ≡ (if same_metric u.metric m then group_total m gs + u.quantity else group_total m gs)
unfolding group_total add_to_group
add_to_group-total m u [] = ground arith
add_to_group-total m u ((k, sum, count) ∷ gs) = ground (arith, add_to_group-total m u gs)

add_to_group-count :
    (u : UsageRecord) (gs : List Group) → group_count (add_to_group u gs) ≡ group_count gs + 1
unfolding group_count add_to_group
add_to_group-count u [] = refl
add_to_group-count u ((k, sum, count) ∷ gs) = ground (arith, add_to_group-count u gs)

add_to_group-is_in :
    (m : Metric) (u : UsageRecord) (gs : List Group)
    → is_in m (add_to_group u gs) ≡ (same_metric u.metric m || is_in m gs)
unfolding is_in add_to_group
add_to_group-is_in m u [] = ground arith
add_to_group-is_in m u ((k, sum, count) ∷ gs) = ground (arith, add_to_group-is_in m u gs)

add_to_group-Unique : (u : UsageRecord) (gs : List Group) → Unique gs → Unique (add_to_group u gs)
unfolding Unique is_in add_to_group
add_to_group-Unique u [] h = (refl, tt)
add_to_group-Unique u ((k, sum, count) ∷ gs) (new, h) =
    ground (arith, new, h, add_to_group-Unique u gs h, add_to_group-is_in k u gs)

includes-all_metrics : (m : Metric) → includes m all_metrics ≡ true
unfolding includes metric_number
includes-all_metrics session_created = refl
includes-all_metrics call_minute = refl
includes-all_metrics sms_sent = refl
includes-all_metrics sms_received = refl
includes-all_metrics recording_minute = refl
includes-all_metrics number_rental = refl

is_in-same : (k m : Metric) (gs : List Group) → same_metric k m ≡ true → is_in k gs ≡ is_in m gs
unfolding is_in
is_in-same k m [] same = refl
is_in-same k m ((j, sum, count) ∷ gs) same = ground (arith, same, is_in-same k m gs same)

group_total-none : (m : Metric) (gs : List Group) → is_in m gs ≡ false → group_total m gs ≡ 0
unfolding is_in group_total
group_total-none m [] none_in = refl
group_total-none m ((j, sum, count) ∷ gs) none_in = ground (arith, none_in, group_total-none m gs)

tally-metrics :
    (gs : List Group) (f : Metric → ℕ) (t : ℕ) (m : Metric)
    → Unique gs
    → (tally gs (f, t)).0 m ≡ (if is_in m gs then group_total m gs else f m)
unfolding tally is_in group_total Unique
tally-metrics [] f t m h = refl
tally-metrics ((k, sum, count) ∷ gs) f t m (new, h) =
    rw (includes-all_metrics k, tally)
      (tally-metrics gs (set_metric k sum f) (t + count) m h
        ∙ ground (arith, new, is_in-same k m gs, group_total-none m gs))

tally-total : (gs : List Group) (f : Metric → ℕ) (t : ℕ) → (tally gs (f, t)).1 ≡ t + group_count gs
unfolding tally group_count
tally-total [] f t = omega arith
tally-total ((k, sum, count) ∷ gs) f t = tally-total gs _ (t + count) ∙ omega arith

group_usage-Unique : (us : List UsageRecord) → Unique (group_usage us)
unfolding group_usage Unique
group_usage-Unique [] = tt
group_usage-Unique (u ∷ us) = add_to_group-Unique u (group_usage us) (group_usage-Unique us)

group_usage-total :
    (m : Metric) (us : List UsageRecord) → group_total m (group_usage us) ≡ total_of m us
unfolding group_usage group_total total_of
group_usage-total m [] = refl
group_usage-total m (u ∷ us) =
    add_to_group-total m u (group_usage us) ∙ ground (arith, group_usage-total m us)

group_usage-count : (us : List UsageRecord) → group_count (group_usage us) ≡ length us
unfolding group_usage group_count
group_usage-count [] = refl
group_usage-count (u ∷ us) =
    add_to_group-count u (group_usage us) ∙ omega (arith, group_usage-count us)

group_usage-metrics :
    (m : Metric) (us : List UsageRecord)
    → (tally (group_usage us) (empty_metrics, 0)).0 m ≡ total_of m us
group_usage-metrics m us =
    tally-metrics (group_usage us) empty_metrics 0 m (group_usage-Unique us)
    ∙ ground (arith, group_total-none m (group_usage us), group_usage-total m us)

group_usage-events :
    (us : List UsageRecord) → (tally (group_usage us) (empty_metrics, 0)).1 ≡ length us
group_usage-events us =
    omega (arith, tally-total (group_usage us) empty_metrics 0, group_usage-count us)

-- A live record of the tenant, of a time in the period, which is without its end.
pub data IsBilled (tenant : String) (from until : ℕ) : UsageRecord → Type 0 where
  billed :
      (u : UsageRecord)
      → u.tenant_id ≡ tenant
      → u.mode ≡ live
      → from ≤ u.recorded_at
      → u.recorded_at < until
      → IsBilled tenant from until u

-- The records of the list that are billed, and no others, in their order.
pub data Selects (tenant : String) (from until : ℕ)
    : List UsageRecord → List UsageRecord → Type 0 where
  ends : Selects tenant from until [] []
  takes :
      (u : UsageRecord) {us rows : List UsageRecord}
      → IsBilled tenant from until u
      → Selects tenant from until us rows
      → Selects tenant from until (u ∷ us) (u ∷ rows)
  skips :
      (u : UsageRecord) {us rows : List UsageRecord}
      → ¬ IsBilled tenant from until u
      → Selects tenant from until us rows
      → Selects tenant from until (u ∷ us) rows

is_live-mode : (m : Mode) → is_live_mode m ≡ true → m ≡ live
is_live-mode sandbox e = absurd (ground arith)
is_live-mode live e = refl

is_billable-IsBilled :
    (tenant : String) (from until : ℕ) (u : UsageRecord)
    → is_billable tenant from until u ≡ true
    → IsBilled tenant from until u
is_billable-IsBilled tenant from until u e =
    billed u (ground (arith, e, eq_iff u.tenant_id tenant))
      (is_live-mode u.mode (ground (arith, e))) (ground (arith, e)) (ground (arith, e))

IsBilled-is_billable :
    (tenant : String) (from until : ℕ) (u : UsageRecord)
    → IsBilled tenant from until u
    → is_billable tenant from until u ≡ true
IsBilled-is_billable tenant from until u (billed _ t m f e) =
    ground (arith, eq_iff u.tenant_id tenant, t, m, f, e)

keep_if-Selects :
    (tenant : String) (from until : ℕ) (us : List UsageRecord)
    → Selects tenant from until us (keep_if (is_billable tenant from until) us)
keep_if-Selects tenant from until [] = ends
keep_if-Selects tenant from until (u ∷ us) = elim (Bool-cases (is_billable tenant from until u)) [
  | inl yes_billed ↦ simp yes_billed (
      takes u (is_billable-IsBilled tenant from until u yes_billed)
        (keep_if-Selects tenant from until us))
  | inr not_billed ↦ simp not_billed (
      skips u (λ b. false≢true (sym not_billed ∙ IsBilled-is_billable tenant from until u b))
        (keep_if-Selects tenant from until us))
]

pub get_usage_summary_lem :
    (fails : Bool) (tenant : String) (from until : ℕ) (x : Ledger) (m : Metric)
    → let rows = if fails then [] else keep_if (is_billable tenant from until) x.usage in
      ((get_usage_summary fails tenant from until x).metrics m ≡ total_of m rows)
      × ((get_usage_summary fails tenant from until x).total_events ≡ length rows)
unfolding get_usage_summary group_usage
get_usage_summary_lem true tenant from until x m = (group_usage-metrics m [], group_usage-events [])
get_usage_summary_lem false tenant from until x m = (
  group_usage-metrics m (keep_if (is_billable tenant from until) x.usage),
  group_usage-events (keep_if (is_billable tenant from until) x.usage),
)

-- Where the query is answered, the summary of a period has of each metric the sum of the quantities
-- of the tenant's live records from the start of the period until before its end, and counts these
-- records and no others. A query that throws leaves everything at zero.
pub get_usage_summary-Selects :
    (tenant : String) (from until : ℕ) (x : Ledger)
    → ((rows : List UsageRecord) × Selects tenant from until x.usage rows
        × ((m : Metric) → (get_usage_summary false tenant from until x).metrics m ≡ total_of m rows)
        × ((get_usage_summary false tenant from until x).total_events ≡ length rows))
      × ((m : Metric) → (get_usage_summary true tenant from until x).metrics m ≡ 0)
      × ((get_usage_summary true tenant from until x).total_events ≡ 0)
unfolding total_of
get_usage_summary-Selects tenant from until x = (
  (
    keep_if (is_billable tenant from until) x.usage,
    keep_if-Selects tenant from until x.usage,
    (λ m. (get_usage_summary_lem false tenant from until x m).0),
    (get_usage_summary_lem false tenant from until x call_minute).1,
  ),
  (λ m. (get_usage_summary_lem true tenant from until x m).0),
  (get_usage_summary_lem true tenant from until x call_minute).1,
)
