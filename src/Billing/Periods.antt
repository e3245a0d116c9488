-- ===== src/Billing/Periods.antt =====
-- The active period of a tenant.
use relavoi_backend.Billing.{
  Metric, insert_usage, record_usage, BillingPeriod, Ledger, UsageAnswers, ensure_active_period,
  is_active_of, latest, open_period,
}
use relavoi_backend.Base.{
  ltb, leb, if_holds, subst, ℕ, ◌≤◌, ◌≡◌, refl, String, List, [], ◌∷◌, Option, none, some, ◌==◌,
  string_eq, keep_if, length, arith, eq_iff, Bool-cases, Option-cases, inl, inr,
}
use relavoi_backend.Store.{Mode}

abbrev pub HasOnePeriod : Ledger → Type 0
HasOnePeriod x = (tenant : String) → length (keep_if (is_active_of tenant) x.periods) ≤ 1

latest-none : (qs : List BillingPeriod) → latest qs ≡ none → qs ≡ []
unfolding latest
latest-none [] = λ e. refl
latest-none (q ∷ qs) = elim (Option-cases (latest qs)) [
  | inl nothing ↦ rw (nothing, latest) λ e. absurd cc
  | inr (best, there) ↦
      rw (there, latest)
        (elim (Bool-cases (ltb q.period_start best.period_start)) [
          | inl earlier ↦ rw earlier λ e. absurd cc
          | inr later ↦ rw later λ e. absurd cc
        ])
]

module _ (month : ℕ → ℕ × ℕ) where
  open_period-HasOnePeriod :
      (a : UsageAnswers) (tenant : String) (x : Ledger)
      → keep_if (is_active_of tenant) x.periods ≡ []
      → HasOnePeriod x
      → HasOnePeriod (open_period month a tenant x)
  unfolding open_period
  open_period-HasOnePeriod a tenant x none_there h k = elim (Bool-cases (tenant == k)) [
    | inr other ↦ rw other (h k)
    | inl same ↦
        let nothing =
          subst (λ t. keep_if (is_active_of t) x.periods ≡ []) ((eq_iff tenant k).0 same)
            none_there in
        rw (same, nothing) (omega arith)
  ]

  pub ensure_active_period-HasOnePeriod :
      (a : UsageAnswers) (tenant : String) (x : Ledger)
      → HasOnePeriod x
      → HasOnePeriod (ensure_active_period month a tenant x).1
  unfolding ensure_active_period
  ensure_active_period-HasOnePeriod a tenant x h =
      if_holds Ends a.period_read_fails h
        (elim (Option-cases (latest (keep_if (is_active_of tenant) x.periods))) [
          | inr (q, there) ↦ rw there h
          | inl nothing ↦ rw nothing (
              if_holds Ends a.period_insert_fails h
                (open_period-HasOnePeriod a tenant x (latest-none _ nothing) h))
        ])
    where
      Ends : Option String × Ledger → Type 0
      Ends res = HasOnePeriod res.1

  insert_usage-HasOnePeriod :
      (a : UsageAnswers) (tenant : String) (m : Metric) (quantity : ℕ) (mode : Mode)
      (res : Option String × Ledger)
      → HasOnePeriod res.1
      → HasOnePeriod (insert_usage month a tenant m quantity mode res)
  unfolding insert_usage
  insert_usage-HasOnePeriod a tenant m quantity mode (none, x) h = h
  insert_usage-HasOnePeriod a tenant m quantity mode (some period, x) h =
      if_holds HasOnePeriod a.usage_insert_fails h h

  pub record_usage-HasOnePeriod :
      (a : UsageAnswers) (tenant : String) (m : Metric) (quantity : ℕ) (mode : Mode) (x : Ledger)
      → HasOnePeriod x
      → HasOnePeriod (record_usage month a tenant m quantity mode x)
  unfolding record_usage
  record_usage-HasOnePeriod a tenant m quantity mode x h = if_holds HasOnePeriod (tenant == "") h (
      if_holds HasOnePeriod (leb quantity 0) h (
        insert_usage-HasOnePeriod a tenant m quantity mode (ensure_active_period month a tenant x)
          (ensure_active_period-HasOnePeriod a tenant x h)))
