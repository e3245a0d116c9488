-- ===== src/TenantWebhook/Reachable.antt =====
-- How often a delivery is posted, and that its retries end, over any order of timers.
use relavoi_backend.Base.{
  ◌||◌, subst, ap, Option-cases, ◌⊎◌, ℕ, suc, ◌+◌, ◌-◌, ◌≤◌, ◌<◌, ◌≡◌, refl, String, Bool, true,
  false, List, [], ◌∷◌, ◌++◌, Option, leb, ◌==◌, string_eq, if◌then◌else◌, arith, eq_iff, All,
  Bool-cases, inl, inr,
}
use relavoi_backend.Store.{truthy}
use relavoi_backend.TenantWebhook.{
  backoff_after, Outgoing, RetryItem, Response, DeliverArgs, Stamp, TenantWebhookConfig, attempt,
  log_attempt, schedule, deliver, fire, first_item, succeeded, max_attempts,
}

-- The POSTs made for a delivery.
unfoldable pub posts : String → List (ℕ × RetryItem) → ℕ
posts d [] = 0
posts d ((at, item) ∷ rest) =
    let n = posts d rest in if item.headers.delivery == d then suc n else n

-- The attempts that the timers of a delivery may still make.
unfoldable pub pending_attempts : String → List (ℕ × RetryItem) → ℕ
pending_attempts d [] = 0
pending_attempts d ((due, item) ∷ rest) =
    let n = pending_attempts d rest in
    if item.headers.delivery == d then (max_attempts + 1 - item.attempt) + n else n

-- The attempts that all timers may still make.
unfoldable pub work : List (ℕ × RetryItem) → ℕ
work [] = 0
work ((due, item) ∷ rest) = (max_attempts + 1 - item.attempt) + work rest

abbrev pub IsRetry : ℕ × RetryItem → Type 0
IsRetry t = (1 < t.1.attempt) × (t.1.attempt ≤ max_attempts)

-- What one delivery or one timer does.
pub data Step (stringify : String → String → String → String)
    (sign : String → String → String → String) : Outgoing → Outgoing → Type 0 where
  delivering :
      {x : Outgoing} (args : DeliverArgs) (t : Stamp) (a : Response)
      → posts t.delivery_id x.requests ≡ 0
      → pending_attempts t.delivery_id x.timers ≡ 0
      → Step stringify sign x (deliver stringify sign args t a x)
  firing :
      {x : Outgoing} (a : Response) (timer : ℕ × RetryItem) (now : ℕ)
      (before after : List (ℕ × RetryItem))
      → x.timers ≡ before ++ timer ∷ after
      → Step stringify sign x (fire a timer now (before ++ after) x)

pub data Reach (stringify : String → String → String → String)
    (sign : String → String → String → String) : Outgoing → Type 0 where
  starting :
      (tenants : String → Option TenantWebhookConfig)
      → Reach stringify sign
          record { tenants = tenants; delivery_logs = []; timers = []; requests = [] }
  stepping :
      {x y : Outgoing} → Reach stringify sign x → Step stringify sign x y → Reach stringify sign y

pub record Inv (x : Outgoing) : Type 0 where
  pub retries : All IsRetry x.timers
  pub budget : (d : String) → posts d x.requests + pending_attempts d x.timers ≤ max_attempts

All-remove {ℓ κ} :
    {A : Type ℓ} (P : A → Type κ) (before : List A) (a : A) (after : List A)
    → All P (before ++ a ∷ after)
    → P a × All P (before ++ after)
All-remove P [] a after h = h
All-remove P (b ∷ before) a after h =
    let (p, rest) = All-remove P before a after h.1 in (p, (h.0, rest))

pending_attempts-remove :
    (d : String) (before : List (ℕ × RetryItem)) (t : ℕ × RetryItem) (after : List (ℕ × RetryItem))
    → pending_attempts d (before ++ t ∷ after)
      ≡ pending_attempts d (t ∷ []) + pending_attempts d (before ++ after)
unfolding pending_attempts
pending_attempts-remove d [] t after = ground arith
pending_attempts-remove d (b ∷ before) t after =
    ground (arith, pending_attempts-remove d before t after)

pub work-remove :
    (before : List (ℕ × RetryItem)) (t : ℕ × RetryItem) (after : List (ℕ × RetryItem))
    → work (before ++ t ∷ after) ≡ work (t ∷ []) + work (before ++ after)
unfolding work
work-remove [] t after = ground arith
work-remove (b ∷ before) t after = ground (arith, work-remove before t after)

pub attempt-requests :
    (a : Response) (item : RetryItem) (start : ℕ) (x : Outgoing)
    → (attempt a item start x).requests ≡ (start, item) ∷ x.requests
unfolding attempt log_attempt schedule
attempt-requests a item start x = ground arith

log_attempt-timers :
    (a : Response) (item : RetryItem) (start : ℕ) (x : Outgoing)
    → (log_attempt a item start x).timers ≡ x.timers
unfolding log_attempt
log_attempt-timers a item start x = ground arith

schedule-timers :
    (a : Response) (item : RetryItem) (start : ℕ) (x : Outgoing)
    → (schedule item (start + a.took) (log_attempt a item start x)).timers
      ≡ (start + a.took + backoff_after item.attempt, record item { attempt = item.attempt + 1 })
        ∷ x.timers
unfolding schedule
schedule-timers a item start x =
    ap
      (λ t.
        (start + a.took + backoff_after item.attempt, record item { attempt = item.attempt + 1 })
        ∷ t)
      (log_attempt-timers a item start x)

-- Whether the attempt is the last of its delivery.
abbrev pub is_over : Response → ℕ → Bool
is_over a k = succeeded a.reply || leb max_attempts k

pub attempt-over :
    (a : Response) (item : RetryItem) (start : ℕ) (x : Outgoing)
    → is_over a item.attempt ≡ true
    → (attempt a item start x).timers ≡ x.timers
unfolding attempt
attempt-over a item start x over = elim (Bool-cases (succeeded a.reply)) [
  | inl done ↦ rw done (log_attempt-timers a item start _)
  | inr failed ↦ rw failed (rw (rw failed at over) (log_attempt-timers a item start _))
]

pub attempt-again :
    (a : Response) (item : RetryItem) (start : ℕ) (x : Outgoing)
    → is_over a item.attempt ≡ false
    → (attempt a item start x).timers
      ≡ (start + a.took + backoff_after item.attempt, record item { attempt = item.attempt + 1 })
        ∷ x.timers
unfolding attempt
attempt-again a item start x again = elim (Bool-cases (succeeded a.reply)) [
  | inl done ↦ absurd (ground (arith, again, done))
  | inr failed ↦ rw failed (rw (rw failed at again) (schedule-timers a item start _))
]

-- An attempt sets one timer, or none.
pub attempt-timers :
    (a : Response) (item : RetryItem) (start : ℕ) (x : Outgoing)
    → ((attempt a item start x).timers ≡ x.timers)
      ⊎ ((item.attempt < max_attempts)
          × ((attempt a item start x).timers
              ≡ (
                start + a.took + backoff_after item.attempt,
                record item { attempt = item.attempt + 1 },
              )
                ∷ x.timers))
attempt-timers a item start x = elim (Bool-cases (is_over a item.attempt)) [
  | inl over ↦ inl (attempt-over a item start x over)
  | inr again ↦ inr (ground (arith, again), attempt-again a item start x again)
]

attempt-Inv :
    (a : Response) (item : RetryItem) (start : ℕ) (x : Outgoing)
    → 0 < item.attempt
    → item.attempt ≤ max_attempts
    → All IsRetry x.timers
    → ((d : String)
        → posts d x.requests + pending_attempts d ((start, item) ∷ x.timers) ≤ max_attempts)
    → Inv (attempt a item start x)
unfolding posts pending_attempts
attempt-Inv a item start x positive small retries budget = elim (attempt-timers a item start x) [
  | inl same ↦ record {
    retries = rw same retries;
    budget = λ d. rw (same, attempt-requests a item start x) (ground (arith, budget d));
  }
  | inr (more, set) ↦ record {
    retries = rw set ((ground (arith, positive), ground (arith, more)), retries);
    budget = λ d. rw (set, attempt-requests a item start x) (ground (arith, budget d, more));
  }
]

-- A first attempt whose id no POST and no timer has.
first-budget :
    (item : RetryItem) (start : ℕ) (x : Outgoing)
    → item.attempt ≡ 1
    → posts item.headers.delivery x.requests ≡ 0
    → pending_attempts item.headers.delivery x.timers ≡ 0
    → ((d : String) → posts d x.requests + pending_attempts d x.timers ≤ max_attempts)
    → (d : String)
    → posts d x.requests + pending_attempts d ((start, item) ∷ x.timers) ≤ max_attempts
unfolding pending_attempts
first-budget item start x first no_posts no_timers budget d =
    elim (Bool-cases (item.headers.delivery == d)) [
      | inr other ↦ rw other (budget d)
      | inl same ↦ rw same (
          subst
            (λ e.
              posts e x.requests + (max_attempts + 1 - item.attempt + pending_attempts e x.timers)
              ≤ max_attempts)
            ((eq_iff item.headers.delivery d).0 same) (ground (arith, no_posts, no_timers, first)))
    ]

module _ (stringify : String → String → String → String)
    (sign : String → String → String → String) where
  Step-Inv : {x y : Outgoing} → Step stringify sign x y → Inv x → Inv y
  unfolding deliver fire first_item pending_attempts
  Step-Inv {x} (delivering args t a no_posts no_timers) v = elim (Bool-cases t.lookup_fails) [
    | inl down ↦ rw down v
    | inr up ↦ elim (Option-cases (x.tenants args.tenant_id)) [
      | inl none_there ↦ rw (up, none_there) v
      | inr (tenant, there) ↦ elim (Bool-cases (truthy tenant.webhook_url)) [
        | inr no_url ↦ rw (up, there, no_url) v
        | inl has_url ↦
            rw (up, there, has_url)
              (attempt-Inv a (first_item stringify sign args t tenant) t.now x (omega arith)
                (omega arith) v.retries
                (first-budget (first_item stringify sign args t tenant) t.now x refl no_posts
                  no_timers v.budget))
      ]
    ]
  ]
  Step-Inv {x} (firing a timer now before after set) v =
      let (retry, others) =
        All-remove IsRetry before timer after (subst (All IsRetry) set v.retries) in
      attempt-Inv a timer.1 now (record x { timers = before ++ after }) (ground (arith, retry.0))
        retry.1 others
        λ d. ground (
          arith,
          v.budget d,
          pending_attempts-remove d before timer after,
          ap (pending_attempts d) set,
        )

  Reach-Inv : {x : Outgoing} → Reach stringify sign x → Inv x
  unfolding posts pending_attempts
  Reach-Inv (starting tenants) = record { retries = tt; budget = λ d. omega arith }
  Reach-Inv (stepping r s) = Step-Inv s (Reach-Inv r)

  -- However deliveries and timers interleave and whatever the tenants answer, where no two
  -- deliveries get one id: of every delivery at most four POSTs have been made, those that its
  -- timers may still make included.
  pub Reach-posts :
      {x : Outgoing}
      → Reach stringify sign x
      → (d : String) → posts d x.requests + pending_attempts d x.timers ≤ max_attempts
  Reach-posts r d = (Reach-Inv r).budget d

-- Each timer that fires uses up an attempt.
pub fire-work :
    (a : Response) (timer : ℕ × RetryItem) (now : ℕ) (others : List (ℕ × RetryItem)) (x : Outgoing)
    → IsRetry timer
    → work (fire a timer now others x).timers < work (timer ∷ others)
unfolding fire work
fire-work a timer now others x retry =
    elim (attempt-timers a timer.1 now (record x { timers = others })) [
      | inl same ↦ rw same (ground (arith, retry.1))
      | inr (more, set) ↦ rw set (ground (arith, more))
    ]
