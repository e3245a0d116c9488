-- ===== src/TenantWebhook/Draining.antt =====
-- The retries end: what is left of the timers, and when one delivery is tried.
use relavoi_backend.Base.{
  String, get_elem?, or_else, subst, length, ◌∙◌, ◌⊎◌, ap, ℕ, zero, suc, ◌+◌, ◌≤◌, ◌<◌, ◌≡◌, refl,
  true, false, List, [], ◌∷◌, some, arith, All, if◌then◌else◌, Bool-cases, inl, inr,
}
use relavoi_backend.Store.{truthy}
use relavoi_backend.TenantWebhook.{
  TenantWebhookConfig, Stamp, DeliverArgs, first_item, deliver, backoff_ms, Outgoing, RetryItem,
  Response, attempt, fire, drain, succeeded, max_attempts, backoff_after,
}
use relavoi_backend.TenantWebhook.Reachable.{
  attempt-requests, attempt-over, attempt-again, is_over, IsRetry, work, fire-work, attempt-timers,
}

fire-IsRetry :
    (a : Response) (timer : ℕ × RetryItem) (now : ℕ) (others : List (ℕ × RetryItem)) (x : Outgoing)
    → IsRetry timer
    → All IsRetry others
    → All IsRetry (fire a timer now others x).timers
unfolding fire
fire-IsRetry a timer now others x retry rest =
    elim (attempt-timers a timer.1 now (record x { timers = others })) [
      | inl same ↦ rw same rest
      | inr (more, set) ↦ rw set ((ground (arith, retry.0), ground (arith, more)), rest)
    ]

drain-idle :
    (fuel : ℕ) (answer : RetryItem → Response) (x : Outgoing)
    → x.timers ≡ []
    → drain fuel answer x ≡ x
unfolding drain
drain-idle zero answer x idle = refl
drain-idle (suc fuel) answer x idle = simp (idle, drain)

drain-next :
    (fuel : ℕ) (answer : RetryItem → Response) (x : Outgoing) (timer : ℕ × RetryItem)
    (others : List (ℕ × RetryItem))
    → x.timers ≡ timer ∷ others
    → drain (suc fuel) answer x ≡ drain fuel answer (fire (answer timer.1) timer timer.0 others x)
unfolding drain
drain-next fuel answer x timer others set = simp (set, drain)

List-cases {ℓ} :
    {A : Type ℓ} (xs : List A) → (xs ≡ []) ⊎ ((a : A) × (rest : List A) × (xs ≡ a ∷ rest))
List-cases [] = inl refl
List-cases (a ∷ rest) = inr (a, rest, refl)

-- The retries come to an end whatever the tenants answer: where every timer holds a retry, after as
-- many timers fired as the timers have attempts left, none is set.
pub drain-timers :
    (fuel : ℕ) (answer : RetryItem → Response) (x : Outgoing)
    → All IsRetry x.timers
    → work x.timers ≤ fuel
    → (drain fuel answer x).timers ≡ []
unfolding work
drain-timers zero answer x retries enough = elim (List-cases x.timers) [
  | inl idle ↦ ap (λ (y : Outgoing). y.timers) (drain-idle zero answer x idle) ∙ idle
  | inr (timer, others, set) ↦
      let retry = (subst (All IsRetry) set retries).0.1 in
      absurd (omega (arith, subst (λ ts. work ts ≤ 0) set enough, retry))
]
drain-timers (suc fuel) answer x retries enough = elim (List-cases x.timers) [
  | inl idle ↦ ap (λ (y : Outgoing). y.timers) (drain-idle (suc fuel) answer x idle) ∙ idle
  | inr (timer, others, set) ↦
      let (retry, rest) = subst (All IsRetry) set retries in
      let a = answer timer.1 in
      ap (λ (y : Outgoing). y.timers) (drain-next fuel answer x timer others set)
      ∙ drain-timers fuel answer (fire a timer timer.0 others x)
          (fire-IsRetry a timer timer.0 others x retry rest)
          (omega (
            arith,
            fire-work a timer timer.0 others x retry,
            subst (λ ts. work ts ≤ suc fuel) set enough,
          ))
]

-- The backoffs that are left, from attempt number k.
abbrev Rests : List ℕ → ℕ → Type 0
Rests bs k = (i : ℕ) → i < length bs → or_else (get_elem? bs i) 0 ≡ backoff_after (k + i)

first_rest : (k b : ℕ) (bs : List ℕ) → Rests (b ∷ bs) k → b ≡ backoff_after k
first_rest k b bs rests = subst (λ j. b ≡ backoff_after j) (omega arith) (rests 0 (omega arith))

later-Rests : (k b : ℕ) (bs : List ℕ) → Rests (b ∷ bs) k → Rests bs (k + 1)
later-Rests k b bs rests i h =
    subst (λ j. or_else (get_elem? bs i) 0 ≡ backoff_after j) (omega arith)
      (rests (suc i) (omega arith))

-- The attempts up to the first that succeeds.
pub until_success : (RetryItem → Response) → List (ℕ × RetryItem) → List (ℕ × RetryItem)
until_success answer [] = []
until_success answer (p ∷ ps) =
    let rest = until_success answer ps in p ∷ (if succeeded (answer p.1).reply then [] else rest)

-- The times at which requests start, newest first, before those of the past.
pub push_all : List (ℕ × RetryItem) → List (ℕ × RetryItem) → List (ℕ × RetryItem)
push_all [] past = past
push_all (p ∷ ps) past = push_all ps (p ∷ past)

module _ (item : RetryItem) (answer : RetryItem → Response) where
  -- The attempt number k of the delivery, and what the tenant answers to it.
  abbrev pub nth : ℕ → RetryItem
  nth k = record item { attempt = k }

  abbrev pub answer_to : ℕ → Response
  answer_to k = answer (nth k)

  -- The attempts as they are planned: each retry a backoff after the attempt before it is over.
  pub planned : List ℕ → ℕ → ℕ → List (ℕ × RetryItem)
  planned [] k start = (start, nth k) ∷ []
  planned (b ∷ bs) k start = (start, nth k) ∷ planned bs (k + 1) (start + (answer_to k).took + b)

  made : ℕ → ℕ → ℕ → Outgoing → Outgoing
  made fuel k start x = drain fuel answer (attempt (answer_to k) (nth k) start x)

  made-last :
      (fuel k start : ℕ) (x : Outgoing)
      → x.timers ≡ []
      → is_over (answer_to k) k ≡ true
      → (made fuel k start x).requests ≡ (start, nth k) ∷ x.requests
  unfolding made
  made-last fuel k start x idle over =
      let y = attempt (answer_to k) (nth k) start x in
      ap (λ (z : Outgoing). z.requests)
        (drain-idle fuel answer y (attempt-over (answer_to k) (nth k) start x over ∙ idle))
      ∙ attempt-requests (answer_to k) (nth k) start x

  made-again :
      (fuel k start b : ℕ) (x : Outgoing)
      → x.timers ≡ []
      → is_over (answer_to k) k ≡ false
      → b ≡ backoff_after k
      → made (suc fuel) k start x
        ≡ made fuel
            (k + 1)
            (start + (answer_to k).took + b)
            (record (attempt (answer_to k) (nth k) start x) { timers = [] })
  unfolding made fire
  made-again fuel k start b x idle again same = rw same (
      drain-next fuel answer (attempt (answer_to k) (nth k) start x) _ [] (
        attempt-again (answer_to k) (nth k) start x again
        ∙ ap (λ ts. (start + (answer_to k).took + backoff_after k, nth (k + 1)) ∷ ts) idle))

  retries-requests :
      (bs : List ℕ) (k start : ℕ) (x : Outgoing)
      → 0 < k
      → k + length bs ≡ max_attempts
      → Rests bs k
      → x.timers ≡ []
      → (made (length bs) k start x).requests
        ≡ push_all (until_success answer (planned bs k start)) x.requests
  unfolding push_all until_success planned
  retries-requests [] k start x positive count rests idle =
      elim (Bool-cases (succeeded (answer_to k).reply)) [
        | inl done ↦ rw done (made-last 0 k start x idle (ground (arith, count)))
        | inr failed ↦ rw failed (made-last 0 k start x idle (ground (arith, count)))
      ]
  retries-requests (b ∷ bs) k start x positive count rests idle =
      elim (Bool-cases (succeeded (answer_to k).reply)) [
        | inl done ↦ rw done (made-last (suc (length bs)) k start x idle (rw done refl))
        | inr failed ↦ rw failed (
            let y = attempt (answer_to k) (nth k) start x in
            let later = start + (answer_to k).took + b in
            ap (λ (z : Outgoing). z.requests)
              (made-again (length bs) k start b x idle (ground (arith, failed, count))
                (first_rest k b bs rests))
            ∙ retries-requests bs (k + 1) later (record y { timers = [] }) (omega arith)
                (omega (arith, count)) (later-Rests k b bs rests) refl
            ∙ ap (push_all (until_success answer (planned bs (k + 1) later)))
                (attempt-requests (answer_to k) (nth k) start x))
      ]

backoff_ms-Rests : Rests backoff_ms 1
unfolding backoff_after
backoff_ms-Rests zero h = refl
backoff_ms-Rests (suc zero) h = refl
backoff_ms-Rests (suc (suc zero)) h = refl
backoff_ms-Rests (suc (suc (suc i))) h = absurd (omega arith)

module _ (stringify : String → String → String → String)
    (sign : String → String → String → String) where
  -- The retries of one delivery, for a tenant who is found and has a webhook, while no other timer
  -- is set: its POSTs are those up to the first that succeeds, and four at most; the retries start
  -- 30 seconds, 2 minutes and 10 minutes after the attempt before them has failed.
  pub deliver-requests :
      (args : DeliverArgs) (t : Stamp) (tenant : TenantWebhookConfig)
      (answer : RetryItem → Response) (x : Outgoing)
      → t.lookup_fails ≡ false
      → x.tenants args.tenant_id ≡ some tenant
      → truthy tenant.webhook_url ≡ true
      → x.timers ≡ []
      → (drain (length backoff_ms) answer (
          deliver stringify sign args t
            (answer (first_item stringify sign args t tenant))
            x)).requests
        ≡ push_all
            (until_success answer
              (planned (first_item stringify sign args t tenant) answer backoff_ms 1 t.now))
            x.requests
  unfolding deliver first_item made
  deliver-requests args t tenant answer x up there has_url idle =
      rw (up, there, has_url)
        (retries-requests (first_item stringify sign args t tenant) answer backoff_ms 1 t.now x
          (omega arith) (omega arith) backoff_ms-Rests idle)
