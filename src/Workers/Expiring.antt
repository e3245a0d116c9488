-- ===== src/Workers/Expiring.antt =====
-- What a tick does to the rows of the sessions.
use relavoi_backend.Workers.SessionExpiry.{
  TickAnswers, batch_limit, due_ids, expire_all, is_due, is_due_row, tick,
}
use relavoi_backend.Base.{
  if_not, update_self, ◌≡◌, ◌≢◌, ◌≤◌, ◌<◌, ◌⊎◌, refl, sym, ap, ◌∙◌, subst, ℕ, String, Bool, true,
  false, ◌&&◌, List, [], ◌∷◌, some, if◌then◌else◌, keep_if, zero, suc, take, length, contains,
  arith, Bool-cases, Option-cases, inl, inr, ◌==◌, string_eq, eq_iff, if_holds,
}
use mathlib.Core.Bool.{false≢true}
use relavoi_backend.Store.{
  SessionRow, SessionState, pending, active, grace_period, expired, failed, in_service,
}
use relavoi_backend.Session.{Result, World, Defaults, update_row, change_row}
use relavoi_backend.Session.Expire.{ExpireFaults, expire_session, expire_row, is_expired}
use relavoi_backend.Session.Expire.Cleanup.{closed_rows}
use relavoi_backend.Session.Keeps.{
  same_rows-Holds, update_row-IsKeyed, IsKeyed, Holds, update_row-Holds,
}
use relavoi_backend.Session.Keeps.Closing.{expire_session-Holds}
use relavoi_backend.Workers.{Worker}

take-all {ℓ} : {A : Type ℓ} (n : ℕ) (xs : List A) → length xs ≤ n → take n xs ≡ xs
take-all zero [] h = refl
take-all zero (x ∷ xs) h = absurd (omega arith)
take-all (suc n) [] h = refl
take-all (suc n) (x ∷ xs) h = ap (λ t. x ∷ t) (take-all n xs (omega arith))

contains-keep_if :
    (p : String → Bool) (x : String) (s : List String)
    → contains x (keep_if p s) ≡ (contains x s && p x)
unfolding contains
contains-keep_if p x [] = refl
contains-keep_if p x (y ∷ s) = elim (Bool-cases (y == x)) [
  | inl same ↦
      let at_x : p y ≡ p x = ap p ((eq_iff y x).0 same) in
      ground (arith, contains-keep_if p x s, at_x, same)
  | inr other ↦ ground (arith, contains-keep_if p x s, other)
]

-- A session is overdue: active or in its grace period, with the end of its time before now.
pub IsOverdue : ℕ → SessionRow → Type 0
IsOverdue now row = ((row.state ≡ active) ⊎ (row.state ≡ grace_period)) × (row.expires_at < now)

in_service-cases : (st : SessionState) → in_service st ≡ true → (st ≡ active) ⊎ (st ≡ grace_period)
in_service-cases pending e = absurd (ground arith)
in_service-cases active e = inl refl
in_service-cases grace_period e = inr refl
in_service-cases expired e = absurd (ground arith)
in_service-cases failed e = absurd (ground arith)

is_due_row-IsOverdue : (now : ℕ) (row : SessionRow) → is_due_row now row ≡ true → IsOverdue now row
unfolding IsOverdue
is_due_row-IsOverdue now row e = (in_service-cases row.state (ground (arith, e)), ground (arith, e))

IsOverdue-is_due_row : (now : ℕ) (row : SessionRow) → IsOverdue now row → is_due_row now row ≡ true
unfolding IsOverdue
IsOverdue-is_due_row now row (inl e, l) = ground (arith, e, l)
IsOverdue-is_due_row now row (inr e, l) = ground (arith, e, l)

-- What an expiry does to the row of a session: nothing if it is another's.
expire_other :
    (env : Defaults) (f : ExpireFaults) (id j : String) (now : ℕ) (w : World) (row : SessionRow)
    → id ≢ j
    → Holds j row w
    → Holds j row (expire_session env f id now w).1
unfolding expire_session expire_row IsKeyed
expire_other env f id j now w row other h =
    if_holds Kept f.read h (elim (Option-cases (w.rows id)) [
      | inl gone ↦ rw gone h
      | inr (s, there) ↦ rw there (
          if_holds Kept (is_expired s.state) h (
            if_holds Kept f.update h (
              same_rows-Holds j row (update_row s.id (expire_row now) w) _
                (closed_rows env f s now w)
                (update_row-Holds j row s.id (expire_row now) w (λ t. refl)
                  (subst (λ k. k ≢ j) (sym (h.keyed id s there)) other) h))))
    ])
  where
    Kept : Result Bool × World → Type 0
    Kept res = Holds j row res.1

expire_self :
    (env : Defaults) (f : ExpireFaults) (j : String) (now : ℕ) (w : World) (row : SessionRow)
    → f.read ≡ false
    → f.update ≡ false
    → is_expired row.state ≡ false
    → Holds j row w
    → Holds j (expire_row now row) (expire_session env f j now w).1
unfolding expire_session expire_row IsKeyed update_row
expire_self env f j now w row reads updates alive h =
    let same : row.id ≡ j = h.keyed j row h.there in
    let g = expire_row now in
    if_not Expired f.read _ reads (
      rw h.there (
        if_not Expired (is_expired row.state) _ alive (
          if_not Expired f.update _ updates (
            same_rows-Holds j (g row) (update_row row.id g w) _ (closed_rows env f row now w)
              (record {
                keyed = update_row-IsKeyed row.id g w (λ t. refl) h.keyed;
                there =
                    subst (λ k. (update_row row.id g w).rows k ≡ some (g row)) same
                      (update_self w.rows row.id (change_row g (w.rows row.id))
                        ∙ ap (change_row g) (ap w.rows same ∙ h.there));
              })))))
  where
    Expired : Result Bool × World → Type 0
    Expired res = Holds j (expire_row now row) res.1

-- The loop, of the row of one session: it is expired if its id is among those of the loop.
expire_all-expired :
    (env : Defaults) (a : TickAnswers) (ids : List String) (j : String) (w : World)
    (row : SessionRow)
    → is_expired row.state ≡ true
    → Holds j row w
    → Holds j row (expire_all env a ids w)
unfolding expire_all
expire_all-expired env a [] j w row over h = h
expire_all-expired env a (id ∷ rest) j w row over h =
    let w' = (expire_session env (a.expire_faults id) id (a.expires_now id) w).1 in
    expire_all-expired env a rest j w' row over
      (expire_session-Holds j row env (a.expire_faults id) id (a.expires_now id) w over h)

-- The calls for a session are answered.
pub record IsAnswered (f : ExpireFaults) : Type 0 where
  pub reads : f.read ≡ false
  pub updates : f.update ≡ false

abbrev expired_if : Bool → ℕ → SessionRow → SessionRow
expired_if listed now row = if listed then expire_row now row else row

expire_all-row :
    (env : Defaults) (a : TickAnswers) (ids : List String) (j : String) (w : World)
    (row : SessionRow)
    → IsAnswered (a.expire_faults j)
    → is_expired row.state ≡ false
    → Holds j row w
    → Holds j (expired_if (contains j ids) (a.expires_now j) row) (expire_all env a ids w)
unfolding expire_all contains expire_row
expire_all-row env a [] j w row up alive h = h
expire_all-row env a (id ∷ rest) j w row up alive h = elim (Bool-cases (id == j)) [
  | inr other ↦ rw other (
      expire_all-row env a rest j
        (expire_session env (a.expire_faults id) id (a.expires_now id) w).1 row up alive
        (expire_other env (a.expire_faults id) id j (a.expires_now id) w row
          (ground (arith, eq_iff id j, other)) h))
  | inl same ↦ rw same (
      expire_all-expired env a rest j
        (expire_session env (a.expire_faults id) id (a.expires_now id) w).1
        (expire_row (a.expires_now j) row) refl
        (subst
          (λ k.
            Holds j (expire_row (a.expires_now j) row)
              (expire_session env (a.expire_faults k) k (a.expires_now k) w).1)
          (sym ((eq_iff id j).0 same))
          (expire_self env (a.expire_faults j) j (a.expires_now j) w row up.reads up.updates alive
            h)))
]

contains-due_ids :
    (now : ℕ) (ids : List String) (w : World) (j : String) (row : SessionRow)
    → length (keep_if (is_due now w) ids) ≤ batch_limit
    → contains j ids ≡ true
    → w.rows j ≡ some row
    → contains j (due_ids now ids w) ≡ is_due_row now row
unfolding due_ids
contains-due_ids now ids w j row few listed there =
    ap (contains j) (take-all batch_limit (keep_if (is_due now w) ids) few)
    ∙ contains-keep_if (is_due now w) j ids
    ∙ rw (listed, there) refl

tick-row_if :
    (k : Worker) (env : Defaults) (a : TickAnswers) (ids : List String) (w : World) (j : String)
    (row : SessionRow)
    → k.in_flight ≡ false
    → a.query_fails ≡ false
    → length (keep_if (is_due a.now w) ids) ≤ batch_limit
    → contains j ids ≡ true
    → IsAnswered (a.expire_faults j)
    → is_expired row.state ≡ false
    → IsKeyed w
    → w.rows j ≡ some row
    → (tick k env a ids w).rows j
      ≡ some (if is_due_row a.now row then expire_row (a.expires_now j) row else row)
unfolding tick
tick-row_if k env a ids w j row ready reads few listed up alive keyed there =
    if_not Ends k.in_flight w ready (
      if_not Ends a.query_fails w reads (
        subst
          (λ b.
            (expire_all env a (due_ids a.now ids w) w).rows j
            ≡ some (expired_if b (a.expires_now j) row))
          (contains-due_ids a.now ids w j row few listed there)
          (expire_all-row env a (due_ids a.now ids w) j w row up alive
            (record { keyed = keyed; there = there })).there))
  where
    Ends : World → Type 0
    Ends v =
        v.rows j ≡ some (if is_due_row a.now row then expire_row (a.expires_now j) row else row)

-- A tick of a worker that is not in flight, whose query is answered with at most a hundred sessions,
-- where every row stands under its own id: a session of the table that is not expired and whose calls
-- are answered is expired, and otherwise as it was, if it is active or in its grace period and its
-- time ended before the tick; if not, it keeps its row. Calls that fail for other sessions do not
-- matter.
pub tick-row :
    (k : Worker) (env : Defaults) (a : TickAnswers) (ids : List String) (w : World) (j : String)
    (row : SessionRow)
    → k.in_flight ≡ false
    → a.query_fails ≡ false
    → length (keep_if (is_due a.now w) ids) ≤ batch_limit
    → contains j ids ≡ true
    → IsAnswered (a.expire_faults j)
    → is_expired row.state ≡ false
    → IsKeyed w
    → w.rows j ≡ some row
    → (IsOverdue a.now row
        × ((tick k env a ids w).rows j
            ≡ some (record row { state = expired; expired_at = some (a.expires_now j) })))
      ⊎ ((¬ IsOverdue a.now row) × ((tick k env a ids w).rows j ≡ some row))
unfolding expire_row
tick-row k env a ids w j row ready reads few listed up alive keyed there =
    let result = tick-row_if k env a ids w j row ready reads few listed up alive keyed there in
    elim (Bool-cases (is_due_row a.now row)) [
      | inl due ↦ inl (
        is_due_row-IsOverdue a.now row due,
        result ∙ ap (λ b. some (if b then expire_row (a.expires_now j) row else row)) due,
      )
      | inr not_due ↦ inr (
        (λ o. false≢true (sym not_due ∙ IsOverdue-is_due_row a.now row o)),
        result ∙ ap (λ b. some (if b then expire_row (a.expires_now j) row else row)) not_due,
      )
    ]
