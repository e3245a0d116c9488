-- ===== src/Session/Create/Failure.antt =====
-- What a creation that fails after its allocation leaves behind.
use relavoi_backend.Base.{
  ◌*◌, ◌==◌, if_holds, ◌⊎◌, or_else, sym, Bool-cases, ℕ, ◌≡◌, refl, String, Bool, true, false, List,
  Option, none, some, arith, contains, contains-srem, update, eq_refl, inl, inr, subst,
  Option-cases, string_eq, nat_eq,
}
use relavoi_backend.Crypto.{NodeCrypto, hash_phone}
use relavoi_backend.Store.{SessionRow, Redis, NumberRow, failed}
use relavoi_backend.Pool.{default_region}
use relavoi_backend.Pool.Allocate.{allocate}
use relavoi_backend.Pool.Release.{release, release_script, give_back, leave_proxy, ReleaseFaults}
use relavoi_backend.Pool.Allocation.{allocate-Granted, Granted}
use relavoi_backend.Session.{World, err, Error, attempt, attempt_keeps, update_row}
use relavoi_backend.Session.Create.{
  CreateArgs, CreateFaults, Answers, new_row, opening, insert_row, activate_row, write_hash,
  expire_hash, track_active, finish_create, roll_back, with_release, with_number, allotment,
}

-- A release whose script runs takes the session off its number and leaves the phone sets alone.
release-off_proxy :
    (f : ReleaseFaults) (region : Option String) (proxy sid : String) (minutes now : ℕ) (r : Redis)
    (rows : List NumberRow)
    → f.script ≡ false
    → (contains sid ((release f region proxy sid minutes now r rows).1.proxy_sessions proxy)
        ≡ false)
      × ((release f region proxy sid minutes now r rows).1.phone_sessions ≡ r.phone_sessions)
unfolding release release_script give_back leave_proxy update
release-off_proxy f region proxy sid minutes now r rows up =
    ground (arith, eq_refl proxy, eq_refl sid, contains-srem sid sid (r.proxy_sessions proxy))

abbrev Lists : Redis → World → Type 0
Lists r w =
    (w.redis.proxy_sessions ≡ r.proxy_sessions) × (w.redis.phone_sessions ≡ r.phone_sessions)

expire_hash-Lists :
    (id : String) (seconds now : ℕ) (r : Redis) (w : World)
    → Lists r w
    → Lists r (expire_hash id seconds now w)
unfolding expire_hash
expire_hash-Lists id seconds now r w l = if_holds (Lists r) (seconds == 0) l l

opening-Lists :
    (f : CreateFaults) (row : SessionRow) (now : ℕ) (w : World)
    → Lists w.redis (attempt (opening f row now) w).1
unfolding opening insert_row activate_row write_hash track_active update_row
opening-Lists f row now w =
    attempt_keeps (Lists w.redis) (opening f row now) w
      (
        (λ v l. l),
        (
          (λ v l. l),
          (
            (λ v l. l),
            (
              expire_hash-Lists row.id (row.max_duration_min * 60) now w.redis,
              ((λ v l. l), ((λ v l. l), tt)),
            ),
          ),
        ),
      )
      (refl, refl)

-- After the rollback: the number is not held, no row is in service; the participants' sets still
-- list the session.
pub record RolledBack (f : CreateFaults) (row : SessionRow) (w : World) : Type 0 where
  pub off_proxy : contains row.id (w.redis.proxy_sessions row.proxy_number) ≡ false
  pub marked :
      (r : SessionRow) → w.rows row.id ≡ some r → (r.state ≡ failed) ⊎ (f.mark_failed ≡ true)
  pub left_by_party_a : contains row.id (w.redis.phone_sessions row.party_a_phone_hash) ≡ true
  pub left_by_party_b : contains row.id (w.redis.phone_sessions row.party_b_phone_hash) ≡ true

mark : SessionRow → SessionRow
mark s = record s { state = failed }

marked_row :
    (id : String) (w : World) (r : SessionRow)
    → (update_row id mark w).rows id ≡ some r
    → r.state ≡ failed
unfolding update_row update mark
marked_row id w r = elim (Option-cases (w.rows id)) [
  | inl e ↦ rw (e, eq_refl id) (λ h. cc)
  | inr (s, e) ↦ rw (e, eq_refl id) (λ h. ground arith)
]

roll_back-RolledBack :
    (f : CreateFaults) (region : Option String) (row : SessionRow) (now : ℕ) (w : World)
    → f.release.script ≡ false
    → contains row.id (w.redis.phone_sessions row.party_a_phone_hash) ≡ true
    → contains row.id (w.redis.phone_sessions row.party_b_phone_hash) ≡ true
    → RolledBack f row (roll_back f region row now w)
unfolding roll_back mark update_row
roll_back-RolledBack f region row now w up a b =
    let (off, phones) =
      release-off_proxy f.release region row.proxy_number row.id 0 now w.redis w.numbers up in
    let a' = subst (λ m. contains row.id (m row.party_a_phone_hash) ≡ true) (sym phones) a in
    let b' = subst (λ m. contains row.id (m row.party_b_phone_hash) ≡ true) (sym phones) b in
    elim (Bool-cases f.mark_failed) [
      | inl unmarked ↦ rw unmarked (record {
        off_proxy = off;
        marked = λ r e. inr refl;
        left_by_party_a = a';
        left_by_party_b = b';
      })
      | inr marks ↦ rw marks (record {
        off_proxy = off;
        marked = λ r e. inl (
            marked_row row.id
              (with_release w
                (release f.release region row.proxy_number row.id 0 now w.redis w.numbers))
              r e);
        left_by_party_a = a';
        left_by_party_b = b';
      })
    ]

finish-RolledBack :
    (f : CreateFaults) (region : Option String) (row : SessionRow) (now : ℕ) (e : Error) (w : World)
    → f.release.script ≡ false
    → contains row.id (w.redis.phone_sessions row.party_a_phone_hash) ≡ true
    → contains row.id (w.redis.phone_sessions row.party_b_phone_hash) ≡ true
    → (p : Bool × World) → Lists w.redis p.1
    → (finish_create f region row now p).0 ≡ err e
    → RolledBack f row (finish_create f region row now p).1
unfolding finish_create
finish-RolledBack f region row now e w up a b (false, v) (_, l) = λ h.
    roll_back-RolledBack f region row now v up
      (subst (λ m. contains row.id (m row.party_a_phone_hash) ≡ true) (sym l) a)
      (subst (λ m. contains row.id (m row.party_b_phone_hash) ≡ true) (sym l) b)
finish-RolledBack f region row now e w up a b (true, v) (_, l) =
    elim (Option-cases (v.rows row.id)) [
      | inr (stored, there) ↦ rw (there, finish_create) (λ h. cc)
      | inl gone ↦
          rw (gone, finish_create)
            (λ h.
              roll_back-RolledBack f region row now v up
                (subst (λ m. contains row.id (m row.party_a_phone_hash) ≡ true) (sym l) a)
                (subst (λ m. contains row.id (m row.party_b_phone_hash) ≡ true) (sym l) b))
    ]

some-eq : {p q : String} → some p ≡ some q → p ≡ q
some-eq h = cc

module _ (c : NodeCrypto) where
  -- When the allocation gave the number `proxy` and any later call of `createSession` throws, or
  -- the row is not read back: if the release script itself answers, the session no longer holds the
  -- number, and if the update does too, a row of the session is marked as failed; but the session
  -- stays listed under the hashes of both participants.
  pub with_number-RolledBack :
      (args : CreateArgs) (x : Answers) (grace duration : ℕ) (w : World) (proxy : String)
      (e : Error)
      → x.faults.release.script ≡ false
      → (allotment c args x w).0 ≡ some proxy
      → (with_number c args x grace duration w (allotment c args x w)).0 ≡ err e
      → RolledBack x.faults
          (new_row c args x grace duration proxy)
          (with_number c args x grace duration w (allotment c args x w)).1
  unfolding with_number new_row allotment
  with_number-RolledBack args x grace duration w proxy e up got =
      let hash_a = hash_phone c args.agent_phone args.tenant_id in
      let hash_b = hash_phone c args.customer_phone args.tenant_id in
      go (allocate x.faults.allocation args.region hash_a hash_b x.session_id x.draw w.redis)
        (allocate-Granted x.faults.allocation args.region hash_a hash_b x.session_id x.draw w.redis
          proxy got)
        got
    where
      go :
          (t : Option String × Redis)
          → Granted
              (or_else args.region default_region)
              (hash_phone c args.agent_phone args.tenant_id)
              (hash_phone c args.customer_phone args.tenant_id)
              x.session_id
              proxy
              w.redis
              t.1
          → t.0 ≡ some proxy
          → (with_number c args x grace duration w t).0 ≡ err e
          → RolledBack x.faults
              (new_row c args x grace duration proxy)
              (with_number c args x grace duration w t).1
      go (none, r) g h = λ h'. cc
      go (some p, r) g h = rw (some-eq h) (
          finish-RolledBack x.faults args.region (new_row c args x grace duration proxy) x.now e
            (record w { redis = r }) up g.by_party_a g.by_party_b
            (attempt (opening x.faults (new_row c args x grace duration proxy) x.now)
              (record w { redis = r }))
            (opening-Lists x.faults (new_row c args x grace duration proxy) x.now
              (record w { redis = r })))
