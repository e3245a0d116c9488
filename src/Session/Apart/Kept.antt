-- ===== src/Session/Apart/Kept.antt =====
-- `createSession` keeps the sessions on every number apart.
use relavoi_backend.Base.{
  ◌≡◌, ◌==◌, nat_eq, ◌*◌, if_holds, inl, inr, refl, sym, ap, ◌∙◌, subst, String, Bool, true, false,
  string_eq, Option, none, some, contains, update_self, update_other, Bool-cases, Option-cases, ℕ,
}
use relavoi_backend.Crypto.{NodeCrypto, hash_phone}
use relavoi_backend.Cache.{Store, get}
use relavoi_backend.Store.{SessionRow, Redis, no_hash}
use relavoi_backend.Session.{
  Defaults, World, TenantSessionConfig, attempt, attempt_keeps, update_row, load_tenant_config,
  cached_config,
}
use relavoi_backend.Session.Create.{
  CreateArgs, CreateFaults, Answers, validate, resolve_grace, resolve_duration, new_row, new_hash,
  insert_row, activate_row, write_hash, expire_hash, track_active, opening, with_release, roll_back,
  finish_create, allotment, with_number, with_config, create_session,
}
use relavoi_backend.Session.Apart.{ApartOn}
use relavoi_backend.Session.Apart.Creation.{Adds, IsOwn, Adds-IsApart}
use relavoi_backend.Session.Apart.Created.{allocate-Adds, release-Adds, same-Adds}

module _ (row : SessionRow) (r : Redis) where
  -- The creation of the session of the row, from the keys `r`.
  abbrev AddsRow : World → Type 0
  AddsRow v = Adds row.party_a_phone_hash row.party_b_phone_hash row.id r v.redis

  write_hash-Adds : (v : World) → AddsRow v → AddsRow (write_hash row v)
  unfolding write_hash new_hash
  write_hash-Adds v d = record {
    members = d.members;
    others = λ s ne. update_other v.redis.session _ (λ same. ne (sym same)) ∙ d.others s ne;
    own =
        subst (IsOwn row.party_a_phone_hash row.party_b_phone_hash row.id r)
          (sym (update_self v.redis.session row.id _)) (inr (refl, refl));
  }

  moved-Adds :
      (v u : Redis)
      → u.proxy_sessions ≡ v.proxy_sessions
      → u.session ≡ v.session
      → Adds row.party_a_phone_hash row.party_b_phone_hash row.id r v
      → Adds row.party_a_phone_hash row.party_b_phone_hash row.id r u
  moved-Adds v u e k d = record {
    members = λ p s m. d.members p s (subst (λ t. contains s (t p) ≡ true) e m);
    others = λ s ne. ap (λ t. t s) k ∙ d.others s ne;
    own =
        subst (λ t. IsOwn row.party_a_phone_hash row.party_b_phone_hash row.id r (t row.id)) (sym k)
          d.own;
  }

  expire_hash-Adds :
      (seconds now : ℕ) (v : World) → AddsRow v → AddsRow (expire_hash row.id seconds now v)
  unfolding expire_hash
  expire_hash-Adds seconds now v d =
      if_holds AddsRow (seconds == 0)
        (record {
          members = d.members;
          others = λ s ne. update_other v.redis.session _ (λ same. ne (sym same)) ∙ d.others s ne;
          own =
              subst (IsOwn row.party_a_phone_hash row.party_b_phone_hash row.id r)
                (sym (update_self v.redis.session row.id _)) (inl refl);
        })
        (moved-Adds v.redis _ refl refl d)

  attempt-opening-Adds :
      (f : CreateFaults) (now : ℕ) (w : World)
      → AddsRow w
      → AddsRow (attempt (opening f row now) w).1
  unfolding opening insert_row activate_row update_row track_active
  attempt-opening-Adds f now w d =
      attempt_keeps AddsRow (opening f row now) w
        (
          (λ v. moved-Adds v.redis _ refl refl),
          (
            (λ v. moved-Adds v.redis _ refl refl),
            (
              write_hash-Adds,
              (
                expire_hash-Adds (row.max_duration_min * 60) now,
                ((λ v. moved-Adds v.redis _ refl refl), ((λ v e. e), tt)),
              ),
            ),
          ),
        )
        d

  roll_back-Adds :
      (f : CreateFaults) (region : Option String) (now : ℕ) (w : World)
      → AddsRow w
      → AddsRow (roll_back f region row now w)
  unfolding roll_back with_release update_row
  roll_back-Adds f region now w d =
      let released =
        release-Adds row.party_a_phone_hash row.party_b_phone_hash row.id r f.release region
          row.proxy_number row.id 0 now w.redis w.numbers d in
      elim (Bool-cases f.mark_failed) [ inl down ↦ rw down released | inr up ↦ rw up released ]

  finish_create-Adds :
      (f : CreateFaults) (region : Option String) (now : ℕ) (p : Bool × World)
      → AddsRow p.1
      → AddsRow (finish_create f region row now p).1
  unfolding finish_create
  finish_create-Adds f region now (false, w) d = roll_back-Adds f region now w d
  finish_create-Adds f region now (true, w) d = elim (Option-cases (w.rows row.id)) [
    | inl gone ↦ rw (gone, finish_create) (roll_back-Adds f region now w d)
    | inr (t, there) ↦ rw (there, finish_create) (moved-Adds w.redis _ refl refl d)
  ]

module _ (c : NodeCrypto) where
  with_number-Adds :
      (args : CreateArgs) (x : Answers) (grace duration : ℕ) (w : World) (r : Redis)
      (t : Option String × Redis)
      → Adds
          (hash_phone c args.agent_phone args.tenant_id)
          (hash_phone c args.customer_phone args.tenant_id)
          x.session_id
          r
          t.1
      → Adds
          (hash_phone c args.agent_phone args.tenant_id)
          (hash_phone c args.customer_phone args.tenant_id)
          x.session_id
          r
          (with_number c args x grace duration w t).1.redis
  unfolding with_number new_row
  with_number-Adds args x grace duration w r (none, v) d = d
  with_number-Adds args x grace duration w r (some proxy, v) d =
      let row = new_row c args x grace duration proxy in
      finish_create-Adds row r x.faults args.region x.now
        (attempt (opening x.faults row x.now) (record w { redis = v }))
        (attempt-opening-Adds row r x.faults x.now (record w { redis = v }) d)

  load-redis :
      (fails : Bool) (now : ℕ) (tenant : String) (w : World)
      → (load_tenant_config fails now tenant w).1.redis ≡ w.redis
  unfolding load_tenant_config cached_config
  load-redis fails now tenant w = go (get now tenant w.config_cache)
    where
      go :
          (o : Option (Option TenantSessionConfig) × Store (Option TenantSessionConfig))
          → (cached_config fails now tenant w o).1.redis ≡ w.redis
      go (some config, cache) = refl
      go (none, cache) = elim (Bool-cases fails) [ inl down ↦ rw down refl | inr up ↦ rw up refl ]

  create_session-Adds :
      (env : Defaults) (args : CreateArgs) (x : Answers) (w : World)
      → w.redis.session x.session_id ≡ no_hash
      → Adds
          (hash_phone c args.agent_phone args.tenant_id)
          (hash_phone c args.customer_phone args.tenant_id)
          x.session_id
          w.redis
          (create_session c env args x w).1.redis
  unfolding create_session
  create_session-Adds env args x w new =
      let a = hash_phone c args.agent_phone args.tenant_id in
      let b = hash_phone c args.customer_phone args.tenant_id in
      elim (Option-cases (validate args)) [
        | inr (e, bad) ↦ simp (bad, create_session) (same-Adds a b x.session_id w.redis new)
        | inl valid ↦
            simp (valid, create_session)
              (go (load_tenant_config x.faults.config_read x.now args.tenant_id w)
                (load-redis x.faults.config_read x.now args.tenant_id w))
      ]
    where
      go :
          (p : Option TenantSessionConfig × World)
          → p.1.redis ≡ w.redis
          → Adds
              (hash_phone c args.agent_phone args.tenant_id)
              (hash_phone c args.customer_phone args.tenant_id)
              x.session_id
              w.redis
              (with_config c env args x p).1.redis
      go (config, v) e =
          with_number-Adds args x (resolve_grace env args config) (resolve_duration env args config)
            v w.redis (allotment c args x v)
            (subst
              (λ r.
                Adds (hash_phone c args.agent_phone args.tenant_id)
                  (hash_phone c args.customer_phone args.tenant_id) x.session_id r
                  (allotment c args x v).1)
              e
              (allocate-Adds (hash_phone c args.agent_phone args.tenant_id)
                (hash_phone c args.customer_phone args.tenant_id) x.session_id v.redis
                x.faults.allocation args.region x.draw
                (subst (λ r. r.session x.session_id ≡ no_hash) (sym e) new)))

  -- `createSession` keeps the sessions on every number apart, whichever calls throw: if its new id
  -- is on no number and has no hash yet, and no two sessions of one tenant on the number that are
  -- recorded and in service have a participant in common before, none have after.
  pub create_session-ApartOn :
      (env : Defaults) (args : CreateArgs) (x : Answers) (w : World) (number : String)
      → w.redis.session x.session_id ≡ no_hash
      → ((p : String) → contains x.session_id (w.redis.proxy_sessions p) ≡ false)
      → ApartOn number w
      → ApartOn number (create_session c env args x w).1
  create_session-ApartOn env args x w number new fresh apart =
      Adds-IsApart (hash_phone c args.agent_phone args.tenant_id)
        (hash_phone c args.customer_phone args.tenant_id) x.session_id w.redis
        (create_session c env args x w).1.redis number fresh (create_session-Adds env args x w new)
        apart
