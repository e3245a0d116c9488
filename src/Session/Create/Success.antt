-- ===== src/Session/Create/Success.antt =====
-- What a session that was created has.
use relavoi_backend.Base.{
  sym, inl, inr, Option-cases, subst, ℕ, ◌+◌, ◌*◌, ◌≡◌, ◌<◌, refl, String, Bool, true, false, ◌∷◌,
  Option, none, some, arith, contains, contains-sadd, update, eq_refl,
}
use relavoi_backend.Crypto.{NodeCrypto, hash_phone}
use relavoi_backend.Pool.Allocation.{allocate-Granted}
use relavoi_backend.Store.{SessionRow, SessionHash, Redis, active}
use relavoi_backend.Session.{
  load_tenant_config, session_created, TenantSessionConfig, World, ok, Defaults, attempt,
  attempt-all_effects, all_effects, update_row,
}
use relavoi_backend.Session.Create.{
  resolve_duration, resolve_grace, validate, CreateArgs, CreateFaults, Answers, new_row, new_hash,
  opening, insert_row, activate_row, write_hash, expire_hash, track_active, finish_create,
  with_number, with_config, create_session,
}

-- The hash of a session, as the router and the pool read it: recorded, in service and with what its
-- row says.
pub record IsServed (row : SessionRow) (h : SessionHash) : Type 0 where
  pub recorded : h.id ≡ some row.id
  pub owned : h.tenant_id ≡ some row.tenant_id
  pub party_a : h.party_a_hash ≡ some row.party_a_phone_hash
  pub party_b : h.party_b_hash ≡ some row.party_b_phone_hash
  pub number : h.proxy_number ≡ some row.proxy_number
  pub serves : h.state ≡ some active
  pub directed : h.direction_mode ≡ some row.direction_mode
  pub records : h.recording_enabled ≡ some row.recording_enabled
  pub prompts : h.consent_prompt ≡ some row.consent_prompt
  pub in_mode : h.mode ≡ some row.mode
  pub expires : h.expires_at ≡ some row.expires_at

-- A session in service: its row, and the Redis keys by which calls are routed to it.
pub record IsOpen (row : SessionRow) (w : World) : Type 0 where
  pub stored : w.rows row.id ≡ some row
  pub is_active : row.state ≡ active
  pub hash : IsServed row (w.redis.session row.id)
  pub deadline :
      w.redis.session_deadline row.id ≡ some (row.created_at + row.max_duration_min * 60 * 1000)
  pub on_proxy : contains row.id (w.redis.proxy_sessions row.proxy_number) ≡ true
  pub by_party_a : contains row.id (w.redis.phone_sessions row.party_a_phone_hash) ≡ true
  pub by_party_b : contains row.id (w.redis.phone_sessions row.party_b_phone_hash) ≡ true
  pub tracked : contains row.id (w.redis.active_sessions row.tenant_id) ≡ true

abbrev activated : SessionRow → ℕ → SessionRow
activated row now = record row { state = active; activated_at = some now }

abbrev announced : SessionRow → World → World
announced row w = record w {
  published = session_created row.tenant_id row.id row.mode ∷ w.published;
}

IsOpen-announced :
    (row stored : SessionRow) (w : World) → IsOpen stored w → IsOpen stored (announced row w)
IsOpen-announced row stored w o = ground arith

opened-stored :
    (f : CreateFaults) (row : SessionRow) (now : ℕ) (w : World)
    → (all_effects (opening f row now) w).rows row.id ≡ some (activated row now)
unfolding opening all_effects insert_row activate_row write_hash expire_hash track_active update_row
    update
opened-stored f row now w = ground (arith, eq_refl row.id)

opened-IsOpen :
    (f : CreateFaults) (row : SessionRow) (now : ℕ) (w : World)
    → contains row.id (w.redis.proxy_sessions row.proxy_number) ≡ true
    → contains row.id (w.redis.phone_sessions row.party_a_phone_hash) ≡ true
    → contains row.id (w.redis.phone_sessions row.party_b_phone_hash) ≡ true
    → row.created_at ≡ now
    → 0 < row.max_duration_min
    → IsOpen
        (record row { state = active; activated_at = some now })
        (all_effects (opening f row now) w)
unfolding opening all_effects insert_row activate_row write_hash expire_hash track_active update_row
    new_hash update
opened-IsOpen f row now w p a b t pos = ground (
  arith,
  eq_refl row.id,
  eq_refl row.tenant_id,
  contains-sadd row.id row.id (w.redis.active_sessions row.tenant_id),
)

-- What the allocation left for a session.
abbrev Listed : SessionRow → Redis → Type 0
Listed row r =
    (contains row.id (r.proxy_sessions row.proxy_number) ≡ true)
    × (contains row.id (r.phone_sessions row.party_a_phone_hash) ≡ true)
    × (contains row.id (r.phone_sessions row.party_b_phone_hash) ≡ true)

finish-IsOpen :
    (f : CreateFaults) (region : Option String) (row stored : SessionRow) (now : ℕ) (w : World)
    → row.created_at ≡ now
    → Listed row w.redis
    → 0 < stored.max_duration_min
    → (finish_create f region row now (attempt (opening f row now) w)).0 ≡ ok stored
    → IsOpen stored (finish_create f region row now (attempt (opening f row now) w)).1
unfolding finish_create
finish-IsOpen f region row stored now w t (p, a, b) pos = go (attempt (opening f row now) w) refl
  where
    go :
        (s : Bool × World)
        → attempt (opening f row now) w ≡ s
        → (finish_create f region row now s).0 ≡ ok stored
        → IsOpen stored (finish_create f region row now s).1
    go (false, v) e = λ h. cc
    go (true, v) e =
        let there : v.rows row.id ≡ some (activated row now) =
          subst (λ u. u.rows row.id ≡ some (activated row now))
            (attempt-all_effects (opening f row now) w v e) (opened-stored f row now w) in
        rw (there, finish_create)
          λ h.
            let same : activated row now ≡ stored = cc in
            subst (λ s. IsOpen s (announced row v)) same
              (IsOpen-announced row (activated row now) v (
                subst (IsOpen (activated row now)) (attempt-all_effects (opening f row now) w v e) (
                  opened-IsOpen f row now w p a b t
                    (subst (λ s. 0 < s.max_duration_min) (sym same) pos))))

module _ (c : NodeCrypto) where
  with_number-IsOpen :
      (args : CreateArgs) (x : Answers) (grace duration : ℕ) (w : World) (t : Option String × Redis)
      → ((p : String) → t.0 ≡ some p → Listed (new_row c args x grace duration p) t.1)
      → (stored : SessionRow) → 0 < stored.max_duration_min
      → (with_number c args x grace duration w t).0 ≡ ok stored
      → IsOpen stored (with_number c args x grace duration w t).1
  unfolding with_number new_row
  with_number-IsOpen args x grace duration w (none, r) l stored pos e = cc
  with_number-IsOpen args x grace duration w (some p, r) l stored pos e =
      finish-IsOpen x.faults args.region (new_row c args x grace duration p) stored x.now
        (record w { redis = r }) refl (l p refl) pos e

  -- Whatever calls throw: a session that `createSession` returns, of at least one minute, is stored
  -- as it is returned and is active; its Redis hash is recorded, in the state ACTIVE, with the tenant,
  -- the participants, the number and the settings of the row, and has the deadline of its duration;
  -- and it is listed under its proxy number, under both its participants and among its tenant's
  -- sessions.
  pub create_session-IsOpen :
      (env : Defaults) (args : CreateArgs) (x : Answers) (w : World) (stored : SessionRow)
      → 0 < stored.max_duration_min
      → (create_session c env args x w).0 ≡ ok stored
      → IsOpen stored (create_session c env args x w).1
  unfolding create_session
  create_session-IsOpen env args x w stored pos = elim (Option-cases (validate args)) [
    | inr (bad, e) ↦ rw (e, create_session) (λ h. cc)
    | inl valid ↦
        rw (valid, create_session)
          (configured (load_tenant_config x.faults.config_read x.now args.tenant_id w))
  ]
    where
      configured :
          (l : Option TenantSessionConfig × World)
          → (with_config c env args x l).0 ≡ ok stored
          → IsOpen stored (with_config c env args x l).1
      configured (config, v) =
          with_number-IsOpen args x (resolve_grace env args config)
            (resolve_duration env args config) v _
            (λ p e.
              let g =
                allocate-Granted x.faults.allocation args.region
                  (hash_phone c args.agent_phone args.tenant_id)
                  (hash_phone c args.customer_phone args.tenant_id) x.session_id x.draw v.redis p
                  e in
              (g.holds, g.by_party_a, g.by_party_b))
            stored pos
