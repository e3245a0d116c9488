-- ===== src/Session/Expire/Cleanup.antt =====
-- What an expired session leaves in Redis.
use relavoi_backend.Base.{
  subst, ◌≡◌, refl, ap, sym, ◌∙◌, ℕ, String, Bool, true, false, ◌==◌, string_eq, List, Option, none,
  some, arith, update, update_self, srem, contains, contains-srem, eq_refl, Bool-cases, inl, inr,
}
use relavoi_backend.Store.{SessionRow, no_hash}
use relavoi_backend.Cache.{get, Store}
use relavoi_backend.Session.{
  change_row, TenantSessionConfig, attempt_keeps, attempt_total, all_effects, World, Defaults,
  attempt, ok, update_row, load_tenant_config, cached_config,
}
use relavoi_backend.Session.Expire.{
  expired, ExpireFaults, is_expired, expire_row, cleaning, close_session, announce_expiry,
  give_up_number, with_pool, expire_session,
}

-- Redis answers every call of the clean-up.
pub record IsAnswered (f : ExpireFaults) : Type 0 where
  pub del : f.del ≡ false
  pub srem_proxy : f.srem_proxy ≡ false
  pub srem_party_a : f.srem_party_a ≡ false
  pub srem_party_b : f.srem_party_b ≡ false
  pub srem_active : f.srem_active ≡ false

-- No key of Redis by which a call is routed holds the session.
pub record IsGone (row : SessionRow) (w : World) : Type 0 where
  pub no_session : w.redis.session row.id ≡ no_hash
  pub no_deadline : w.redis.session_deadline row.id ≡ none
  pub off_proxy : contains row.id (w.redis.proxy_sessions row.proxy_number) ≡ false
  pub off_party_a : contains row.id (w.redis.phone_sessions row.party_a_phone_hash) ≡ false
  pub off_party_b : contains row.id (w.redis.phone_sessions row.party_b_phone_hash) ≡ false
  pub off_tenant : contains row.id (w.redis.active_sessions row.tenant_id) ≡ false

srem_lem : (x : String) (s : List String) → contains x (srem x s) ≡ false
srem_lem x s = ground (arith, contains-srem x x s, eq_refl x)

effects-IsGone :
    (f : ExpireFaults) (row : SessionRow) (w : World) → IsGone row (all_effects (cleaning f row) w)
unfolding cleaning all_effects update
effects-IsGone f row w = record {
  no_session = rw (eq_refl row.id) refl;
  no_deadline = rw (eq_refl row.id) refl;
  off_proxy =
      rw (eq_refl row.proxy_number) (srem_lem row.id (w.redis.proxy_sessions row.proxy_number));
  off_party_a =
      rw (eq_refl row.party_a_phone_hash)
        (elim (Bool-cases (row.party_b_phone_hash == row.party_a_phone_hash)) [
          | inl e ↦ rw e (srem_lem row.id _)
          | inr e ↦ rw e (srem_lem row.id _)
        ]);
  off_party_b = rw (eq_refl row.party_b_phone_hash) (srem_lem row.id _);
  off_tenant = rw (eq_refl row.tenant_id) (srem_lem row.id (w.redis.active_sessions row.tenant_id));
}

cleaning-IsGone :
    (f : ExpireFaults) (row : SessionRow) (w : World)
    → IsAnswered f
    → IsGone row (attempt (cleaning f row) w).1
unfolding cleaning
cleaning-IsGone f row w a =
    subst (λ t. IsGone row t.1)
      (sym (
        attempt_total (cleaning f row) w
          (a.del, (a.srem_proxy, (a.srem_party_a, (a.srem_party_b, (a.srem_active, tt)))))))
      (effects-IsGone f row w)

load_rows :
    (fails : Bool) (now : ℕ) (tenant : String) (w : World)
    → (load_tenant_config fails now tenant w).1.rows ≡ w.rows
unfolding load_tenant_config cached_config
load_rows fails now tenant w = go (get now tenant w.config_cache)
  where
    go :
        (o : Option (Option TenantSessionConfig) × Store (Option TenantSessionConfig))
        → (cached_config fails now tenant w o).1.rows ≡ w.rows
    go (some config, cache) = refl
    go (none, cache) = elim (Bool-cases fails) [ inl down ↦ rw down refl | inr up ↦ rw up refl ]

pub closed_rows :
    (env : Defaults) (f : ExpireFaults) (row : SessionRow) (now : ℕ) (w : World)
    → (close_session env f row now w).rows ≡ (update_row row.id (expire_row now) w).rows
unfolding close_session cleaning announce_expiry give_up_number with_pool
closed_rows env f row now w =
    attempt_keeps (λ v. v.rows ≡ (update_row row.id (expire_row now) w).rows) (cleaning f row) _
      ((λ v e. e), ((λ v e. e), ((λ v e. e), ((λ v e. e), ((λ v e. e), tt)))))
      (load_rows f.config_read now row.tenant_id (update_row row.id (expire_row now) w))

expired_row :
    (row : SessionRow) (now : ℕ) (w : World)
    → w.rows row.id ≡ some row
    → (update_row row.id (expire_row now) w).rows row.id
      ≡ some (record row { state = expired; expired_at = some now })
unfolding update_row expire_row
expired_row row now w there =
    update_self w.rows row.id (change_row (expire_row now) (w.rows row.id))
    ∙ ap (change_row (expire_row now)) there

closed-IsGone :
    (env : Defaults) (f : ExpireFaults) (row : SessionRow) (now : ℕ) (w : World)
    → IsAnswered f
    → IsGone row (close_session env f row now w)
unfolding close_session announce_expiry
closed-IsGone env f row now w a =
    let g =
      cleaning-IsGone f row
        (give_up_number env f row now (
          load_tenant_config f.config_read now row.tenant_id
            (update_row row.id (expire_row now) w)))
        a in
    record {
      no_session = g.no_session;
      no_deadline = g.no_deadline;
      off_proxy = g.off_proxy;
      off_party_a = g.off_party_a;
      off_party_b = g.off_party_b;
      off_tenant = g.off_tenant;
    }

-- A session that is not yet expired, whose row is read and updated: `expireSession` answers true,
-- stores the row as expired at that time and unchanged otherwise, and, if Redis answers the calls
-- of the clean-up, no key of Redis holds the session any more: not its hash, its deadline, nor the
-- sets of its number, its participants and its tenant. This holds whether or not the tenant's
-- configuration is read and the number is given back.
pub expire_session-IsGone :
    (env : Defaults) (f : ExpireFaults) (row : SessionRow) (now : ℕ) (w : World)
    → f.read ≡ false
    → f.update ≡ false
    → IsAnswered f
    → w.rows row.id ≡ some row
    → is_expired row.state ≡ false
    → ((expire_session env f row.id now w).0 ≡ ok true)
      × ((expire_session env f row.id now w).1.rows row.id
          ≡ some (record row { state = expired; expired_at = some now }))
      × IsGone row (expire_session env f row.id now w).1
unfolding expire_session
expire_session-IsGone env f row now w reads writes a there live =
    let runs : expire_session env f row.id now w ≡ (ok true, close_session env f row now w) =
      simp (reads, there, live, writes, expire_session) in
    rw runs (
      refl,
      ap (λ m. m row.id) (closed_rows env f row now w) ∙ expired_row row now w there,
      closed-IsGone env f row now w a,
    )
