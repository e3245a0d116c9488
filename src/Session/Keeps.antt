-- ===== src/Session/Keeps.antt =====
-- What the methods of the session manager leave alone: the rows of other sessions.
pub mod Closing
pub mod Opening
use relavoi_backend.Base.{
  ◌⊎◌, ◌≡◌, ◌≢◌, refl, sym, ap, ◌∙◌, subst, ℕ, String, Bool, true, false, ◌==◌, string_eq, List, [],
  ◌∷◌, Option, none, some, if◌then◌else◌, arith, update, update_self, update_other, eq_iff,
  Option-cases, Bool-cases, inl, inr, All,
}
use relavoi_backend.Crypto.{Phone, Buffer, NodeCrypto}
use relavoi_backend.Store.{in_service, SessionRow, SessionState}
use relavoi_backend.Cache.{get, Store}
use relavoi_backend.Session.{
  Redis, is_e164, TenantSessionConfig, cached_config, load_tenant_config, World, Defaults,
  change_row, update_row, row_of, attempt, attempt_keeps,
}
use relavoi_backend.Session.Create.{
  validate, track_active, allotment, write_hash, resolve_duration, activate_row, with_release,
  CreateFaults, new_row, resolve_grace, insert_row, opening, roll_back, finish_create, with_number,
  with_config, expire_hash, CreateArgs, Answers, create_session,
}
use relavoi_backend.Session.End.{
  write_end, ended, finish_end, ending, EndFaults, has_ended, end_session,
}
use relavoi_backend.Session.Expire.{
  with_pool, give_up_number, announce_expiry, cleaning, close_session, expire_row, ExpireFaults,
  is_expired, expire_session,
}
use relavoi_backend.Session.Swap.{
  retarget, finish_swap, swapping, swap_row, SwapFaults, swap_target,
}

-- Every row stands under its own id.
unfoldable pub IsKeyed : World → Type 0
IsKeyed w = (id : String) (row : SessionRow) → w.rows id ≡ some row → row.id ≡ id

pub record Holds (id : String) (row : SessionRow) (w : World) : Type 0 where
  pub keyed : IsKeyed w
  pub there : w.rows id ≡ some row

pub some_row : {r s : SessionRow} → some r ≡ some s → r ≡ s
some_row e = cc

changed_id :
    (f : SessionRow → SessionRow) (o : Option SessionRow) (s : SessionRow)
    → ((t : SessionRow) → (f t).id ≡ t.id)
    → change_row f o ≡ some s
    → (t : SessionRow) × (o ≡ some t) × (s.id ≡ t.id)
changed_id f none s keeps e = cc
changed_id f (some t) s keeps e = (t, refl, sym (ap (λ r. r.id) (some_row e)) ∙ keeps t)

pub update_row-IsKeyed :
    (k : String) (f : SessionRow → SessionRow) (w : World)
    → ((s : SessionRow) → (f s).id ≡ s.id)
    → IsKeyed w
    → IsKeyed (update_row k f w)
unfolding update_row IsKeyed update
update_row-IsKeyed k f w keeps keyed j s = elim (Bool-cases (k == j)) [
  | inr apart ↦ rw apart (keyed j s)
  | inl same ↦ rw same λ e.
      let (t, there, ids) = changed_id f (w.rows k) s keeps e in
      ids ∙ keyed k t there ∙ (eq_iff k j).0 same
]

module _ (id : String) (row : SessionRow) where
  pub update_row-Holds :
      (k : String) (f : SessionRow → SessionRow) (w : World)
      → ((s : SessionRow) → (f s).id ≡ s.id)
      → k ≢ id
      → Holds id row w
      → Holds id row (update_row k f w)
  unfolding update_row
  update_row-Holds k f w keeps other h = record {
    keyed = update_row-IsKeyed k f w keeps h.keyed;
    there = update_other w.rows (change_row f (w.rows k)) other ∙ h.there;
  }

  -- A row in another state than `row` is another session's.
  pub other_row :
      (w : World) (k : String) (s : SessionRow)
      → Holds id row w
      → w.rows k ≡ some s
      → is_expired row.state ≡ true
      → is_expired s.state ≡ false
      → s.id ≢ id
  unfolding IsKeyed
  other_row w k s h e fin not_final same =
      let places : k ≡ id = sym (h.keyed k s e) ∙ same in
      let rows : some s ≡ some row = sym e ∙ ap w.rows places ∙ h.there in
      let states : s ≡ row = cc in absurd (ground (arith, ap (λ r. is_expired r.state) states))

  abbrev pub IsFinal : Type 0
  IsFinal = is_expired row.state ≡ true

  pub row_of-rows :
      (k tenant : String) (w : World) (s : SessionRow)
      → row_of k tenant w ≡ some s
      → w.rows k ≡ some s
  row_of-rows k tenant w s = elim (Option-cases (w.rows k)) [
    | inl gone ↦ rw gone λ e. absurd cc
    | inr (t, there) ↦ rw there λ e. ground arith
  ]

  pub same_rows-Holds : (w v : World) → v.rows ≡ w.rows → Holds id row w → Holds id row v
  unfolding IsKeyed
  same_rows-Holds w v e h = record {
    keyed =
        subst (λ rows. (k : String) (s : SessionRow) → rows k ≡ some s → s.id ≡ k) (sym e) h.keyed;
    there = subst (λ rows. rows id ≡ some row) (sym e) h.there;
  }

  pub load-Holds :
      (fails : Bool) (now : ℕ) (tenant : String) (w : World)
      → Holds id row w
      → Holds id row (load_tenant_config fails now tenant w).1
  unfolding load_tenant_config cached_config
  load-Holds fails now tenant w h = cached_config-Holds (get now tenant w.config_cache)
    where
      cached_config-Holds :
          (o : Option (Option TenantSessionConfig) × Store (Option TenantSessionConfig))
          → Holds id row (cached_config fails now tenant w o).1
      cached_config-Holds (some config, cache) = same_rows-Holds w _ refl h
      cached_config-Holds (none, cache) = elim (Bool-cases fails) [
        | inl down ↦ rw down (same_rows-Holds w _ refl h)
        | inr up ↦ rw up (same_rows-Holds w _ refl h)
      ]
