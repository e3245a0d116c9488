-- ===== src/Session/Keeps/Opening.antt =====
-- `createSession` and `swapTarget` keep the row of an expired session.
use relavoi_backend.Base.{
  ◌≢◌, refl, sym, ap, ◌∙◌, ℕ, String, Bool, true, false, ◌==◌, string_eq, Option, none, some, arith,
  update, update_other, eq_iff, Option-cases, Bool-cases, inl, inr,
}
use relavoi_backend.Crypto.{Phone, Buffer, NodeCrypto}
use relavoi_backend.Store.{in_service, SessionRow}
use relavoi_backend.Session.{
  Redis, is_e164, TenantSessionConfig, load_tenant_config, World, Defaults, row_of, attempt,
  attempt_keeps,
}
use relavoi_backend.Session.Create.{
  validate, track_active, allotment, write_hash, resolve_duration, activate_row, with_release,
  CreateFaults, new_row, resolve_grace, insert_row, opening, roll_back, finish_create, with_number,
  with_config, expire_hash, CreateArgs, Answers, create_session,
}
use relavoi_backend.Session.Swap.{
  retarget, finish_swap, swapping, swap_row, SwapFaults, swap_target,
}
use relavoi_backend.Session.Keeps.{
  Holds, IsKeyed, some_row, update_row-Holds, other_row, IsFinal, row_of-rows, same_rows-Holds,
  load-Holds,
}

module _ (id : String) (row : SessionRow) where
  insert_row-Holds :
      (s : SessionRow) (w : World) → s.id ≢ id → Holds id row w → Holds id row (insert_row s w)
  unfolding insert_row IsKeyed update
  insert_row-Holds s w other h = record {
    keyed = λ k t. elim (Bool-cases (s.id == k)) [
      | inr apart ↦ rw apart (h.keyed k t)
      | inl same ↦ rw same λ e. ap (λ r. r.id) (some_row (sym e)) ∙ (eq_iff s.id k).0 same
    ];
    there = update_other w.rows (some s) other ∙ h.there;
  }

  attempt-opening-Holds :
      (f : CreateFaults) (s : SessionRow) (now : ℕ) (w : World)
      → s.id ≢ id
      → Holds id row w
      → Holds id row (attempt (opening f s now) w).1
  unfolding opening activate_row write_hash expire_hash track_active
  attempt-opening-Holds f s now w other h =
      attempt_keeps (Holds id row) (opening f s now) w
        (
          (λ v. insert_row-Holds s v other),
          (
            (λ v. update_row-Holds id row s.id _ v (λ t. refl) other),
            (
              (λ v. same_rows-Holds id row v _ refl),
              (
                (λ v. same_rows-Holds id row v _ (ground arith)),
                ((λ v. same_rows-Holds id row v _ refl), ((λ v g. g), tt)),
              ),
            ),
          ),
        )
        h

  roll_back-Holds :
      (f : CreateFaults) (region : Option String) (s : SessionRow) (now : ℕ) (w : World)
      → s.id ≢ id
      → Holds id row w
      → Holds id row (roll_back f region s now w)
  unfolding roll_back with_release
  roll_back-Holds f region s now w other h = elim (Bool-cases f.mark_failed) [
    | inl down ↦ rw down (same_rows-Holds id row w _ refl h)
    | inr up ↦
        rw up
          (update_row-Holds id row s.id _ _ (λ t. refl) other (same_rows-Holds id row w _ refl h))
  ]

  finish_create-Holds :
      (f : CreateFaults) (region : Option String) (s : SessionRow) (now : ℕ) (p : Bool × World)
      → s.id ≢ id
      → Holds id row p.1
      → Holds id row (finish_create f region s now p).1
  unfolding finish_create
  finish_create-Holds f region s now (false, w) other h = roll_back-Holds f region s now w other h
  finish_create-Holds f region s now (true, w) other h = elim (Option-cases (w.rows s.id)) [
    | inl gone ↦ rw (gone, finish_create) (roll_back-Holds f region s now w other h)
    | inr (t, there) ↦ rw (there, finish_create) (same_rows-Holds id row w _ refl h)
  ]

  module _ (c : NodeCrypto) where
    finish_swap-Holds :
        (f : SwapFaults) (phone : Phone) (s : SessionRow) (p : Bool × World)
        → Holds id row p.1
        → Holds id row (finish_swap c f phone s p).1
    unfolding finish_swap
    finish_swap-Holds f phone s (false, w) h = h
    finish_swap-Holds f phone s (true, w) h = elim (Bool-cases f.read_back) [
      | inl down ↦ rw down (same_rows-Holds id row w _ refl h)
      | inr up ↦ rw up (same_rows-Holds id row w _ refl h)
    ]

    attempt-swapping-Holds :
        (f : SwapFaults) (iv : Buffer) (phone : Phone) (s : SessionRow) (w : World)
        → s.id ≢ id
        → Holds id row w
        → Holds id row (attempt (swapping c f iv phone s) w).1
    unfolding swapping retarget
    attempt-swapping-Holds f iv phone s w other h =
        attempt_keeps (Holds id row) (swapping c f iv phone s) w
          (
            (λ v. update_row-Holds id row s.id (retarget c iv phone) v (λ t. refl) other),
            ((λ v. same_rows-Holds id row v _ refl), tt),
          )
          h

    swap_row-Holds :
        (f : SwapFaults) (iv : Buffer) (phone : Phone) (s : SessionRow) (w : World)
        → s.id ≢ id
        → Holds id row w
        → Holds id row (swap_row c f iv phone s w).1
    unfolding swap_row
    swap_row-Holds f iv phone s w other h =
        let done =
          finish_swap-Holds f phone s (attempt (swapping c f iv phone s) w)
            (attempt-swapping-Holds f iv phone s w other h) in
        ground (arith, done, h)

    pub swap_target-Holds :
        (f : SwapFaults) (iv : Buffer) (k tenant : String) (phone : Phone) (w : World)
        → IsFinal id row
        → Holds id row w
        → Holds id row (swap_target c f iv k tenant phone w).1
    unfolding swap_target
    swap_target-Holds f iv k tenant phone w fin h = elim (Bool-cases (is_e164 phone)) [
      | inr bad ↦ rw (bad, swap_target) h
      | inl good ↦ elim (Bool-cases f.read) [
        | inl down ↦ rw (good, down, swap_target) h
        | inr up ↦ elim (Option-cases (row_of k tenant w)) [
          | inl gone ↦ rw (good, up, gone, swap_target) h
          | inr (s, there) ↦ elim (Bool-cases (in_service s.state)) [
            | inr idle ↦ rw (good, up, there, idle, swap_target) h
            | inl busy ↦
                rw (good, up, there, busy, swap_target)
                  (swap_row-Holds f iv phone s w
                    (other_row id row w k s h (row_of-rows id row k tenant w s there) fin
                      (ground arith))
                    h)
          ]
        ]
      ]
    ]

    with_number-Holds :
        (args : CreateArgs) (x : Answers) (grace duration : ℕ) (w : World)
        (t : Option String × Redis)
        → x.session_id ≢ id
        → Holds id row w
        → Holds id row (with_number c args x grace duration w t).1
    unfolding with_number new_row
    with_number-Holds args x grace duration w (none, r) other h = same_rows-Holds id row w _ refl h
    with_number-Holds args x grace duration w (some proxy, r) other h =
        let s = new_row c args x grace duration proxy in
        finish_create-Holds x.faults args.region s x.now
          (attempt (opening x.faults s x.now) (record w { redis = r })) other
          (attempt-opening-Holds x.faults s x.now (record w { redis = r }) other
            (same_rows-Holds id row w _ refl h))

    pub create_session-Holds :
        (env : Defaults) (args : CreateArgs) (x : Answers) (w : World)
        → x.session_id ≢ id
        → Holds id row w
        → Holds id row (create_session c env args x w).1
    unfolding create_session
    create_session-Holds env args x w other h = elim (Option-cases (validate args)) [
      | inr (e, bad) ↦ rw (bad, create_session) h
      | inl valid ↦
          rw (valid, create_session)
            (go (load_tenant_config x.faults.config_read x.now args.tenant_id w)
              (load-Holds id row x.faults.config_read x.now args.tenant_id w h))
    ]
      where
        go :
            (p : Option TenantSessionConfig × World)
            → Holds id row p.1
            → Holds id row (with_config c env args x p).1
        go (config, v) =
            with_number-Holds args x (resolve_grace env args config)
              (resolve_duration env args config) v (allotment c args x v) other
