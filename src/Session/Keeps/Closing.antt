-- ===== src/Session/Keeps/Closing.antt =====
-- `endSession` and `expireSession` keep the row of an expired session.
use relavoi_backend.Base.{
  ◌≢◌, refl, ℕ, String, Bool, true, false, string_eq, arith, Option-cases, Bool-cases, inl, inr,
}
use relavoi_backend.Store.{SessionRow}
use relavoi_backend.Session.{
  load_tenant_config, World, Defaults, update_row, row_of, attempt, attempt_keeps,
}
use relavoi_backend.Session.Create.{expire_hash}
use relavoi_backend.Session.End.{
  write_end, ended, finish_end, ending, EndFaults, has_ended, end_session,
}
use relavoi_backend.Session.Expire.{
  with_pool, give_up_number, announce_expiry, cleaning, close_session, expire_row, ExpireFaults,
  is_expired, expire_session,
}
use relavoi_backend.Session.Keeps.{
  Holds, update_row-Holds, other_row, IsFinal, row_of-rows, same_rows-Holds, load-Holds,
}

module _ (id : String) (row : SessionRow) where
  ending-Holds :
      (f : EndFaults) (s : SessionRow) (now : ℕ) (p : Bool × World)
      → Holds id row p.1
      → Holds id row (finish_end s now p).1
  unfolding finish_end
  ending-Holds f s now (false, w) h = h
  ending-Holds f s now (true, w) h = h

  attempt-ending-Holds :
      (f : EndFaults) (s : SessionRow) (now : ℕ) (w : World)
      → s.id ≢ id
      → Holds id row w
      → Holds id row (attempt (ending f s now) w).1
  unfolding ending ended write_end expire_hash
  attempt-ending-Holds f s now w other h =
      attempt_keeps (Holds id row) (ending f s now) w
        (
          (λ v. update_row-Holds id row s.id (ended now) v (λ t. refl) other),
          (
            (λ v. same_rows-Holds id row v _ refl),
            ((λ v. same_rows-Holds id row v _ (ground arith)), tt),
          ),
        )
        h

  pub end_session-Holds :
      (f : EndFaults) (k tenant : String) (now : ℕ) (w : World)
      → IsFinal id row
      → Holds id row w
      → Holds id row (end_session f k tenant now w).1
  unfolding end_session
  end_session-Holds f k tenant now w fin h = elim (Bool-cases f.read) [
    | inl down ↦ rw (down, end_session) h
    | inr up ↦ elim (Option-cases (row_of k tenant w)) [
      | inl gone ↦ rw (up, gone, end_session) h
      | inr (s, there) ↦ elim (Bool-cases (has_ended s.state)) [
        | inl over ↦ rw (up, there, over, end_session) h
        | inr not_over ↦
            rw (up, there, not_over, end_session)
              (ending-Holds f s now _ (
                attempt-ending-Holds f s now w
                  (other_row id row w k s h (row_of-rows id row k tenant w s there) fin
                    (ground arith))
                  h))
      ]
    ]
  ]

  close_session-Holds :
      (env : Defaults) (f : ExpireFaults) (s : SessionRow) (now : ℕ) (w : World)
      → s.id ≢ id
      → Holds id row w
      → Holds id row (close_session env f s now w)
  unfolding close_session cleaning announce_expiry give_up_number with_pool expire_row
  close_session-Holds env f s now w other h =
      same_rows-Holds id row (attempt (cleaning f s) _).1 _ refl (
        attempt_keeps (Holds id row) (cleaning f s) _
          (
            (λ v. same_rows-Holds id row v _ refl),
            (
              (λ v. same_rows-Holds id row v _ refl),
              (
                (λ v. same_rows-Holds id row v _ refl),
                (
                  (λ v. same_rows-Holds id row v _ refl),
                  ((λ v. same_rows-Holds id row v _ refl), tt),
                ),
              ),
            ),
          )
          (same_rows-Holds id row
            (load_tenant_config f.config_read now s.tenant_id
              (update_row s.id (expire_row now) w)).1
            _ refl
            (load-Holds id row f.config_read now s.tenant_id _
              (update_row-Holds id row s.id (expire_row now) w (λ t. refl) other h))))

  pub expire_session-Holds :
      (env : Defaults) (f : ExpireFaults) (k : String) (now : ℕ) (w : World)
      → IsFinal id row
      → Holds id row w
      → Holds id row (expire_session env f k now w).1
  unfolding expire_row expire_session close_session cleaning
  expire_session-Holds env f k now w fin h = elim (Bool-cases f.read) [
    | inl down ↦ rw (down, expire_session) h
    | inr up ↦ elim (Option-cases (w.rows k)) [
      | inl gone ↦ rw (up, gone, expire_session) h
      | inr (s, there) ↦ elim (Bool-cases (is_expired s.state)) [
        | inl over ↦ rw (up, there, over, expire_session) h
        | inr not_over ↦ elim (Bool-cases f.update) [
          | inl down ↦ rw (up, there, not_over, down, expire_session) h
          | inr writes ↦
              rw (up, there, not_over, writes, expire_session)
                (close_session-Holds env f s now w (other_row id row w k s h there fin not_over) h)
        ]
      ]
    ]
  ]
