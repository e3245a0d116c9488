-- ===== src/Session/End.antt =====
-- `SessionManager.endSession`: into the grace period.
use relavoi_backend.Base.{
  ℕ, ◌+◌, ◌*◌, String, Bool, true, false, ◌&&◌, List, [], ◌∷◌, Option, none, some, ltb, string_eq,
  if◌then◌else◌, update,
}
use relavoi_backend.Store.{SessionRow, SessionState, pending, active, grace_period, expired, failed}
use relavoi_backend.Session.{World, thrown, Result, ok, err, Awaited, attempt, update_row, row_of}
use relavoi_backend.Session.Create.{expire_hash}

pub record EndFaults : Type 0 where
  pub read : Bool
  pub update : Bool
  pub hset : Bool
  pub expire : Bool

-- `state === 'EXPIRED' || state === 'GRACE_PERIOD'`.
abbrev pub has_ended : SessionState → Bool
has_ended expired = true
has_ended grace_period = true
has_ended pending = false
has_ended active = false
has_ended failed = false

unfoldable pub ended : ℕ → SessionRow → SessionRow
ended now row = record row {
  state = grace_period;
  ended_at = some now;
  expires_at = now + row.grace_period_min * 60000;
}

unfoldable pub write_end : SessionRow → ℕ → World → World
write_end row now w = record w {
  redis = record (w.redis) {
    session = update w.redis.session row.id (record (w.redis.session row.id) {
      state = some grace_period;
      ended_at = some now;
      expires_at = some (now + row.grace_period_min * 60000);
    });
  };
}

-- The three writes; the time to live is set only to a positive grace period.
unfoldable pub ending : EndFaults → SessionRow → ℕ → List Awaited
ending f row now =
    (f.update, update_row row.id (ended now))
    ∷ (f.hset, write_end row now)
    ∷ (
      f.expire && ltb 0 row.grace_period_min,
      λ w.
          if ltb 0 row.grace_period_min
          then expire_hash row.id (row.grace_period_min * 60) now w
          else w,
    )
    ∷ []

unfoldable pub finish_end : SessionRow → ℕ → Bool × World → Result (Option SessionRow) × World
finish_end row now (false, w) = (err thrown, w)
finish_end row now (true, w) = (ok (some (ended now row)), w)

unfoldable pub end_session :
    EndFaults → String → String → ℕ → World → Result (Option SessionRow) × World
unfolding finish_end
end_session f id tenant now w = if f.read then (err thrown, w) else elim (row_of id tenant w) [
  | none ↦ (ok none, w)
  | some row ↦
      if has_ended row.state
      then (ok (some row), w)
      else finish_end row now (attempt (ending f row now) w)
]
