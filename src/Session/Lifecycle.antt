-- ===== src/Session/Lifecycle.antt =====
-- The states of a session over all the methods of the session manager.
use relavoi_backend.Base.{true, ℕ, ◌≡◌, ◌≢◌, String, List, [], ◌∷◌, some, All}
use relavoi_backend.Crypto.{Phone, Buffer, NodeCrypto}
use relavoi_backend.Store.{SessionRow}
use relavoi_backend.Session.{World, Defaults}
use relavoi_backend.Session.Create.{CreateArgs, Answers, create_session}
use relavoi_backend.Session.End.{EndFaults, end_session}
use relavoi_backend.Session.Expire.{ExpireFaults, is_expired, expire_session}
use relavoi_backend.Session.Swap.{SwapFaults, swap_target}
use relavoi_backend.Session.Keeps.{Holds, IsKeyed}
use relavoi_backend.Session.Keeps.Closing.{end_session-Holds, expire_session-Holds}
use relavoi_backend.Session.Keeps.Opening.{swap_target-Holds, create_session-Holds}

-- A call of a method that changes sessions, with what its surroundings answer.
pub data Call : Type 0 where
  creating : Defaults → CreateArgs → Answers → Call
  concluding : EndFaults → String → String → ℕ → Call
  expiring : Defaults → ExpireFaults → String → ℕ → Call
  retargeting : SwapFaults → Buffer → String → String → Phone → Call

module _ (c : NodeCrypto) where
  pub perform : Call → World → World
  perform (creating env args x) w = (create_session c env args x w).1
  perform (concluding f id tenant now) w = (end_session f id tenant now w).1
  perform (expiring env f id now) w = (expire_session env f id now w).1
  perform (retargeting f iv id tenant phone) w = (swap_target c f iv id tenant phone w).1

  pub perform_all : List Call → World → World
  unfolding perform
  perform_all [] w = w
  perform_all (call ∷ rest) w = perform_all rest (perform call w)

-- A creation draws another id than that of the session: `randomUUID` gives no id twice.
unfoldable pub DrawsOther : String → Call → Type 0
DrawsOther id (creating env args x) = x.session_id ≢ id
DrawsOther id (concluding f k tenant now) = Unit
DrawsOther id (expiring env f k now) = Unit
DrawsOther id (retargeting f iv k tenant phone) = Unit

module _ (c : NodeCrypto) (id : String) (row : SessionRow) where
  perform-Holds :
      (call : Call) (w : World)
      → is_expired row.state ≡ true
      → DrawsOther id call
      → Holds id row w
      → Holds id row (perform c call w)
  unfolding perform DrawsOther
  perform-Holds (creating env args x) w fin other h =
      create_session-Holds id row c env args x w other h
  perform-Holds (concluding f k tenant now) w fin other h =
      end_session-Holds id row f k tenant now w fin h
  perform-Holds (expiring env f k now) w fin other h =
      expire_session-Holds id row env f k now w fin h
  perform-Holds (retargeting f iv k tenant phone) w fin other h =
      swap_target-Holds id row c f iv k tenant phone w fin h

  -- EXPIRED is final: where every row stands under its own id and the session `id` is expired,
  -- whatever calls of `createSession`, `endSession`, `expireSession` and `swapTarget` follow, for
  -- this session and others, failing anywhere, its row stays exactly as it is and every row keeps
  -- standing under its own id. The calls that create draw other ids.
  pub perform_all-Holds :
      (calls : List Call) (w : World)
      → is_expired row.state ≡ true
      → All (DrawsOther id) calls
      → IsKeyed w
      → w.rows id ≡ some row
      → Holds id row (perform_all c calls w)
  unfolding perform_all
  perform_all-Holds [] w fin others keyed there = record { keyed = keyed; there = there }
  perform_all-Holds (call ∷ rest) w fin (other, others) keyed there =
      let h = perform-Holds call w fin other (record { keyed = keyed; there = there }) in
      perform_all-Holds rest (perform c call w) fin others h.keyed h.there
