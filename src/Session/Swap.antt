-- ===== src/Session/Swap.antt =====
-- `SessionManager.swapTarget`: a new party B on the same number, with its Lua script.
use relavoi_backend.Base.{
  String, Bool, true, false, not, ◌&&◌, ◌||◌, List, [], ◌∷◌, Option, none, some, ltb, ◌==◌,
  string_eq, bytes_eq, if◌then◌else◌, sadd, srem, update,
}
use relavoi_backend.Crypto.{Phone, Buffer, NodeCrypto, encrypt_phone, decrypt_phone, hash_phone}
use relavoi_backend.Store.{
  SessionRow, SessionHash, Redis, in_service, hash_in_service, truthy, is_text,
}
use relavoi_backend.Session.{
  World, thrown, invalid_phone, session_not_swappable, same_as_agent, target_conflict, Result, ok,
  err, Awaited, attempt, update_row, row_of, is_e164, target_swapped, audit_swapped,
}

pub record SwapFaults : Type 0 where
  pub read : Bool
  pub siblings : Bool
  pub update : Bool
  pub script : Bool
  pub read_back : Bool

-- Whether `HSET` has written any field that the program writes.
abbrev is_set {ℓ} : {A : Type ℓ} → Option A → Bool
is_set none = false
is_set (some a) = true

-- `EXISTS session:{id}`.
unfoldable pub hash_exists : SessionHash → Bool
hash_exists h =
    is_set h.id
    || is_set h.state
    || is_set h.party_b_hash
    || is_set h.last_call_at
    || ltb 0 h.call_count

-- One round of the loop over the siblings: another live session with the new participant.
unfoldable pub conflicts : Redis → String → String → String → Bool
conflicts r id new_hash sid =
    not (sid == id)
    && truthy h.id
    && hash_in_service h.state
    && (is_text h.party_a_hash new_hash || is_text h.party_b_hash new_hash)
  where
    h : SessionHash
    h = r.session sid

unfoldable pub any_conflict : Redis → String → String → List String → Bool
any_conflict r id new_hash [] = false
any_conflict r id new_hash (sid ∷ rest) =
    conflicts r id new_hash sid || any_conflict r id new_hash rest

-- SWAP_TARGET_SCRIPT where the hash exists; where it does not, the repair of the two sets.
unfoldable pub swap_keys : String → String → String → Redis → Redis
unfolding hash_exists
swap_keys id old_hash new_hash r = record r {
  phone_sessions = update without new_hash (sadd id (without new_hash));
  session =
      if hash_exists (r.session id)
      then update r.session id (record (r.session id) { party_b_hash = some new_hash })
      else r.session;
}
  where
    without : String → List String
    without = update r.phone_sessions old_hash (srem id (r.phone_sessions old_hash))

module _ (c : NodeCrypto) where
  unfoldable pub retarget : Buffer → Phone → SessionRow → SessionRow
  retarget iv phone row = record row {
    party_b_phone_enc = encrypt_phone c iv phone row.tenant_id;
    party_b_phone_hash = hash_phone c phone row.tenant_id;
  }

  -- The two writes.
  unfoldable pub swapping : SwapFaults → Buffer → Phone → SessionRow → List Awaited
  unfolding retarget
  swapping f iv phone row =
      (f.update, update_row row.id (retarget iv phone))
      ∷ (
        f.script,
        λ w. record w {
          redis =
              swap_keys row.id row.party_b_phone_hash (hash_phone c phone row.tenant_id) w.redis;
        },
      )
      ∷ []

  unfoldable pub finish_swap :
      SwapFaults → Phone → SessionRow → Bool × World → Result (Option SessionRow) × World
  finish_swap f phone row (false, w) = (err thrown, w)
  finish_swap f phone row (true, w) =
      let w' = record w {
        published =
            target_swapped row.tenant_id row.id
            ∷ audit_swapped row.tenant_id row.id row.party_b_phone_hash
                (hash_phone c phone row.tenant_id)
            ∷ w.published;
      } in
      if f.read_back then (err thrown, w') else (ok (row_of row.id row.tenant_id w'), w')

  -- From the read of the two phone numbers on; a decryption that fails throws.
  unfoldable pub swap_row :
      SwapFaults → Buffer → Phone → SessionRow → World → Result (Option SessionRow) × World
  unfolding finish_swap
  swap_row f iv phone row w = elim (decrypt_phone c row.party_a_phone_enc row.tenant_id) [
    | none ↦ (err thrown, w)
    | some agent ↦
        if agent == phone
        then (err same_as_agent, w)
        else elim (decrypt_phone c row.party_b_phone_enc row.tenant_id) [
          | none ↦ (err thrown, w)
          | some current ↦
              if current == phone
              then (ok (some row), w)
              else if f.siblings
              then (err thrown, w)
              else if any_conflict w.redis row.id (hash_phone c phone row.tenant_id)
                  (w.redis.proxy_sessions row.proxy_number)
              then (err target_conflict, w)
              else finish_swap f phone row (attempt (swapping f iv phone row) w)
        ]
  ]

  unfoldable pub swap_target :
      SwapFaults → Buffer → String → String → Phone → World → Result (Option SessionRow) × World
  swap_target f iv id tenant phone w =
      if not (is_e164 phone)
      then (err invalid_phone, w)
      else if f.read
      then (err thrown, w)
      else elim (row_of id tenant w) [
        | none ↦ (ok none, w)
        | some row ↦
            if in_service row.state
            then swap_row f iv phone row w
            else (err session_not_swappable, w)
      ]
