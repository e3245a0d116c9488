-- ===== src/Session/Apart.antt =====
-- The sessions on a number keep having no participant in common.
pub mod Creation
pub mod Created
pub mod Kept
use relavoi_backend.Base.{
  ◌≡◌, ◌≢◌, ◌⊎◌, inl, inr, refl, sym, ap, ◌∙◌, subst, String, Bool, true, false, not, ◌&&◌, ◌||◌,
  ◌==◌, string_eq, List, [], ◌∷◌, Option, none, some, if◌then◌else◌, arith, contains, update,
  eq_iff, eq_refl, Bool-cases, Option-cases,
}
use relavoi_backend.Crypto.{Phone, Buffer, NodeCrypto, hash_phone}
use relavoi_backend.Store.{
  SessionRow, SessionHash, Redis, hash_in_service, truthy, is_text, in_service,
}
use relavoi_backend.CallRouter.Unique.{IsApart, party_of}
use relavoi_backend.Session.{World, attempt, row_of, is_e164, update_row}
use relavoi_backend.Session.Swap.{
  SwapFaults, conflicts, any_conflict, swap_keys, swapping, finish_swap, swap_row, swap_target,
  hash_exists,
}

-- No conflict over the list is none with any of its members.
any_conflict-false :
    (r : Redis) (id hash : String) (members : List String) (sid : String)
    → any_conflict r id hash members ≡ false
    → contains sid members ≡ true
    → conflicts r id hash sid ≡ false
unfolding any_conflict contains
any_conflict-false r id hash [] sid e m = absurd (ground (arith, m))
any_conflict-false r id hash (y ∷ rest) sid e m = elim (Bool-cases (y == sid)) [
  | inl same ↦
      subst (λ s. conflicts r id hash s ≡ false) ((eq_iff y sid).0 same) (ground (arith, e))
  | inr other ↦ any_conflict-false r id hash rest sid (ground (arith, e)) (ground (arith, m, other))
]

module _ (r : Redis) (id old new : String) (members : List String) where
  -- A party of a session after the swap: as before, or the new participant of the swapped one.
  swapped_party :
      (sid : String) (is_a : Bool) (hash : String)
      → is_text (party_of is_a ((swap_keys id old new r).session sid)) hash ≡ true
      → (is_text (party_of is_a (r.session sid)) hash ≡ true) ⊎ ((sid ≡ id) × (hash ≡ new))
  unfolding swap_keys update
  swapped_party sid is_a hash e = ground (arith, eq_iff id sid, eq_iff new hash, e)

  swapped_rest :
      (sid : String)
      → (((swap_keys id old new r).session sid).id ≡ (r.session sid).id)
        × (((swap_keys id old new r).session sid).state ≡ (r.session sid).state)
        × (((swap_keys id old new r).session sid).tenant_id ≡ (r.session sid).tenant_id)
  unfolding swap_keys update
  swapped_rest sid = ground (arith, eq_iff id sid)

  -- Another session with the new participant would have been a conflict.
  conflicting :
      (sid : String) (is_a : Bool)
      → conflicts r id new sid ≡ false
      → truthy (r.session sid).id ≡ true
      → hash_in_service (r.session sid).state ≡ true
      → is_text (party_of is_a (r.session sid)) new ≡ true
      → sid ≡ id
  unfolding conflicts
  conflicting sid is_a free recorded serves party = elim (Bool-cases (sid == id)) [
    | inl same ↦ (eq_iff sid id).0 same
    | inr other ↦ absurd (ground (arith, other, free, recorded, serves, party))
  ]

  swap_keys-IsApart :
      any_conflict r id new members ≡ false
      → IsApart r members
      → IsApart (swap_keys id old new r) members
  unfolding IsApart
  swap_keys-IsApart free apart sid sid' m m' has_id has_id' serves serves' tenants is_a is_a' hash p
        p' =
      let (ids, states, owners) = swapped_rest sid in
      let (ids', states', owners') = swapped_rest sid' in
      let recorded : truthy (r.session sid).id ≡ true = rw ids at has_id in
      let recorded' : truthy (r.session sid').id ≡ true = rw ids' at has_id' in
      let live : hash_in_service (r.session sid).state ≡ true = rw states at serves in
      let live' : hash_in_service (r.session sid').state ≡ true = rw states' at serves' in
      elim (swapped_party sid is_a hash p) [
        | inl q ↦ elim (swapped_party sid' is_a' hash p') [
          | inl q' ↦
              apart sid sid' m m' recorded recorded' live live' (sym owners ∙ tenants ∙ owners')
                is_a is_a' hash q q'
          | inr (swapped', news) ↦
              conflicting sid is_a (any_conflict-false r id new members sid free m) recorded live
                (subst (λ v. is_text (party_of is_a (r.session sid)) v ≡ true) news q)
              ∙ sym swapped'
        ]
        | inr (swapped, news) ↦ elim (swapped_party sid' is_a' hash p') [
          | inl q' ↦
              swapped
              ∙ sym (
                  conflicting sid' is_a' (any_conflict-false r id new members sid' free m')
                    recorded' live'
                    (subst (λ v. is_text (party_of is_a' (r.session sid')) v ≡ true) news q'))
          | inr (swapped', _) ↦ swapped ∙ sym swapped'
        ]
      ]

abbrev pub ApartOn : String → World → Type 0
ApartOn number w = IsApart w.redis (w.redis.proxy_sessions number)

module _ (c : NodeCrypto) (row : SessionRow) (phone : Phone) where
  abbrev new_hash : String
  new_hash = hash_phone c phone row.tenant_id

  finish_swap-ApartOn :
      (f : SwapFaults) (p : Bool × World)
      → ApartOn row.proxy_number p.1
      → ApartOn row.proxy_number (finish_swap c f phone row p).1
  unfolding finish_swap
  finish_swap-ApartOn f (false, w) h = h
  finish_swap-ApartOn f (true, w) h = elim (Bool-cases f.read_back) [
    | inl down ↦ rw down h
    | inr up ↦ rw up h
  ]

  attempt-swapping-ApartOn :
      (f : SwapFaults) (iv : Buffer) (w : World)
      → ApartOn row.proxy_number w
      → any_conflict w.redis row.id new_hash (w.redis.proxy_sessions row.proxy_number) ≡ false
      → ApartOn row.proxy_number (attempt (swapping c f iv phone row) w).1
  unfolding attempt swapping update_row swap_keys
  attempt-swapping-ApartOn f iv w h free = elim (Bool-cases f.update) [
    | inl down ↦ rw down h
    | inr up ↦ elim (Bool-cases f.script) [
      | inl down ↦ rw (up, down) h
      | inr runs ↦
          rw (up, runs)
            (swap_keys-IsApart w.redis row.id row.party_b_phone_hash new_hash
              (w.redis.proxy_sessions row.proxy_number) free h)
    ]
  ]

  -- What holds of the world before holds after, if the writes keep it where there is no conflict.
  swap_row-cases :
      (P : World → Type 0) (f : SwapFaults) (iv : Buffer) (w : World)
      → P w
      → (any_conflict w.redis row.id new_hash (w.redis.proxy_sessions row.proxy_number) ≡ false
          → P (finish_swap c f phone row (attempt (swapping c f iv phone row) w)).1)
      → P (swap_row c f iv phone row w).1
  unfolding swap_row
  swap_row-cases P f iv w h done = ground (arith, done, h)

  swap_row-ApartOn :
      (f : SwapFaults) (iv : Buffer) (w : World)
      → ApartOn row.proxy_number w
      → ApartOn row.proxy_number (swap_row c f iv phone row w).1
  swap_row-ApartOn f iv w h = swap_row-cases (ApartOn row.proxy_number) f iv w h (λ free.
      finish_swap-ApartOn f (attempt (swapping c f iv phone row) w)
        (attempt-swapping-ApartOn f iv w h free))

-- `swapTarget` keeps the sessions on the number of its session apart, whichever calls throw: if no
-- two sessions of one tenant there that are recorded and in service have a participant in common
-- before, none have after.
pub swap_target-ApartOn :
    (c : NodeCrypto) (f : SwapFaults) (iv : Buffer) (id tenant : String) (phone : Phone) (w : World)
    (row : SessionRow)
    → row_of id tenant w ≡ some row
    → ApartOn row.proxy_number w
    → ApartOn row.proxy_number (swap_target c f iv id tenant phone w).1
unfolding swap_target
swap_target-ApartOn c f iv id tenant phone w row there h = elim (Bool-cases (is_e164 phone)) [
  | inr bad ↦ simp (bad, swap_target) h
  | inl good ↦ elim (Bool-cases f.read) [
    | inl down ↦ simp (good, down, swap_target) h
    | inr up ↦ elim (Bool-cases (in_service row.state)) [
      | inr idle ↦ simp (good, up, there, idle, swap_target) h
      | inl busy ↦ simp (good, up, there, busy, swap_target) (swap_row-ApartOn c row phone f iv w h)
    ]
  ]
]
