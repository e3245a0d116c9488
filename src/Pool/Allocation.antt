-- ===== src/Pool/Allocation.antt =====
-- What an allocation promises its session.
use relavoi_backend.Base.{
  Bool-cases, ◌==◌, or_else, ℕ, suc, ◌≡◌, refl, String, Bool, true, false, List, [], ◌∷◌, Option,
  none, some, arith, contains, sadd, contains-sadd, update, inl, inr, string_eq, nat_eq, All,
  eq_iff, eq_refl, ◌||◌, Option-cases, subst, ap,
}
use relavoi_backend.Store.{Redis, SessionHash, is_text}
use relavoi_backend.Pool.{default_region}
use relavoi_backend.Pool.Allocate.{
  drop_empty, allocate, allocate_script, finish_allocate, pick_available, pick_in_use, max_attempts,
  overlap, any_clash, clashes, index_session, claim_available, take_number, srandmember,
}
use relavoi_backend.Pool.Candidates.{
  pick_available_sound, pick_available_tried, pick_in_use_sound, pick_in_use_complete,
  srandmember_total, srandmember-contains,
}
use relavoi_backend.Pool.Invariant.{Inv}

-- A session whose hash records neither participant on either side.
pub record IsUnrelated (a b : String) (h : SessionHash) : Type 0 where
  pub agent_a : is_text h.party_a_hash a ≡ false
  pub agent_b : is_text h.party_a_hash b ≡ false
  pub customer_a : is_text h.party_b_hash a ≡ false
  pub customer_b : is_text h.party_b_hash b ≡ false

any_clash-IsUnrelated :
    (r : Redis) (a b : String) (members : List String) (esid : String)
    → any_clash r a b members ≡ false
    → contains esid members ≡ true
    → IsUnrelated a b (r.session esid)
unfolding any_clash clashes contains
any_clash-IsUnrelated r a b [] esid e m = absurd (ground (arith, m))
any_clash-IsUnrelated r a b (y ∷ rest) esid e m = elim (Bool-cases (y == esid)) [
  | inl same ↦
      subst (λ s. IsUnrelated a b (r.session s)) ((eq_iff y esid).0 same) (ground (arith, e))
  | inr other ↦ any_clash-IsUnrelated r a b rest esid (ground (arith, e)) (ground (arith, m, other))
]

-- What holds of a number that the script returns.
pub record Granted (region a b sid c : String) (r r' : Redis) : Type 0 where
  pub no_overlap :
      (esid : String) → contains esid (r.proxy_sessions c) ≡ true → IsUnrelated a b (r.session esid)
  pub member : (contains c (r.available region) || contains c (r.in_use region)) ≡ true
  pub holds : contains sid (r'.proxy_sessions c) ≡ true
  pub by_party_a : contains sid (r'.phone_sessions a) ≡ true
  pub by_party_b : contains sid (r'.phone_sessions b) ≡ true
  pub hashes_kept : r'.session ≡ r.session

claim-Granted :
    (region a b sid c : String) (r : Redis)
    → overlap r a b c ≡ false
    → contains c (r.available region) ≡ true
    → Granted region a b sid c r (claim_available region c a b sid r)
unfolding overlap claim_available index_session take_number update
claim-Granted region a b sid c r o m =
    let free : (esid : String)
        → contains esid (r.proxy_sessions c) ≡ true
        → IsUnrelated a b (r.session esid) =
      λ esid. any_clash-IsUnrelated r a b (r.proxy_sessions c) esid o in
    ground (
      free,
      arith,
      eq_refl c,
      eq_refl a,
      eq_refl b,
      eq_refl sid,
      eq_iff b a,
      contains-sadd sid sid (r.proxy_sessions c),
      contains-sadd sid sid (r.phone_sessions a),
      contains-sadd sid sid (r.phone_sessions b),
      contains-sadd sid sid (sadd sid (r.phone_sessions a)),
    )

index-Granted :
    (region a b sid c : String) (r : Redis)
    → overlap r a b c ≡ false
    → contains c (r.in_use region) ≡ true
    → Granted region a b sid c r (index_session c a b sid r)
unfolding overlap index_session update
index-Granted region a b sid c r o m =
    let free : (esid : String)
        → contains esid (r.proxy_sessions c) ≡ true
        → IsUnrelated a b (r.session esid) =
      λ esid. any_clash-IsUnrelated r a b (r.proxy_sessions c) esid o in
    ground (
      free,
      arith,
      eq_refl c,
      eq_refl a,
      eq_refl b,
      eq_refl sid,
      eq_iff b a,
      contains-sadd sid sid (r.proxy_sessions c),
      contains-sadd sid sid (r.phone_sessions a),
      contains-sadd sid sid (r.phone_sessions b),
      contains-sadd sid sid (sadd sid (r.phone_sessions a)),
    )

module _ (region a b sid : String) (draw : ℕ → ℕ) (r : Redis) where
  first : Option String × List String
  first = pick_available r region a b draw max_attempts []

  Granted-of :
      (found : Option String × List String)
      → first ≡ found
      → (c : String) → (finish_allocate region a b sid r found).0 ≡ some c
      → Granted region a b sid c r (finish_allocate region a b sid r found).1
  unfolding finish_allocate first
  Granted-of (some d, tried) e c = λ h.
      let (member, free) = pick_available_sound r region a b draw max_attempts [] tried d e in
      subst (λ x. Granted region a b sid x r (claim_available region d a b sid r)) (cc)
        (claim-Granted region a b sid d r free member)
  Granted-of (none, tried) e c = elim (Option-cases (pick_in_use r a b tried (r.in_use region))) [
    | inl nothing ↦ rw (nothing, finish_allocate) (λ h. cc)
    | inr (d, found) ↦
        let (member, free) = pick_in_use_sound r region a b tried (r.in_use region) d found in
        rw (found, finish_allocate)
          λ h.
            subst (λ x. Granted region a b sid x r (index_session d a b sid r)) (cc)
              (index-Granted region a b sid d r free member)
  ]

  -- Whatever the draws: a number that the script returns was in the region's pool, no session on it
  -- had either participant of the new one recorded on either side, and the session is then
  -- found under the number and under both participants.
  pub allocate_script-Granted :
      (c : String)
      → (allocate_script region a b sid draw r).0 ≡ some c
      → Granted region a b sid c r (allocate_script region a b sid draw r).1
  unfolding allocate_script first
  allocate_script-Granted c h = Granted-of first refl c h

  idle-free : (c : String) → r.proxy_sessions c ≡ [] → overlap r a b c ≡ false
  unfolding overlap any_clash
  idle-free c e = rw e

  nil_of_no_draw : (i : ℕ) → srandmember (r.available region) i ≡ none → r.available region ≡ []
  nil_of_no_draw i e = go (r.available region) refl
    where
      go : (s : List String) → r.available region ≡ s → r.available region ≡ []
      go [] same = same
      go (x ∷ s) same = absurd (srandmember_total (r.available region) i (rw same (omega arith)) e)

  nil_of_refusal :
      (left : ℕ)
      → Inv r
      → (pick_available r region a b draw (suc left) []).0 ≡ none
      → r.available region ≡ []
  unfolding pick_available contains
  nil_of_refusal left v = elim (Option-cases (srandmember (r.available region) (draw left))) [
    | inl empty ↦ λ h. nil_of_no_draw (draw left) empty
    | inr (c, drawn) ↦
        rw
          (
            drawn,
            pick_available,
            idle-free c (
                (v region c).available_idle
                  (srandmember-contains (r.available region) (draw left) c drawn)),
          )
          (λ h. cc)
  ]

  refused_of :
      Inv r
      → (found : Option String × List String) → first ≡ found
      → (finish_allocate region a b sid r found).0 ≡ none
      → (r.available region ≡ []) × All (λ c. overlap r a b c ≡ true) (r.in_use region)
  unfolding finish_allocate first max_attempts
  refused_of v (some d, tried) e = λ h. cc
  refused_of v (none, tried) e = elim (Option-cases (pick_in_use r a b tried (r.in_use region))) [
    | inr (d, found) ↦ rw (found, finish_allocate) (λ h. cc)
    | inl nothing ↦ λ h. (
      nil_of_refusal 7 v (ap (λ t. t.0) e),
      pick_in_use_complete r region a b tried (r.in_use region)
          (subst (λ t. All (λ c. overlap r a b c ≡ true) t.1) e
            (pick_available_tried r region a b draw 8 [] tt (ap (λ t. t.0) e)))
          nothing,
    )
  ]

  -- In a sound pool a session is refused only if no number is available and every number in use
  -- holds a session with a participant in common: no draw of `SRANDMEMBER` makes the script miss a
  -- number that would have served.
  pub allocate_script_complete :
      Inv r
      → (allocate_script region a b sid draw r).0 ≡ none
      → (r.available region ≡ []) × All (λ c. overlap r a b c ≡ true) (r.in_use region)
  unfolding allocate_script first
  allocate_script_complete v h = refused_of v first refl h

-- `NumberPool.allocate`: whatever the draws, a number that it returns was in the pool of the region,
-- available or in use, no session on it had either participant of the new one recorded on either
-- side, and the new session is then found under the number and under both participants, with the
-- hashes of all sessions as they were.
pub allocate-Granted :
    (fails : Bool) (region : Option String) (a b sid : String) (draw : ℕ → ℕ) (r : Redis)
    (c : String)
    → (allocate fails region a b sid draw r).0 ≡ some c
    → Granted (or_else region default_region) a b sid c r (allocate fails region a b sid draw r).1
unfolding allocate
allocate-Granted true region a b sid draw r c = λ h. cc
allocate-Granted false region a b sid draw r c =
    kept (allocate_script (or_else region default_region) a b sid draw r)
      (allocate_script-Granted (or_else region default_region) a b sid draw r c)
  where
    kept :
        (t : Option String × Redis)
        → (t.0 ≡ some c → Granted (or_else region default_region) a b sid c r t.1)
        → (drop_empty t).0 ≡ some c
        → Granted (or_else region default_region) a b sid c r (drop_empty t).1
    kept (none, r') g h = cc
    kept (some p, r') g h = g (ground arith)
