-- ===== src/Session/Apart/Creation.antt =====
-- A creation keeps the sessions on every number apart.
use relavoi_backend.Base.{
  ◌≡◌, ◌≢◌, ◌⊎◌, inl, inr, sym, ap, ◌∙◌, subst, String, Bool, true, false, ◌==◌, string_eq, List,
  [], ◌∷◌, some, arith, contains, eq_iff, Bool-cases,
}
use relavoi_backend.Store.{SessionHash, Redis, no_hash, truthy, is_text}
use relavoi_backend.Pool.Allocate.{clashes, any_clash, overlap}
use relavoi_backend.CallRouter.Unique.{IsApart, party_of}

-- No clash over the list is none with any of its members.
any_clash-false :
    (r : Redis) (a b : String) (members : List String) (sid : String)
    → any_clash r a b members ≡ false
    → contains sid members ≡ true
    → clashes r a b sid ≡ false
unfolding any_clash contains
any_clash-false r a b [] sid e m = absurd (ground (arith, m))
any_clash-false r a b (y ∷ rest) sid e m = elim (Bool-cases (y == sid)) [
  | inl same ↦ subst (λ s. clashes r a b s ≡ false) ((eq_iff y sid).0 same) (ground (arith, e))
  | inr other ↦ any_clash-false r a b rest sid (ground (arith, e)) (ground (arith, m, other))
]

module _ (a b sid : String) (r : Redis) where
  -- The session's own hash: none yet, or one with the two participants.
  abbrev pub IsOwn : SessionHash → Type 0
  IsOwn h = (h ≡ no_hash) ⊎ ((h.party_a_hash ≡ some a) × (h.party_b_hash ≡ some b))

  -- What a creation of the session may do to the keys, wherever it stops.
  pub record Adds (v : Redis) : Type 0 where
    pub members :
        (p s : String)
        → contains s (v.proxy_sessions p) ≡ true
        → (contains s (r.proxy_sessions p) ≡ true) ⊎ ((s ≡ sid) × (overlap r a b p ≡ false))
    pub others : (s : String) → s ≢ sid → v.session s ≡ r.session s
    pub own : IsOwn (v.session sid)

  own_party :
      (h : SessionHash) (is_a : Bool) (hash : String)
      → IsOwn h
      → truthy h.id ≡ true
      → is_text (party_of is_a h) hash ≡ true
      → (hash ≡ a) ⊎ (hash ≡ b)
  own_party h is_a hash (inl empty) has_id p = absurd (ground (arith, rw empty at has_id))
  own_party h is_a hash (inr (x, y)) has_id p =
      ground (arith, x, y, p, eq_iff a hash, eq_iff b hash)

  -- A session on a number without overlap has neither participant.
  no_party :
      (p s : String) (is_a : Bool) (hash : String)
      → overlap r a b p ≡ false
      → contains s (r.proxy_sessions p) ≡ true
      → is_text (party_of is_a (r.session s)) hash ≡ true
      → (hash ≡ a) ⊎ (hash ≡ b)
      → ⊥
  unfolding overlap clashes
  no_party p s is_a hash free m q either =
      let c = any_clash-false r a b (r.proxy_sessions p) s free m in
      elim either [
        | inl e ↦ ground (arith, c, subst (λ t. is_text (party_of is_a (r.session s)) t ≡ true) e q)
        | inr e ↦ ground (arith, c, subst (λ t. is_text (party_of is_a (r.session s)) t ≡ true) e q)
      ]

  abbrev pub IsFresh : Type 0
  IsFresh = (p : String) → contains sid (r.proxy_sessions p) ≡ false

  -- A member that is not the new session was one before, with the hash it had.
  older :
      (v : Redis) (p s : String)
      → IsFresh
      → Adds v
      → contains s (v.proxy_sessions p) ≡ true
      → ((contains s (r.proxy_sessions p) ≡ true) × (v.session s ≡ r.session s))
        ⊎ ((s ≡ sid) × (overlap r a b p ≡ false))
  older v p s fresh adds m = elim (adds.members p s m) [
    | inr new ↦ inr new
    | inl old ↦ inl (
      old,
      adds.others s λ same.
          absurd
            (ground (arith, subst (λ t. contains t (r.proxy_sessions p) ≡ true) same old, fresh p)),
    )
  ]

  pub Adds-IsApart :
      (v : Redis) (p : String)
      → IsFresh
      → Adds v
      → IsApart r (r.proxy_sessions p)
      → IsApart v (v.proxy_sessions p)
  unfolding IsApart
  Adds-IsApart v p fresh adds apart s s' m m' has_id has_id' serves serves' tenants is_a is_a' hash
        q q' =
      elim (older v p s fresh adds m) [
        | inl (old, kept) ↦ elim (older v p s' fresh adds m') [
          | inl (old', kept') ↦
              apart s s' old old' (rw kept at has_id) (rw kept' at has_id') (rw kept at serves)
                (rw kept' at serves')
                (ap (λ h. h.tenant_id) (sym kept) ∙ tenants ∙ ap (λ h. h.tenant_id) kept') is_a
                is_a' hash (rw kept at q) (rw kept' at q')
          | inr (new', free) ↦ absurd (
              no_party p s is_a hash free old (rw kept at q) (
                own_party (v.session sid) is_a' hash adds.own (rw new' at has_id') (rw new' at q')))
        ]
        | inr (new, free) ↦ elim (older v p s' fresh adds m') [
          | inl (old', kept') ↦ absurd (
              no_party p s' is_a' hash free old' (rw kept' at q')
                (own_party (v.session sid) is_a hash adds.own (rw new at has_id) (rw new at q)))
          | inr (new', _) ↦ new ∙ sym new'
        ]
      ]
