-- ===== src/CallRouter/Unique.antt =====
-- Why the order in which Redis lists the sessions of a number does not matter.
use relavoi_backend.Base.{
  ◌⊎◌, ◌≡◌, refl, sym, ap, ◌∙◌, subst, String, Bool, true, List, [], ◌∷◌, Option, none, some, ◌==◌,
  string_eq, if◌then◌else◌, or_else, arith, contains, eq_iff, eq_refl, Option-cases, Bool-cases,
  inl, inr,
}
use relavoi_backend.Crypto.{Phone, NodeCrypto, hash_phone}
use relavoi_backend.Store.{SessionHash, Redis, hash_in_service, truthy, is_text}
use relavoi_backend.CallRouter.{side_of, find_match, read_hash}
use relavoi_backend.CallRouter.Matching.{Takes, side_of-Takes}

abbrev pub party_of : Bool → SessionHash → Option String
party_of is_a h = if is_a then h.party_a_hash else h.party_b_hash

-- Two sessions of one tenant that are on the number, recorded and in service have no participant in
-- common.
unfoldable pub IsApart : Redis → List String → Type 0
IsApart r members =
    (sid sid' : String)
    → contains sid members ≡ true
    → contains sid' members ≡ true
    → truthy (r.session sid).id ≡ true
    → truthy (r.session sid').id ≡ true
    → hash_in_service (r.session sid).state ≡ true
    → hash_in_service (r.session sid').state ≡ true
    → (r.session sid).tenant_id ≡ (r.session sid').tenant_id
    → (is_a is_a' : Bool) (hash : String) → is_text (party_of is_a (r.session sid)) hash ≡ true
    → is_text (party_of is_a' (r.session sid')) hash ≡ true
    → sid ≡ sid'

module _ (c : NodeCrypto) (hint : Option String) (caller : Phone) (fails : String → Bool)
    (r : Redis) where
  pub record Found (members : List String) (h : SessionHash) (is_a : Bool) : Type 0 where
    pub sid : String
    pub listed : contains sid members ≡ true
    pub read : read_hash fails r sid ≡ h
    pub side : side_of c hint caller (read_hash fails r sid) ≡ some is_a

  pub find_match-Found :
      (members : List String) (h : SessionHash) (is_a : Bool)
      → find_match c hint caller fails r members ≡ some (h, is_a)
      → Found members h is_a
  unfolding contains find_match
  find_match-Found [] h is_a = λ e. absurd cc
  find_match-Found (sid ∷ rest) h is_a =
      elim (Option-cases (side_of c hint caller (read_hash fails r sid))) [
        | inl passed ↦
            rw (passed, find_match)
              λ e.
                let f = find_match-Found rest h is_a e in
                record {
                  sid = f.sid;
                  listed = ground (arith, f.listed);
                  read = f.read;
                  side = f.side;
                }
        | inr (s, taken) ↦
            rw (taken, find_match)
              λ e.
                let same_hash : read_hash fails r sid ≡ h = cc in
                let same_side : s ≡ is_a = cc in
                record {
                  sid = sid;
                  listed = ground (arith, eq_refl sid);
                  read = same_hash;
                  side = taken ∙ ap some same_side;
                }
      ]

  find_match-misses :
      (members : List String) (sid : String)
      → find_match c hint caller fails r members ≡ none
      → contains sid members ≡ true
      → side_of c hint caller (read_hash fails r sid) ≡ none
  unfolding contains find_match
  find_match-misses [] sid = λ e m. absurd cc
  find_match-misses (y ∷ rest) sid =
      elim (Option-cases (side_of c hint caller (read_hash fails r y))) [
        | inl passed ↦
            rw (passed, find_match)
              λ e m. elim (Bool-cases (y == sid)) [
                | inl same ↦
                    subst (λ z. side_of c hint caller (read_hash fails r z) ≡ none)
                      ((eq_iff y sid).0 same) passed
                | inr other ↦ find_match-misses rest sid e (ground (arith, m))
              ]
        | inr (s, taken) ↦ rw (taken, find_match) λ e m. absurd cc
      ]

  -- A hash that takes the call was read: it is not one whose read threw.
  read_hash-Takes :
      (sid : String) (is_a : Bool)
      → Takes c hint caller (read_hash fails r sid) is_a
      → read_hash fails r sid ≡ r.session sid
  read_hash-Takes sid is_a t = elim (Bool-cases (fails sid)) [
    | inl down ↦ absurd (ground (arith, t.serves))
    | inr up ↦ rw up refl
  ]

-- All sessions of the number that are in service have one tenant.
unfoldable pub HasOneTenant : Redis → List String → Type 0
HasOneTenant r members =
    (sid sid' : String)
    → contains sid members ≡ true
    → contains sid' members ≡ true
    → hash_in_service (r.session sid).state ≡ true
    → hash_in_service (r.session sid').state ≡ true
    → (r.session sid).tenant_id ≡ (r.session sid').tenant_id

some_injective : (a b : Bool) → some a ≡ some b → a ≡ b
some_injective a b e = cc

is_text-some : (o : Option String) (v : String) → is_text o v ≡ true → o ≡ some v
is_text-some none v e = absurd (ground arith)
is_text-some (some u) v e = ap some ((eq_iff u v).0 e)

module _ (c : NodeCrypto) (hint : Option String) (caller : Phone) (fails : String → Bool)
    (r : Redis) where
  Took : String → Bool → Type 0
  Took sid is_a = Takes c hint caller (r.session sid) is_a

  same_tenant :
      (members : List String)
      → (truthy hint ≡ true) ⊎ HasOneTenant r members
      → (sid sid' : String) (is_a is_a' : Bool) → contains sid members ≡ true
      → contains sid' members ≡ true
      → Took sid is_a
      → Took sid' is_a'
      → (r.session sid).tenant_id ≡ (r.session sid').tenant_id
  unfolding Took HasOneTenant
  same_tenant members (inl hinted) sid sid' is_a is_a' m m' t t' =
      is_text-some _ _ (t.hinted hinted) ∙ sym (is_text-some _ _ (t'.hinted hinted))
  same_tenant members (inr one) sid sid' is_a is_a' m m' t t' = one sid sid' m m' t.serves t'.serves

  same_session :
      (members : List String)
      → (truthy hint ≡ true) ⊎ HasOneTenant r members
      → IsApart r members
      → (sid sid' : String) (is_a is_a' : Bool) → contains sid members ≡ true
      → contains sid' members ≡ true
      → Took sid is_a
      → Took sid' is_a'
      → sid ≡ sid'
  unfolding Took IsApart
  same_session members one apart sid sid' is_a is_a' m m' t t' =
      let tenants = same_tenant members one sid sid' is_a is_a' m m' t t' in
      apart sid sid' m m' t.recorded t'.recorded t.serves t'.serves tenants is_a is_a'
        (hash_phone c caller (or_else (r.session sid).tenant_id "")) t.party
        (subst
          (λ tenant.
            is_text (party_of is_a' (r.session sid')) (hash_phone c caller (or_else tenant ""))
            ≡ true)
          (sym tenants) t'.party)

  -- The sessions that two listings find are the same.
  same_match :
      (members : List String)
      → (truthy hint ≡ true) ⊎ HasOneTenant r members
      → IsApart r members
      → (h h' : SessionHash) (is_a is_a' : Bool) → Found c hint caller fails r members h is_a
      → Found c hint caller fails r members h' is_a'
      → (h ≡ h') × (is_a ≡ is_a')
  unfolding Took
  same_match members one apart h h' is_a is_a' f f' =
      let reads : (sid : String) (is_a : Bool)
          → side_of c hint caller (read_hash fails r sid) ≡ some is_a
          → Took sid is_a =
        λ sid is_a e.
          let t = side_of-Takes c hint caller (read_hash fails r sid) is_a e in
          subst (λ g. Takes c hint caller g is_a) (read_hash-Takes c hint caller fails r sid is_a t)
            t in
      let same =
        same_session members one apart f.sid f'.sid is_a is_a' f.listed f'.listed
          (reads f.sid is_a f.side) (reads f'.sid is_a' f'.side) in
      let hashes : h ≡ h' = sym f.read ∙ ap (λ sid. read_hash fails r sid) same ∙ f'.read in
      let sides : is_a ≡ is_a' =
        some_injective _ _
          (sym f.side ∙ ap (λ sid. side_of c hint caller (read_hash fails r sid)) same ∙ f'.side) in
      (hashes, sides)

  -- Two listings of the same sessions in whatever order, for a number whose sessions are apart and
  -- of one tenant, or a call whose tenant is known: the loop finds the same session and side in
  -- both, or none in both. So the order of `SMEMBERS` does not decide who is called.
  pub find_match_order :
      (members members' : List String)
      → ((sid : String) → contains sid members ≡ contains sid members')
      → (truthy hint ≡ true) ⊎ HasOneTenant r members
      → IsApart r members
      → find_match c hint caller fails r members ≡ find_match c hint caller fails r members'
  find_match_order members members' same one apart =
      elim (Option-cases (find_match c hint caller fails r members)) [
        | inl e ↦ elim (Option-cases (find_match c hint caller fails r members')) [
          | inl e' ↦ e ∙ sym e'
          | inr ((h, is_a), e') ↦
              let f = find_match-Found c hint caller fails r members' h is_a e' in
              let missed =
                find_match-misses c hint caller fails r members f.sid e (same f.sid ∙ f.listed) in
              absurd (let wrong : none ≡ some is_a = sym missed ∙ f.side in cc)
        ]
        | inr ((h, is_a), e) ↦
            let f = find_match-Found c hint caller fails r members h is_a e in
            elim (Option-cases (find_match c hint caller fails r members')) [
              | inl e' ↦
                  let missed =
                    find_match-misses c hint caller fails r members' f.sid e'
                      (sym (same f.sid) ∙ f.listed) in
                  absurd (let wrong : none ≡ some is_a = sym missed ∙ f.side in cc)
              | inr ((h', is_a'), e') ↦
                  let f' = find_match-Found c hint caller fails r members' h' is_a' e' in
                  let g : Found c hint caller fails r members h' is_a' = record {
                    sid = f'.sid;
                    listed = same f'.sid ∙ f'.listed;
                    read = f'.read;
                    side = f'.side;
                  } in
                  let (hashes, sides) = same_match members one apart h h' is_a is_a' f g in
                  e ∙ (let pairs : some (h, is_a) ≡ some (h', is_a') = cc in pairs) ∙ sym e'
            ]
      ]
