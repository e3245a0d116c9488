-- ===== src/CallRouter/Matching.antt =====
-- What the loop over the sessions of a number finds.
use relavoi_backend.Base.{
  false, none, ap, ◌∙◌, subst, ◌≡◌, String, Bool, true, List, [], ◌∷◌, Option, some, string_eq,
  if◌then◌else◌, or_else, arith, Option-cases, inl, inr,
}
use relavoi_backend.Crypto.{Phone, NodeCrypto, hash_phone}
use relavoi_backend.Store.{
  DirectionMode, bidirectional, a_to_b_only, b_to_a_only, SessionHash, Redis, hash_in_service,
  truthy, is_text,
}
use relavoi_backend.CallRouter.{barred, side_of, find_match, read_hash}

module _ (c : NodeCrypto) (hint : Option String) (caller : Phone) where
  -- The session is in service and the caller is the participant on the given side.
  pub record Takes (h : SessionHash) (is_a : Bool) : Type 0 where
    pub recorded : truthy h.id ≡ true
    pub serves : hash_in_service h.state ≡ true
    pub owned : truthy h.tenant_id ≡ true
    pub hinted : truthy hint ≡ true → is_text h.tenant_id (or_else hint "") ≡ true
    pub party :
        is_text
          (if is_a then h.party_a_hash else h.party_b_hash)
          (hash_phone c caller (or_else h.tenant_id ""))
        ≡ true

  pub side_of-Takes :
      (h : SessionHash) (is_a : Bool) → side_of c hint caller h ≡ some is_a → Takes h is_a
  unfolding side_of
  side_of-Takes h is_a e = ground arith

  module _ (fails : String → Bool) (r : Redis) where
    pub find_match-Takes :
        (members : List String) (h : SessionHash) (is_a : Bool)
        → find_match c hint caller fails r members ≡ some (h, is_a)
        → Takes h is_a
    unfolding find_match
    find_match-Takes [] h is_a = λ e. cc
    find_match-Takes (sid ∷ rest) h is_a =
        elim (Option-cases (side_of c hint caller (read_hash fails r sid))) [
          | inl passed ↦ rw (passed, find_match) (find_match-Takes rest h is_a)
          | inr (side, taken) ↦
              rw (taken, find_match)
                λ e.
                  let same_hash : read_hash fails r sid ≡ h = cc in
                  let same_side : side ≡ is_a = cc in
                  side_of-Takes h is_a (
                    subst (λ g. side_of c hint caller g ≡ some is_a) same_hash
                      (taken ∙ ap some same_side))
        ]

-- The directions that a session allows: the side of the caller, under each setting.
pub data Admits : Option DirectionMode → Bool → Type 0 where
  by_default : {is_a : Bool} → Admits none is_a
  both_ways : {is_a : Bool} → Admits (some bidirectional) is_a
  from_a : Admits (some a_to_b_only) true
  from_b : Admits (some b_to_a_only) false

pub barred-Admits : (d : Option DirectionMode) (is_a : Bool) → barred d is_a ≡ false → Admits d is_a
barred-Admits none is_a e = by_default
barred-Admits (some bidirectional) is_a e = both_ways
barred-Admits (some a_to_b_only) true e = from_a
barred-Admits (some a_to_b_only) false e = absurd (ground arith)
barred-Admits (some b_to_a_only) true e = absurd (ground arith)
barred-Admits (some b_to_a_only) false e = from_b
