-- ===== src/Pool/Allocate.antt =====
-- `NumberPool.allocate` and ALLOCATE_SCRIPT.
use relavoi_backend.Base.{
  ℕ, zero, suc, ◌%◌, String, Bool, true, false, ◌||◌, List, [], ◌∷◌, Option, none, some, ◌==◌,
  nat_eq, string_eq, if◌then◌else◌, or_else, length, get_elem?, contains, sadd, srem, update,
}
use relavoi_backend.Store.{SessionHash, Redis, is_text}
use relavoi_backend.Pool.{default_region}

unfoldable pub srandmember : List String → ℕ → Option String
srandmember xs r = get_elem? xs (r % length xs)

-- `HGET session:{esid}` for both parties, each compared with both new parties.
unfoldable pub clashes : Redis → String → String → String → Bool
clashes r a b esid =
    is_text h.party_a_hash a
    || is_text h.party_a_hash b
    || is_text h.party_b_hash a
    || is_text h.party_b_hash b
  where
    h : SessionHash
    h = r.session esid

unfoldable pub any_clash : Redis → String → String → List String → Bool
any_clash r a b [] = false
any_clash r a b (esid ∷ rest) = clashes r a b esid || any_clash r a b rest

unfoldable pub overlap : Redis → String → String → String → Bool
overlap r a b candidate = any_clash r a b (r.proxy_sessions candidate)

-- The first loop: a candidate, if one of the attempts finds one, and the numbers tried.
unfoldable pub pick_available :
    Redis → String → String → String → (ℕ → ℕ) → ℕ → List String → Option String × List String
pick_available r region a b draw zero tried = (none, tried)
pick_available r region a b draw (suc left) tried =
    elim (srandmember (r.available region) (draw left)) [
      | none ↦ (none, tried)
      | some candidate ↦ elim (contains candidate tried) [
        | true ↦ pick_available r region a b draw left tried
        | false ↦ elim (overlap r a b candidate) [
          | true ↦ pick_available r region a b draw left (candidate ∷ tried)
          | false ↦ (some candidate, candidate ∷ tried)
        ]
      ]
    ]

-- The second loop, over the members of `in_use`.
unfoldable pub pick_in_use : Redis → String → String → List String → List String → Option String
pick_in_use r a b tried [] = none
pick_in_use r a b tried (candidate ∷ rest) = elim (contains candidate tried) [
  | true ↦ pick_in_use r a b tried rest
  | false ↦ elim (overlap r a b candidate) [
    | true ↦ pick_in_use r a b (candidate ∷ tried) rest
    | false ↦ some candidate
  ]
]

-- The `SADD`s of the session under its proxy and its two parties.
unfoldable pub index_session : String → String → String → String → Redis → Redis
index_session candidate a b sid r = record r {
  proxy_sessions = update r.proxy_sessions candidate (sadd sid (r.proxy_sessions candidate));
  phone_sessions = update by_a b (sadd sid (by_a b));
}
  where
    by_a : String → List String
    by_a = update r.phone_sessions a (sadd sid (r.phone_sessions a))

unfoldable pub take_number : String → String → Redis → Redis
take_number region candidate r = record r {
  available = update r.available region (srem candidate (r.available region));
  in_use = update r.in_use region (sadd candidate (r.in_use region));
}

unfoldable pub claim_available : String → String → String → String → String → Redis → Redis
unfolding index_session take_number
claim_available region candidate a b sid r =
    index_session candidate a b sid
      (if length (r.proxy_sessions candidate) == 0 then take_number region candidate r else r)

unfoldable pub max_attempts : ℕ
max_attempts = 8

unfoldable pub finish_allocate :
    String → String → String → String → Redis → Option String × List String → Option String × Redis
unfolding pick_in_use claim_available
finish_allocate region a b sid r (some candidate, tried) =
    (some candidate, claim_available region candidate a b sid r)
finish_allocate region a b sid r (none, tried) = elim (pick_in_use r a b tried (r.in_use region)) [
  | none ↦ (none, r)
  | some candidate ↦ (some candidate, index_session candidate a b sid r)
]

-- ALLOCATE_SCRIPT; no number is `none`.
unfoldable pub allocate_script :
    String → String → String → String → (ℕ → ℕ) → Redis → Option String × Redis
unfolding pick_available finish_allocate max_attempts
allocate_script region a b sid draw r =
    finish_allocate region a b sid r (pick_available r region a b draw max_attempts [])

-- `NumberPool.allocate`; a number that is the empty text is no number.
unfoldable pub drop_empty : Option String × Redis → Option String × Redis
drop_empty (none, r) = (none, r)
drop_empty (some p, r) = (if p == "" then none else some p, r)

unfoldable pub allocate :
    Bool → Option String → String → String → String → (ℕ → ℕ) → Redis → Option String × Redis
unfolding allocate_script drop_empty
allocate fails region a b sid draw r =
    if fails
    then (none, r)
    else drop_empty (allocate_script (or_else region default_region) a b sid draw r)
