-- ===== src/Pool/Candidates.antt =====
-- What the two loops of ALLOCATE_SCRIPT find.
use relavoi_backend.Base.{
  ℕ, zero, suc, ◌%◌, ◌<◌, ◌≡◌, ◌≢◌, String, true, false, List, [], ◌∷◌, Option, none, some, arith,
  length, get_elem?, contains, All, contains-All, Option-cases, inl, inr, string_eq, Bool-cases,
  eq_refl, eq_iff,
}
use relavoi_backend.Store.{Redis}
use relavoi_backend.Pool.Allocate.{srandmember, overlap, pick_available, pick_in_use}

get_elem?-contains :
    (xs : List String) (i : ℕ) (x : String) → get_elem? xs i ≡ some x → contains x xs ≡ true
unfolding contains
get_elem?-contains [] i x e = cc
get_elem?-contains (y ∷ xs) zero x e = ground (arith, eq_iff y x)
get_elem?-contains (y ∷ xs) (suc i) x e = ground (arith, get_elem?-contains xs i x)

get_elem?_total : (xs : List String) (i : ℕ) → i < length xs → get_elem? xs i ≢ none
get_elem?_total [] i h = elim h [ ]
get_elem?_total (y ∷ xs) zero h = λ e. cc
get_elem?_total (y ∷ xs) (suc i) h = get_elem?_total xs i (omega arith)

pub srandmember-contains :
    (xs : List String) (r : ℕ) (x : String) → srandmember xs r ≡ some x → contains x xs ≡ true
unfolding srandmember
srandmember-contains xs r x e = get_elem?-contains xs (r % length xs) x e

-- A draw from a set that is not empty is a member.
pub srandmember_total : (xs : List String) (r : ℕ) → 0 < length xs → srandmember xs r ≢ none
unfolding srandmember
srandmember_total xs r h = get_elem?_total xs (r % length xs) (grind arith)

chosen : Option String → String
chosen none = ""
chosen (some c) = c

module _ (r : Redis) (region a b : String) where
  -- A number that the first loop finds is available and has no overlap.
  pub pick_available_sound :
      (draw : ℕ → ℕ) (left : ℕ) (tried after : List String) (c : String)
      → pick_available r region a b draw left tried ≡ (some c, after)
      → (contains c (r.available region) ≡ true) × (overlap r a b c ≡ false)
  unfolding pick_available chosen
  pick_available_sound draw zero tried after c e = ground arith
  pick_available_sound draw (suc left) tried after c e = ground (
    arith,
    srandmember-contains (r.available region) (draw left) c,
    pick_available_sound draw left tried after c,
    pick_available_sound draw left (chosen (srandmember (r.available region) (draw left)) ∷ tried)
        after c,
  )

  -- The numbers that the first loop has tried overlap, unless it found one.
  pub pick_available_tried :
      (draw : ℕ → ℕ) (left : ℕ) (tried : List String)
      → All (λ c. overlap r a b c ≡ true) tried
      → (pick_available r region a b draw left tried).0 ≡ none
      → All (λ c. overlap r a b c ≡ true) (pick_available r region a b draw left tried).1
  unfolding pick_available
  pick_available_tried draw zero tried h = λ e. h
  pick_available_tried draw (suc left) tried h =
      elim (Option-cases (srandmember (r.available region) (draw left))) [
        | inl empty ↦ rw (empty, pick_available) (λ e. h)
        | inr (c, drawn) ↦ elim (Bool-cases (contains c tried)) [
          | inl seen ↦ rw (drawn, pick_available, seen) (pick_available_tried draw left tried h)
          | inr unseen ↦ elim (Bool-cases (overlap r a b c)) [
            | inl taken ↦
                rw (drawn, pick_available, unseen, taken)
                  (pick_available_tried draw left (c ∷ tried) (taken, h))
            | inr free ↦ rw (drawn, pick_available, unseen, free) (λ e. cc)
          ]
        ]
      ]

  pub pick_in_use_sound :
      (tried members : List String) (c : String)
      → pick_in_use r a b tried members ≡ some c
      → (contains c members ≡ true) × (overlap r a b c ≡ false)
  unfolding pick_in_use contains
  pick_in_use_sound tried [] c e = cc
  pick_in_use_sound tried (x ∷ rest) c e =
      ground
        (arith, eq_refl c, pick_in_use_sound tried rest c, pick_in_use_sound (x ∷ tried) rest c)

  -- If the second loop finds nothing, every number in use overlaps.
  pub pick_in_use_complete :
      (tried members : List String)
      → All (λ c. overlap r a b c ≡ true) tried
      → pick_in_use r a b tried members ≡ none
      → All (λ c. overlap r a b c ≡ true) members
  unfolding pick_in_use
  pick_in_use_complete tried [] h e = tt
  pick_in_use_complete tried (x ∷ rest) h e = ground (
    arith,
    contains-All (λ c. overlap r a b c ≡ true) x tried h,
    pick_in_use_complete tried rest h,
    pick_in_use_complete (x ∷ tried) rest,
  )
