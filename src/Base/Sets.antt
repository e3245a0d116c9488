-- ===== src/Base/Sets.antt =====
-- Redis's sets and the key spaces `prefix:{key}`, over texts. A set is the list of its members in
-- the order in which `SMEMBERS` gives them, which no theorem relies on.
use Prim.Native.String.{String}
use mathlib.Core.Path.{◌≡◌}
use mathlib.Core.Bool.{Bool, false, not, ◌&&◌, ◌||◌}
use mathlib.Core.List.{List, [], ◌∷◌}
use native.Mathlib.Omega.{arith}
use text.Mathlib.TextEquality.{eq_iff}
use text.Mathlib.TextPositions.{eq_refl}
use relavoi_backend.Base.Tests.{◌==◌, string_eq, if◌then◌else◌, Bool-cases}
use relavoi_backend.Base.Lists.{All, length}
use Prim.Native.Nat.{◌<◌}
use mathlib.Core.Logic.{◌≢◌, inl, inr}
use mathlib.Core.Path.{subst}
use mathlib.Core.Bool.{true, false≢true}

-- `SISMEMBER`.
unfoldable pub contains : String → List String → Bool
contains x [] = false
contains x (y ∷ ys) = y == x || contains x ys

-- `SADD`.
unfoldable pub sadd : String → List String → List String
unfolding contains
sadd x s = if contains x s then s else x ∷ s

-- `SREM`.
unfoldable pub srem : String → List String → List String
srem x [] = []
srem x (y ∷ ys) = let rest = srem x ys in if y == x then rest else y ∷ rest

pub contains-sadd :
    (y x : String) (s : List String) → contains y (sadd x s) ≡ (x == y || contains y s)
unfolding sadd contains
contains-sadd y x s = ground (arith, eq_iff x y)

pub contains-srem :
    (y x : String) (s : List String) → contains y (srem x s) ≡ (not (x == y) && contains y s)
unfolding srem contains
contains-srem y x [] = ground arith
contains-srem y x (z ∷ s) = ground (arith, eq_iff x y, eq_iff z x, eq_iff z y, contains-srem y x s)

-- A write under one key of a key space.
unfoldable pub update {ℓ} : {V : Type ℓ} → (String → V) → String → V → String → V
update m k v j = if k == j then v else m j

pub update_self {ℓ} : {V : Type ℓ} (m : String → V) (k : String) (v : V) → update m k v k ≡ v
unfolding update
update_self m k v = rw (eq_refl k)

pub update_other {ℓ} :
    {V : Type ℓ} (m : String → V) {k j : String} (v : V) → k ≢ j → update m k v j ≡ m j
unfolding update
update_other m {k} {j} v ne = ground (arith, eq_iff k j)

-- What holds of each member holds of what is contained.
pub contains-All {κ} :
    (P : String → Type κ) (x : String) (s : List String) → All P s → contains x s ≡ true → P x
unfolding contains
contains-All P x [] h c = absurd (false≢true c)
contains-All P x (y ∷ s) h c = elim (Bool-cases (y == x)) [
  | inl e ↦ subst P ((eq_iff y x).0 e) h.0
  | inr e ↦ contains-All P x s h.1 (rw e at c)
]

pub All-of_contains {κ} :
    (P : String → Type κ) (s : List String) → ((x : String) → contains x s ≡ true → P x) → All P s
unfolding contains
All-of_contains P [] h = tt
All-of_contains P (y ∷ s) h =
    (h y (rw (eq_refl y)), All-of_contains P s (λ x c. h x (ground (arith, c))))

pub length-contains : (x : String) (s : List String) → contains x s ≡ true → 0 < length s
unfolding contains
length-contains x [] c = absurd (false≢true c)
length-contains x (y ∷ s) c = omega arith
