-- ===== src/Cache.antt =====
-- The in-process cache with expiry, src/utils/cache.ts. Times are milliseconds.
pub mod Expiry
mod Tests
use relavoi_backend.Base.{
  ℕ, ◌+◌, String, List, [], ◌∷◌, Option, none, some, ltb, if◌then◌else◌, ◌==◌, string_eq, length,
}

pub record Entry {ℓ} (V : Type ℓ) : Type ℓ where
  pub value : V
  pub expires_at : ℕ

-- The entries of the `Map`, in the order of insertion.
abbrev pub Store {ℓ} : Type ℓ → Type ℓ
Store V = List (String × Entry V)

module _ {ℓ} {V : Type ℓ} where
  -- `Map.get`, `Map.set` and `Map.delete`.
  unfoldable pub find : String → Store V → Option (Entry V)
  find k [] = none
  find k ((j, e) ∷ m) = if j == k then some e else find k m

  unfoldable pub put : String → Entry V → Store V → Store V
  put k e [] = (k, e) ∷ []
  put k e ((j, f) ∷ m) = let rest = put k e m in if j == k then (k, e) ∷ m else (j, f) ∷ rest

  unfoldable pub delete : String → Store V → Store V
  delete k [] = []
  delete k ((j, e) ∷ m) = let rest = delete k m in if j == k then rest else (j, e) ∷ rest

  -- `get` evicts an entry that has expired.
  unfoldable pub get : ℕ → String → Store V → Option V × Store V
  get now k m = elim (find k m) [
    | none ↦ (none, m)
    | some e ↦ if ltb e.expires_at now then (none, delete k m) else (some e.value, m)
  ]

  unfoldable pub set : ℕ → String → V → ℕ → Store V → Store V
  set now k v ttl m = put k (record { value = v; expires_at = now + ttl }) m

  pub clear : Store V → Store V
  clear m = []

  pub size : Store V → ℕ
  size m = length m
