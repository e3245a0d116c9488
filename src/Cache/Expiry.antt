-- ===== src/Cache/Expiry.antt =====
-- How long an entry lives.
use relavoi_backend.Base.{
  sym, Bool-cases, inl, inr, Option-cases, ◌⊎◌, ℕ, ◌+◌, ◌≡◌, refl, String, [], ◌∷◌, Option, none,
  some, ltb, leb, if◌then◌else◌, ◌==◌, string_eq, arith, eq_iff,
}
use relavoi_backend.Cache.{Store, Entry, find, put, delete, get, set}

module _ {ℓ} {V : Type ℓ} where
  find-put :
      (k j : String) (e : Entry V) (m : Store V)
      → find j (put k e m) ≡ (if k == j then some e else find j m)
  unfolding find put
  find-put k j e [] = refl
  find-put k j e ((i, f) ∷ m) = ground (arith, eq_iff k j, eq_iff i k, eq_iff i j, find-put k j e m)

  find-delete :
      (k j : String) (m : Store V) → find j (delete k m) ≡ (if k == j then none else find j m)
  unfolding find delete
  find-delete k j [] = ground arith
  find-delete k j ((i, f) ∷ m) =
      ground (arith, eq_iff k j, eq_iff i k, eq_iff i j, find-delete k j m)

  alive : ℕ → Option (Entry V) → Option V
  alive now none = none
  alive now (some e) = if ltb e.expires_at now then none else some e.value

  get-alive : (now : ℕ) (k : String) (m : Store V) → (get now k m).0 ≡ alive now (find k m)
  unfolding get alive
  get-alive now k m = elim (Option-cases (find k m)) [
    | inl e ↦ rw (e, get)
    | inr (f, e) ↦ rw (e, get) (ground arith)
  ]

  evicted :
      (now : ℕ) (k : String) (m : Store V)
      → ((get now k m).1 ≡ m) ⊎ ((alive now (find k m) ≡ none) × ((get now k m).1 ≡ delete k m))
  unfolding get alive
  evicted now k m = elim (Option-cases (find k m)) [
    | inl e ↦ inl (rw (e, get))
    | inr (f, e) ↦ rw (e, get) (ground arith)
  ]

  alive-none :
      (now later : ℕ) (o : Option (Entry V)) → alive now o ≡ none → alive (now + later) o ≡ none
  unfolding alive
  alive-none now later none h = refl
  alive-none now later (some e) h = ground arith

  -- A read of any key, `later` milliseconds after a write of `k`: the written value up to and
  -- including the last millisecond of its time to live, nothing after that, and under another key
  -- what it read before.
  pub get-set :
      (now later ttl : ℕ) (k j : String) (v : V) (m : Store V)
      → (get (now + later) j (set now k v ttl m)).0
        ≡ (if k == j then (if leb later ttl then some v else none) else (get (now + later) j m).0)
  unfolding set alive
  get-set now later ttl k j v m = ground (
    arith,
    get-alive (now + later) j (set now k v ttl m),
    get-alive (now + later) j m,
    find-put k j (record { value = v; expires_at = now + ttl }) m,
    eq_iff k j,
  )

  -- Eviction is not seen: after a read of `k`, every read of any key at that time or later answers
  -- as if there had been none.
  get-get :
      (now later : ℕ) (k j : String) (m : Store V)
      → (get (now + later) j (get now k m).1).0 ≡ (get (now + later) j m).0
  unfolding alive
  get-get now later k j m = elim (evicted now k m) [
    | inl same ↦ rw same
    | inr (dead, deleted) ↦
        rw
          (
            deleted,
            get-alive (now + later) j (delete k m),
            get-alive (now + later) j m,
            find-delete k j m,
          )
          (hidden dead)
  ]
    where
      hidden :
          alive now (find k m) ≡ none
          → alive (now + later) (if k == j then none else find j m) ≡ alive (now + later) (find j m)
      hidden dead = elim (Bool-cases (k == j)) [
        | inl same ↦
            rw same (rw (← (eq_iff k j).0 same) (sym (alive-none now later (find k m) dead)))
        | inr other ↦ rw other refl
      ]
