-- ===== src/Pool/Cycle.antt =====
-- A number's way through the pool: allocated, released, rested and reaped.
use relavoi_backend.Base.{
  ℕ, ◌<◌, ◌≡◌, refl, String, Bool, true, false, List, [], ◌∷◌, Option, none, some, arith, contains,
  sadd, contains-sadd, update, Bool-cases, inl, inr, ◌⊎◌, or_else, string_eq, eq_iff, eq_refl, All,
}
use relavoi_backend.Store.{Redis, NumberRow}
use relavoi_backend.Pool.{zcontains, zrem, zrange_to, default_region}
use relavoi_backend.Pool.Allocate.{allocate, allocate_script, drop_empty}
use relavoi_backend.Pool.Release.{
  release, ReleaseFaults, reap_all, reap_cooldown, cooldown_until_ms, region_of, finish_release,
}
use relavoi_backend.Pool.Invariant.{
  Sound, Inv, home, allocate_script-Inv, leave-Sound, zcontains-zrem,
}

-- `NumberPool.allocate` keeps the pool's invariant, whether or not Redis answers.
pub allocate-Inv :
    (fails : Bool) (region : Option String) (a b sid : String) (draw : ℕ → ℕ) (r : Redis)
    → Inv r
    → Inv (allocate fails region a b sid draw r).1
unfolding allocate
allocate-Inv true region a b sid draw r v = v
allocate-Inv false region a b sid draw r v =
    kept (allocate_script (or_else region default_region) a b sid draw r)
      (allocate_script-Inv (or_else region default_region) a b sid draw r v)
  where
    kept : (t : Option String × Redis) → Inv t.1 → Inv (drop_empty t).1
    kept (none, r') w = w
    kept (some p, r') w = w

-- `NumberPool.release` keeps the invariant, whatever calls fail, for a session that holds the
-- number or a release with a cooldown, when the number's own region is used.
pub release-Inv :
    (f : ReleaseFaults) (region : Option String) (proxy sid : String) (minutes now : ℕ) (r : Redis)
    (rows : List NumberRow)
    → Inv r
    → region_of f.region_read region proxy r ≡ home r proxy
    → (contains sid (r.proxy_sessions proxy) ≡ true) ⊎ (0 < minutes)
    → Inv (release f region proxy sid minutes now r rows).1
unfolding release
release-Inv f region proxy sid minutes now r rows v h k g p = elim (Bool-cases f.script) [
  | inl down ↦ rw down (v g p)
  | inr up ↦
      rw (up, h, finish_release)
        (leave-Sound (home r proxy) proxy sid (cooldown_until_ms minutes now) r g p (v g p)
          (v g proxy) (v (home r proxy) proxy) refl
          (elim k [ inl c ↦ inl c | inr m ↦ inr (ground arith) ]))
]

-- Members that come back are idle, and live in the region that is reaped.
abbrev Resting : String → Redis → String → Type 0
Resting region r p = (home r p ≡ region) × (r.proxy_sessions p ≡ [])

zrange_to-Resting :
    (region : String) (now : ℕ) (r : Redis) (z : List (String × ℕ))
    → ((p : String) → zcontains p z ≡ true → Resting region r p)
    → All (Resting region r) (zrange_to now z)
unfolding zrange_to zcontains
zrange_to-Resting region now r [] h = tt
zrange_to-Resting region now r ((x, n) ∷ z) h =
    ground
      (arith, h x, eq_refl x, zrange_to-Resting region now r z (λ p c. h p (ground (arith, c))))

wake-Sound :
    (region proxy : String) (r : Redis) (g p : String)
    → Sound r g p
    → Resting region r proxy
    → Sound
        (record r {
          cooldown = update r.cooldown region (zrem proxy (r.cooldown region));
          available = update r.available region (sadd proxy (r.available region));
        })
        g
        p
unfolding update
wake-Sound region proxy r g p v w = ground (
  arith,
  eq_iff region g,
  eq_iff proxy p,
  eq_refl proxy,
  eq_refl region,
  contains-sadd p proxy (r.available region),
  zcontains-zrem p proxy (r.cooldown region),
)

reap_all-Inv :
    (region : String) (expired : List String) (r : Redis)
    → Inv r
    → All (Resting region r) expired
    → Inv (reap_all region expired r)
unfolding reap_all
reap_all-Inv region [] r v h = v
reap_all-Inv region (p ∷ rest) r v h =
    reap_all-Inv region rest _ (λ g q. wake-Sound region p r g q (v g q) h.0) h.1

pub reap_cooldown-Inv :
    (fails table_fails : Bool) (region : String) (now : ℕ) (r : Redis) (rows : List NumberRow)
    → Inv r
    → Inv (reap_cooldown fails table_fails region now r rows).1
unfolding reap_cooldown
reap_cooldown-Inv true table_fails region now r rows v = v
reap_cooldown-Inv false table_fails region now r rows v =
    reap_all-Inv region (zrange_to now (r.cooldown region)) r v (
      zrange_to-Resting region now r (r.cooldown region)
        (λ p c. ((v region p).cooldown_home c, (v region p).cooldown_idle c)))
