-- ===== src/Pool/Lifecycle.antt =====
-- Every history of the pool.
use relavoi_backend.Base.{
  false, or_else, ◌⊎◌, ◌<◌, ℕ, ◌≡◌, String, Bool, true, Option, List, contains, arith,
}
use relavoi_backend.Store.{Redis, NumberRow}
use relavoi_backend.Pool.{default_region, zcontains}
use relavoi_backend.Pool.Allocate.{allocate}
use relavoi_backend.Pool.Release.{release, reap_cooldown, region_of, ReleaseFaults}
use relavoi_backend.Pool.Invariant.{Sound, Inv}
use relavoi_backend.Pool.Cycle.{allocate-Inv, release-Inv, reap_cooldown-Inv}

-- What the services do to the pool. A release uses the region of its number, which it names, as the
-- rollback of `createSession` does, or reads; it has a cooldown, as that of `expireSession` may, or
-- is of a session that holds the number.
pub data Step (r : Redis) : Redis → Type 0 where
  allocates :
      (fails : Bool) (region : Option String) (a b sid : String) (draw : ℕ → ℕ)
      → Step r (allocate fails region a b sid draw r).1
  releases :
      (f : ReleaseFaults) (region : Option String) (proxy sid : String) (minutes now : ℕ)
      (rows : List NumberRow)
      → region_of f.region_read region proxy r ≡ or_else (r.proxy_region proxy) default_region
      → (contains sid (r.proxy_sessions proxy) ≡ true) ⊎ (0 < minutes)
      → Step r (release f region proxy sid minutes now r rows).1
  reaps :
      (fails table_fails : Bool) (region : String) (now : ℕ) (rows : List NumberRow)
      → Step r (reap_cooldown fails table_fails region now r rows).1

pub data Reach (r : Redis) : Redis → Type 0 where
  here : Reach r r
  next : {s t : Redis} → Reach r s → Step s t → Reach r t

Step-Inv : {r s : Redis} → Step r s → Inv r → Inv s
Step-Inv {r} (allocates fails region a b sid draw) v = allocate-Inv fails region a b sid draw r v
Step-Inv {r} (releases f region proxy sid minutes now rows at_home leaves) v =
    release-Inv f region proxy sid minutes now r rows v at_home leaves
Step-Inv {r} (reaps fails table_fails region now rows) v =
    reap_cooldown-Inv fails table_fails region now r rows v

pub Reach-Inv : {r s : Redis} → Reach r s → Inv r → Inv s
Reach-Inv here v = v
Reach-Inv (next h st) v = Step-Inv st (Reach-Inv h v)

-- A number is in one place at most, over all regions.
pub record Apart (r : Redis) (g h p : String) : Type 0 where
  pub available_in_use : contains p (r.available g) ≡ true → contains p (r.in_use h) ≡ false
  pub available_cooldown : contains p (r.available g) ≡ true → zcontains p (r.cooldown h) ≡ false
  pub cooldown_in_use : zcontains p (r.cooldown g) ≡ true → contains p (r.in_use h) ≡ false
  pub one_region : contains p (r.available g) ≡ true → contains p (r.available h) ≡ true → g ≡ h

Inv-Apart : (r : Redis) (g h p : String) → Inv r → Apart r g h p
Inv-Apart r g h p v = go (v g p) (v h p)
  where
    go : Sound r g p → Sound r h p → Apart r g h p
    go s t = ground arith

-- After any history, from a sound pool, of allocations, reaps and releases, where any call of the
-- allocations and reaps, the script and the table of a release may fail, no number is in two of the
-- sets available, in use and cooling down, of any regions. Each release is with the number's own
-- region, named or read, which leaves out those whose read of it fails for a number of another region
-- than the default one, and has a cooldown or is of a session that holds the number.
pub Reach-Apart : {r s : Redis} → Reach r s → Inv r → (g h p : String) → Apart s g h p
Reach-Apart reach v g h p = Inv-Apart _ g h p (Reach-Inv reach v)
