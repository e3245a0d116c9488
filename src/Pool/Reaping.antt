-- ===== src/Pool/Reaping.antt =====
-- Which numbers come back from their cooldown.
use relavoi_backend.Base.{
  ℕ, ◌≡◌, refl, String, Bool, false, not, ◌&&◌, ◌||◌, ◌==◌, string_eq, List, [], ◌∷◌, leb, arith,
  contains, sadd, contains-sadd, update, eq_iff,
}
use relavoi_backend.Store.{Redis, NumberRow}
use relavoi_backend.Pool.{zcontains, zrem, zrange_to}
use relavoi_backend.Pool.Release.{reap_all, reap_cooldown}
use relavoi_backend.Pool.Invariant.{zcontains-zrem}

-- Whether a number has an entry whose rest is over.
pub is_rested : ℕ → String → List (String × ℕ) → Bool
is_rested now p [] = false
is_rested now p ((q, until) ∷ z) = (q == p && leb until now) || is_rested now p z

contains-zrange_to :
    (now : ℕ) (p : String) (z : List (String × ℕ))
    → contains p (zrange_to now z) ≡ is_rested now p z
unfolding zrange_to contains is_rested
contains-zrange_to now p [] = refl
contains-zrange_to now p ((q, until) ∷ z) = ground (arith, contains-zrange_to now p z)

-- The pipeline, of one number in one region.
reap_all_lem :
    (region : String) (expired : List String) (r : Redis) (g p : String)
    → (contains p ((reap_all region expired r).available g)
        ≡ (contains p (r.available g) || (region == g && contains p expired)))
      × (zcontains p ((reap_all region expired r).cooldown g)
          ≡ (zcontains p (r.cooldown g) && not (region == g && contains p expired)))
unfolding reap_all contains update
reap_all_lem region [] r g p = ground arith
reap_all_lem region (q ∷ rest) r g p = ground (
  arith,
  reap_all_lem region rest
      (record r {
        cooldown = update r.cooldown region (zrem q (r.cooldown region));
        available = update r.available region (sadd q (r.available region));
      })
      g p,
  eq_iff region g,
  eq_iff q p,
  contains-sadd p q (r.available region),
  zcontains-zrem p q (r.cooldown region),
)

-- With Redis answering, `reapCooldown` of a region moves exactly the numbers of its cooldown whose
-- time is over: of every region and number, the number is available afterwards if it was before or
-- is one of these, and cools down if it did before and is none of these.
pub reap_cooldown_lem :
    (table_fails : Bool) (region : String) (now : ℕ) (r : Redis) (rows : List NumberRow)
    (g p : String)
    → (contains p ((reap_cooldown false table_fails region now r rows).1.available g)
        ≡ (contains p (r.available g) || (region == g && is_rested now p (r.cooldown region))))
      × (zcontains p ((reap_cooldown false table_fails region now r rows).1.cooldown g) ≡ (
          zcontains p (r.cooldown g) && not (region == g && is_rested now p (r.cooldown region))))
unfolding reap_cooldown
reap_cooldown_lem table_fails region now r rows g p =
    rw (← contains-zrange_to now p (r.cooldown region))
      (reap_all_lem region (zrange_to now (r.cooldown region)) r g p)
