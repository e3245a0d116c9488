-- ===== src/Pool/Invariant.antt =====
-- The three sets of the pool stay apart, and follow the sessions of each number.
use relavoi_backend.Base.{
  ℕ, ◌<◌, ◌≡◌, ◌≢◌, refl, String, true, false, List, [], ◌∷◌, Option, none, some, arith, contains,
  sadd, srem, contains-sadd, contains-srem, update, Option-cases, inl, inr, ◌⊎◌, or_else, string_eq,
  nat_eq, ◌==◌, nat_eq, eq_iff, eq_refl, not, ◌&&◌, ◌||◌,
}
use relavoi_backend.Store.{Redis}
use relavoi_backend.Pool.{default_region, zcontains, zrem, zadd}
use relavoi_backend.Pool.Allocate.{
  max_attempts, take_number, index_session, claim_available, allocate_script, finish_allocate,
  pick_available, pick_in_use,
}
use relavoi_backend.Pool.Release.{release_script}
use relavoi_backend.Pool.Candidates.{pick_available_sound, pick_in_use_sound}

pub zcontains-zrem :
    (y x : String) (z : List (String × ℕ))
    → zcontains y (zrem x z) ≡ (not (x == y) && zcontains y z)
unfolding zrem zcontains
zcontains-zrem y x [] = ground arith
zcontains-zrem y x ((k, n) ∷ z) =
    ground (arith, eq_iff x y, eq_iff k x, eq_iff k y, zcontains-zrem y x z)

pub zcontains-zadd :
    (y x : String) (n : ℕ) (z : List (String × ℕ))
    → zcontains y (zadd n x z) ≡ (x == y || zcontains y z)
unfolding zadd zcontains
zcontains-zadd y x n z = ground (arith, eq_iff x y, zcontains-zrem y x z)

-- The region in which a number lives.
abbrev pub home : Redis → String → String
home r p = or_else (r.proxy_region p) default_region

-- Whatever is said of one number; the invariant says it of every number.
pub record Sound (r : Redis) (g p : String) : Type 0 where
  pub available_home : contains p (r.available g) ≡ true → home r p ≡ g
  pub in_use_home : contains p (r.in_use g) ≡ true → home r p ≡ g
  pub cooldown_home : zcontains p (r.cooldown g) ≡ true → home r p ≡ g
  pub available_idle : contains p (r.available g) ≡ true → r.proxy_sessions p ≡ []
  pub cooldown_idle : zcontains p (r.cooldown g) ≡ true → r.proxy_sessions p ≡ []
  pub cooldown_unavailable : zcontains p (r.cooldown g) ≡ true → contains p (r.available g) ≡ false
  pub in_use_busy : contains p (r.in_use g) ≡ true → r.proxy_sessions p ≢ []

abbrev pub Inv : Redis → Type 0
Inv r = (g p : String) → Sound r g p

sadd-ne-nil : (x : String) (s : List String) → sadd x s ≢ []
unfolding sadd contains
sadd-ne-nil x s = ground arith

srem-nil : (x : String) (s : List String) → s ≡ [] → srem x s ≡ []
unfolding srem
srem-nil x s e = rw e

contains-ne-nil : (x : String) (s : List String) → contains x s ≡ true → s ≢ []
unfolding contains
contains-ne-nil x s h = ground arith

-- A number that is taken from the available ones for a session stays sound.
take-Sound :
    (region c a b sid : String) (r : Redis) (g p : String)
    → Sound r g p
    → Sound r g c
    → Sound r region c
    → contains c (r.available region) ≡ true
    → Sound (index_session c a b sid (take_number region c r)) g p
unfolding index_session take_number update
take-Sound region c a b sid r g p v w x av = ground (
  arith,
  eq_iff region g,
  eq_iff c p,
  eq_refl c,
  eq_refl region,
  contains-srem p c (r.available g),
  contains-sadd p c (r.in_use g),
  sadd-ne-nil sid (r.proxy_sessions c),
)

-- So does a number in use that gets one more session.
index-Sound :
    (region c a b sid : String) (r : Redis) (g p : String)
    → Sound r g p
    → Sound r g c
    → Sound r region c
    → contains c (r.in_use region) ≡ true
    → Sound (index_session c a b sid r) g p
unfolding index_session update
index-Sound region c a b sid r g p v w x used =
    ground (arith, eq_iff c p, eq_refl c, sadd-ne-nil sid (r.proxy_sessions c))

claim-Sound :
    (region c a b sid : String) (r : Redis) (g p : String)
    → Inv r
    → contains c (r.available region) ≡ true
    → Sound (claim_available region c a b sid r) g p
unfolding claim_available
claim-Sound region c a b sid r g p v av =
    rw ((v region c).available_idle av)
      (take-Sound region c a b sid r g p (v g p) (v g c) (v region c) av)

-- Whatever the draws, an allocation keeps the three sets of every region apart and in step with the
-- sessions of each number.
pub allocate_script-Inv :
    (region a b sid : String) (draw : ℕ → ℕ) (r : Redis)
    → Inv r
    → Inv (allocate_script region a b sid draw r).1
unfolding allocate_script
allocate_script-Inv region a b sid draw r v =
    go (pick_available r region a b draw max_attempts []) refl
  where
    go :
        (found : Option String × List String)
        → pick_available r region a b draw max_attempts [] ≡ found
        → Inv (finish_allocate region a b sid r found).1
    go (some c, tried) e g p =
        claim-Sound region c a b sid r g p v
          (pick_available_sound r region a b draw max_attempts [] tried c e).0
    go (none, tried) e g p = elim (Option-cases (pick_in_use r a b tried (r.in_use region))) [
      | inl nothing ↦ rw (nothing, finish_allocate) (v g p)
      | inr (c, found) ↦
          rw (found, finish_allocate)
            (index-Sound region c a b sid r g p (v g p) (v g c) (v region c)
              (pick_in_use_sound r region a b tried (r.in_use region) c found).0)
    ]

pub leave-Sound :
    (region proxy sid : String) (cd : ℕ) (r : Redis) (g p : String)
    → Sound r g p
    → Sound r g proxy
    → Sound r region proxy
    → home r proxy ≡ region
    → (contains sid (r.proxy_sessions proxy) ≡ true) ⊎ (0 < cd)
    → Sound (release_script region proxy sid cd r).1 g p
unfolding release_script update
leave-Sound region proxy sid cd r g p v w x h k = ground (
  arith,
  eq_iff region g,
  eq_iff proxy p,
  eq_refl proxy,
  eq_refl region,
  contains-srem p proxy (r.available g),
  contains-srem p proxy (r.in_use g),
  contains-sadd p proxy (srem proxy (r.available g)),
  zcontains-zadd p proxy cd (r.cooldown g),
  srem-nil sid (r.proxy_sessions proxy),
  contains-ne-nil sid (r.proxy_sessions proxy),
)
