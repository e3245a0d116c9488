-- ===== src/Session/Apart/Created.antt =====
-- Every step of `createSession` only adds its own session.
use relavoi_backend.Base.{
  ◌≡◌, inl, inr, refl, sym, ap, ◌∙◌, subst, String, Bool, true, false, string_eq, nat_eq, List, [],
  Option, none, some, or_else, arith, contains, contains-sadd, contains-srem, update, eq_iff,
  Bool-cases, Option-cases, ℕ,
}
use relavoi_backend.Store.{Redis, NumberRow, no_hash}
use relavoi_backend.Pool.{default_region}
use relavoi_backend.Pool.Allocate.{
  overlap, index_session, take_number, claim_available, pick_available, pick_in_use, max_attempts,
  finish_allocate, allocate_script, drop_empty, allocate,
}
use relavoi_backend.Pool.Candidates.{pick_available_sound, pick_in_use_sound}
use relavoi_backend.Pool.Release.{
  ReleaseFaults, release, release_script, finish_release, give_back, leave_proxy, region_of,
  cooldown_until_ms,
}
use relavoi_backend.Session.Apart.Creation.{Adds, IsOwn}

module _ (a b sid : String) (r : Redis) where
  index-Adds :
      (c : String)
      → overlap r a b c ≡ false
      → r.session sid ≡ no_hash
      → Adds a b sid r (index_session c a b sid r)
  unfolding index_session update
  index-Adds c free new = record {
    members = λ p s m.
        ground (arith, free, m, eq_iff c p, eq_iff sid s, contains-sadd s sid (r.proxy_sessions c));
    others = λ s ne. refl;
    own = inl new;
  }

  claim-Adds :
      (region c : String)
      → overlap r a b c ≡ false
      → r.session sid ≡ no_hash
      → Adds a b sid r (claim_available region c a b sid r)
  unfolding claim_available index_session take_number update
  claim-Adds region c free new = record {
    members = λ p s m.
        ground (arith, free, m, eq_iff c p, eq_iff sid s, contains-sadd s sid (r.proxy_sessions c));
    others = λ s ne. ground arith;
    own = inl (ground (arith, new));
  }

  pub same-Adds : r.session sid ≡ no_hash → Adds a b sid r r
  same-Adds new = record { members = λ p s m. inl m; others = λ s ne. refl; own = inl new }

  allocate_script-Adds :
      (region : String) (draw : ℕ → ℕ)
      → r.session sid ≡ no_hash
      → Adds a b sid r (allocate_script region a b sid draw r).1
  unfolding allocate_script
  allocate_script-Adds region draw new = go (pick_available r region a b draw max_attempts []) refl
    where
      go :
          (found : Option String × List String)
          → pick_available r region a b draw max_attempts [] ≡ found
          → Adds a b sid r (finish_allocate region a b sid r found).1
      go (some c, tried) e =
          claim-Adds region c (pick_available_sound r region a b draw max_attempts [] tried c e).1
            new
      go (none, tried) e = elim (Option-cases (pick_in_use r a b tried (r.in_use region))) [
        | inl nothing ↦ rw (nothing, finish_allocate) (same-Adds new)
        | inr (c, found) ↦
            rw (found, finish_allocate)
              (index-Adds c (pick_in_use_sound r region a b tried (r.in_use region) c found).1 new)
      ]

  pub allocate-Adds :
      (fails : Bool) (region : Option String) (draw : ℕ → ℕ)
      → r.session sid ≡ no_hash
      → Adds a b sid r (allocate fails region a b sid draw r).1
  unfolding allocate
  allocate-Adds true region draw new = same-Adds new
  allocate-Adds false region draw new =
      kept (allocate_script (or_else region default_region) a b sid draw r)
        (allocate_script-Adds (or_else region default_region) draw new)
    where
      kept : (t : Option String × Redis) → Adds a b sid r t.1 → Adds a b sid r (drop_empty t).1
      kept (none, v) d = d
      kept (some p, v) d = d

  release_script-session :
      (region proxy k : String) (cd : ℕ) (v : Redis)
      → (release_script region proxy k cd v).1.session ≡ v.session
  unfolding release_script leave_proxy give_back
  release_script-session region proxy k cd v = ground arith

  release_script-contains :
      (region proxy k : String) (cd : ℕ) (v : Redis) (p s : String)
      → contains s ((release_script region proxy k cd v).1.proxy_sessions p) ≡ true
      → contains s (v.proxy_sessions p) ≡ true
  unfolding release_script leave_proxy give_back update
  release_script-contains region proxy k cd v p s m =
      ground (arith, m, contains-srem s k (v.proxy_sessions proxy), eq_iff proxy p)

  release_script-Adds :
      (region proxy k : String) (cd : ℕ) (v : Redis)
      → Adds a b sid r v
      → Adds a b sid r (release_script region proxy k cd v).1
  release_script-Adds region proxy k cd v d =
      let same = release_script-session region proxy k cd v in
      record {
        members = λ p s m. d.members p s (release_script-contains region proxy k cd v p s m);
        others = λ s ne. ap (λ m. m s) same ∙ d.others s ne;
        own = subst (λ m. IsOwn a b sid r (m sid)) (sym same) d.own;
      }

  -- A release takes members away and leaves the hashes.
  pub release-Adds :
      (f : ReleaseFaults) (region : Option String) (proxy k : String) (minutes now : ℕ) (v : Redis)
      (rows : List NumberRow)
      → Adds a b sid r v
      → Adds a b sid r (release f region proxy k minutes now v rows).1
  unfolding release
  release-Adds f region proxy k minutes now v rows d = elim (Bool-cases f.script) [
    | inl down ↦ rw down d
    | inr up ↦
        rw (up, finish_release)
          (release_script-Adds (region_of f.region_read region proxy v) proxy k
            (cooldown_until_ms minutes now) v d)
  ]
