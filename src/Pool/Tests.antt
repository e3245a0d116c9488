-- ===== src/Pool/Tests.antt =====
-- The pool at concrete inputs.
use relavoi_backend.Base.{
  not, ◌&&◌, ◌||◌, ◌≡◌, refl, true, false, List, [], ◌∷◌, none, some, arith, inl, or_else, contains,
  sadd, srem, update, All, string_eq, eq_iff,
}
use relavoi_backend.Store.{Redis, NumberRow, available_status, quarantined_status}
use relavoi_backend.Pool.{default_region, zcontains}
use relavoi_backend.Pool.Allocate.{
  allocate, allocate_script, overlap, drop_empty, srandmember, any_clash, clashes, claim_available,
  finish_allocate, index_session, max_attempts, pick_available, pick_in_use, take_number,
}
use relavoi_backend.Pool.Release.{ReleaseFaults, release, release_script, reap_cooldown}
use relavoi_backend.Pool.Loading.{load_pool_from_db}
use relavoi_backend.Pool.Invariant.{Inv}
use relavoi_backend.Pool.Allocation.{Granted, allocate-Granted, allocate_script_complete}
use relavoi_backend.Pool.Lifecycle.{allocates, releases, reaps, here, next, Apart, Reach-Apart}
use relavoi_backend.Pool.Reaping.{is_rested, reap_cooldown_lem}
use relavoi_backend.Pool.Load.{Loaded, load-Loaded}
use relavoi_backend.Examples.{one_number}

abbrev no_faults : ReleaseFaults
no_faults = record { region_read = false; script = false; table = false }

abbrev after : Redis
after = (allocate false none "ha" "hb" "s1" (λ i. 3) one_number).1

granted : (allocate false none "ha" "hb" "s1" (λ i. 3) one_number).0 ≡ some "+2341"
unfolding allocate allocate_script drop_empty srandmember overlap any_clash clashes claim_available
    finish_allocate index_session max_attempts pick_available pick_in_use take_number contains
    update sadd srem
granted = refl

allocate-Granted_example :
    Granted (or_else none default_region) "ha" "hb" "s1" "+2341" one_number after
allocate-Granted_example =
    allocate-Granted false none "ha" "hb" "s1" (λ i. 3) one_number "+2341" granted

one_number-Inv : Inv one_number
unfolding contains zcontains
one_number-Inv g p = ground (arith, eq_iff g "lagos")

held : contains "s1" (after.proxy_sessions "+2341") ≡ true
unfolding allocate allocate_script drop_empty srandmember overlap any_clash clashes claim_available
    finish_allocate index_session max_attempts pick_available pick_in_use take_number contains
    update sadd srem
held = refl

abbrev rested : Redis
rested = (release no_faults none "+2341" "s1" 30 1000 after []).1

Reach-Apart_example :
    Apart (reap_cooldown false false "lagos" 2000000 rested []).1 "lagos" "abuja" "+2341"
Reach-Apart_example =
    Reach-Apart
      (next
        (next (next here (allocates false none "ha" "hb" "s1" (λ i. 3)))
          (releases no_faults none "+2341" "s1" 30 1000 [] refl (inl held)))
        (reaps false false "lagos" 2000000 []))
      one_number-Inv "lagos" "abuja" "+2341"

-- A number of another region whose region cannot be read rests in the default one, and is still in
-- use in its own.
abbrev abroad : Redis
abroad = record one_number {
  in_use = update one_number.in_use "abuja" ("+2342" ∷ []);
  proxy_region = λ p. some "abuja";
  proxy_sessions = λ p. "s1" ∷ [];
}

abbrev misplaced : Redis
misplaced =
    (release (record no_faults { region_read = true }) none "+2342" "s1" 30 1000 abroad []).1

is_misplaced :
    (contains "+2342" (misplaced.in_use "abuja") ≡ true)
    × (zcontains "+2342" (misplaced.cooldown default_region) ≡ true)
unfolding contains release release_script update srem zcontains
is_misplaced = (refl, refl)

abbrev no_numbers : Redis
no_numbers = record one_number { available = λ region. [] }

no_numbers-Inv : Inv no_numbers
unfolding contains zcontains
no_numbers-Inv g p = ground arith

refused : (allocate_script "lagos" "ha" "hb" "s1" (λ i. 0) no_numbers).0 ≡ none
unfolding allocate_script srandmember finish_allocate max_attempts pick_available pick_in_use
    contains
refused = refl

allocate_script_complete_example :
    (no_numbers.available "lagos" ≡ [])
    × All (λ c. overlap no_numbers "ha" "hb" c ≡ true) (no_numbers.in_use "lagos")
allocate_script_complete_example =
    allocate_script_complete "lagos" "ha" "hb" "s1" (λ i. 0) no_numbers no_numbers-Inv refused

abbrev table : List NumberRow
table =
    record {
      number = "+1";
      region = none;
      status = available_status;
      cooldown_until = none;
      last_used_at = none;
    }
    ∷ record {
      number = "+2";
      region = some "abuja";
      status = quarantined_status;
      cooldown_until = none;
      last_used_at = none;
    }
    ∷ []

load-Loaded_example :
    All (λ row. Loaded ("+1" ∷ []) row (load_pool_from_db ("+1" ∷ []) 5 table one_number)) table
load-Loaded_example =
    load-Loaded ("+1" ∷ []) 5 table one_number
      (((λ e. absurd (ground (arith, eq_iff "+2" "+1"))), tt), (tt, tt))

abbrev resting : Redis
resting = record one_number { cooldown = λ region. ("+1", 50) ∷ ("+2", 150) ∷ [] }

reap_cooldown_example :
    (contains "+1" ((reap_cooldown false false "lagos" 100 resting []).1.available "lagos") ≡ (
      contains "+1" (resting.available "lagos") || is_rested 100 "+1" (resting.cooldown "lagos")))
    × (zcontains "+1" ((reap_cooldown false false "lagos" 100 resting []).1.cooldown "lagos") ≡ (
        zcontains "+1" (resting.cooldown "lagos")
        && not (is_rested 100 "+1" (resting.cooldown "lagos"))))
reap_cooldown_example = reap_cooldown_lem false "lagos" 100 resting [] "lagos" "+1"
