-- ===== src/Session/Tests.antt =====
-- The session manager at concrete inputs.
use relavoi_backend.Base.{
  ◌≡◌, refl, true, false, List, [], ◌∷◌, ◌++◌, none, some, replicate, ◌==◌, bytes_eq, string_eq,
  if◌then◌else◌, arith, eq_iff,
}
use relavoi_backend.Store.{SessionRow, live, bidirectional, no_prompt, active, expired}
use relavoi_backend.Session.{World, ok, err, thrown}
use relavoi_backend.Session.Create.{
  CreateArgs, CreateFaults, Answers, create_session, new_row, with_number, allotment,
}
use relavoi_backend.Session.Create.Success.{IsOpen, create_session-IsOpen}
use relavoi_backend.Session.Create.Failure.{RolledBack, with_number-RolledBack}
use relavoi_backend.Session.Create.{
  with_config, finish_create, roll_back, with_release, opening, insert_row, activate_row,
  write_hash, expire_hash, track_active,
}
use relavoi_backend.Session.{load_tenant_config, cached_config, attempt, update_row}
use relavoi_backend.Pool.Allocate.{
  allocate, allocate_script, drop_empty, srandmember, overlap, any_clash, clashes, claim_available,
  finish_allocate, index_session, max_attempts, pick_available, pick_in_use, take_number,
}
use relavoi_backend.Pool.Release.{release, release_script, finish_release, give_back, leave_proxy}
use relavoi_backend.Pool.{zadd, zrem}
use relavoi_backend.Cache.{get, find, set, put}
use relavoi_backend.Base.{contains, update, sadd, srem}
use relavoi_backend.Crypto.{encrypt_phone, hash_phone, derive_key}
use relavoi_backend.Session.Expire.{expire_session}
use relavoi_backend.Session.Expire.Cleanup.{IsGone, expire_session-IsGone}
use relavoi_backend.Session.Keeps.{Holds, IsKeyed}
use relavoi_backend.Session.Lifecycle.{
  Call, creating, concluding, expiring, retargeting, perform_all, DrawsOther, perform_all-Holds,
}
use relavoi_backend.Base.{All, Bool-cases, inl, inr}
use relavoi_backend.Examples.{down_pool, env, no_release_faults, quiet, agent, customer, plain}
use relavoi_backend.Crypto.{Phone}
use relavoi_backend.Base.{false, String}
use relavoi_backend.Session.Swap.{SwapFaults, swap_target}
use relavoi_backend.Session.Apart.{ApartOn, swap_target-ApartOn}
use relavoi_backend.Session.Apart.Kept.{create_session-ApartOn}
use relavoi_backend.Examples.{order_row, one_order, one_order-IsApart}

abbrev pub order_call : CreateArgs
order_call = record {
  tenant_id = "t1";
  mode = some live;
  agent_phone = agent;
  customer_phone = customer;
  grace_period_minutes = none;
  max_duration_minutes = none;
  direction_mode = none;
  recording_enabled = none;
  consent_prompt = none;
  region = none;
}

abbrev pub no_faults : CreateFaults
no_faults = record {
  config_read = false;
  allocation = false;
  insert = false;
  activate = false;
  hset = false;
  expire = false;
  sadd_active = false;
  read_back = false;
  release = no_release_faults;
  mark_failed = false;
}

abbrev pub answers : Answers
answers = record {
  faults = no_faults;
  session_id = "s1";
  iv_a = replicate 12 1;
  iv_b = replicate 12 2;
  draw = λ i. 0;
  now = 1000;
}

abbrev pub opened : SessionRow
opened = record {
  id = "s1";
  tenant_id = "t1";
  party_a_phone_enc = replicate 12 1 ++ (replicate 16 0 ++ agent);
  party_b_phone_enc = replicate 12 2 ++ (replicate 16 0 ++ customer);
  party_a_phone_hash = "hash-agent";
  party_b_phone_hash = "hash-customer";
  proxy_number = "+2341";
  state = active;
  direction_mode = bidirectional;
  grace_period_min = 60;
  max_duration_min = 1440;
  recording_enabled = false;
  consent_prompt = no_prompt;
  mode = live;
  expires_at = 86401000;
  created_at = 1000;
  activated_at = some 1000;
  ended_at = none;
  expired_at = none;
  call_count = 0;
}

created : (create_session plain env order_call answers quiet).0 ≡ ok opened
unfolding create_session with_config with_number allotment new_row finish_create roll_back
    with_release opening insert_row activate_row write_hash expire_hash track_active
    load_tenant_config cached_config attempt update_row allocate allocate_script drop_empty
    srandmember overlap any_clash clashes claim_available finish_allocate index_session max_attempts
    pick_available pick_in_use take_number release release_script finish_release give_back
    leave_proxy get find set put contains update sadd srem encrypt_phone hash_phone derive_key zadd
    zrem
created = refl

create_session-IsOpen_example : IsOpen opened (create_session plain env order_call answers quiet).1
create_session-IsOpen_example =
    create_session-IsOpen plain env order_call answers quiet opened (omega arith) created

abbrev hset_down : Answers
hset_down = record answers { faults = record no_faults { hset = true } }

allotted : (allotment plain order_call hset_down quiet).0 ≡ some "+2341"
unfolding create_session with_config with_number allotment new_row finish_create roll_back
    with_release opening insert_row activate_row write_hash expire_hash track_active
    load_tenant_config cached_config attempt update_row allocate allocate_script drop_empty
    srandmember overlap any_clash clashes claim_available finish_allocate index_session max_attempts
    pick_available pick_in_use take_number release release_script finish_release give_back
    leave_proxy get find set put contains update sadd srem encrypt_phone hash_phone derive_key zadd
    zrem
allotted = refl

hset_fails :
    (with_number plain order_call hset_down 60 1440 quiet
      (allotment plain order_call hset_down quiet)).0
    ≡ err thrown
unfolding create_session with_config with_number allotment new_row finish_create roll_back
    with_release opening insert_row activate_row write_hash expire_hash track_active
    load_tenant_config cached_config attempt update_row allocate allocate_script drop_empty
    srandmember overlap any_clash clashes claim_available finish_allocate index_session max_attempts
    pick_available pick_in_use take_number release release_script finish_release give_back
    leave_proxy get find set put contains update sadd srem encrypt_phone hash_phone derive_key zadd
    zrem
hset_fails = refl

with_number-RolledBack_example :
    RolledBack hset_down.faults
      (new_row plain order_call hset_down 60 1440 "+2341")
      (with_number plain order_call hset_down 60 1440 quiet
        (allotment plain order_call hset_down quiet)).1
with_number-RolledBack_example =
    with_number-RolledBack plain order_call hset_down 60 1440 quiet "+2341" thrown refl allotted
      hset_fails

abbrev holding : SessionRow → World
holding row = record quiet { rows = λ id. if "s1" == id then some row else none }

expire_session-IsGone_example :
    ((expire_session env down_pool "s1" 5000 (holding opened)).0 ≡ ok true)
    × ((expire_session env down_pool "s1" 5000 (holding opened)).1.rows "s1"
        ≡ some (record opened { state = expired; expired_at = some 5000 }))
    × IsGone opened (expire_session env down_pool "s1" 5000 (holding opened)).1
expire_session-IsGone_example =
    expire_session-IsGone env down_pool opened 5000 (holding opened) refl refl
      (record {
        del = refl;
        srem_proxy = refl;
        srem_party_a = refl;
        srem_party_b = refl;
        srem_active = refl;
      })
      refl refl

abbrev over : SessionRow
over = record opened { state = expired; expired_at = some 5000 }

holding-IsKeyed : IsKeyed (holding over)
unfolding IsKeyed
holding-IsKeyed id row = elim (Bool-cases ("s1" == id)) [
  | inl same ↦ rw same λ e. ground (arith, eq_iff "s1" id)
  | inr other ↦ rw other λ e. absurd cc
]

abbrev later_calls : List Call
later_calls =
    concluding (record { read = false; update = false; hset = false; expire = false }) "s1" "t1"
      6000
    ∷ creating env order_call (record answers { session_id = "s2" })
    ∷ expiring env down_pool "s1" 7000
    ∷ retargeting
        (record {
          read = false;
          siblings = false;
          update = false;
          script = false;
          read_back = false;
        })
        (replicate 12 3) "s1" "t1" agent
    ∷ []

fresh_id : All (DrawsOther "s1") later_calls
unfolding DrawsOther
fresh_id = (tt, ((λ same. absurd (ground (arith, eq_iff "s2" "s1"))), (tt, (tt, tt))))

perform_all-Holds_example : Holds "s1" over (perform_all plain later_calls (holding over))
perform_all-Holds_example =
    perform_all-Holds plain "s1" over later_calls (holding over) refl fresh_id holding-IsKeyed refl

abbrev busy : World
busy = record quiet { redis = one_order; rows = λ id. if "s1" == id then some order_row else none }

abbrev second : Answers
second = record answers { session_id = "s2" }

second_is_new : (number : String) → contains "s2" (one_order.proxy_sessions number) ≡ false
unfolding contains
second_is_new number = elim (Bool-cases (number == "+2341")) [
  | inl same ↦ rw same refl
  | inr other ↦ rw other refl
]

create_session-ApartOn_example : ApartOn "+2341" (create_session plain env order_call second busy).1
create_session-ApartOn_example =
    create_session-ApartOn plain env order_call second busy "+2341" refl second_is_new
      one_order-IsApart

abbrev no_swap_faults : SwapFaults
no_swap_faults = record {
  read = false;
  siblings = false;
  update = false;
  script = false;
  read_back = false;
}

abbrev newcomer : Phone
newcomer = b'+' ∷ b'2' ∷ b'3' ∷ b'4' ∷ b'8' ∷ b'0' ∷ b'3' ∷ b'3' ∷ b'3' ∷ []

swap_target-ApartOn_example :
    ApartOn "+2341" (swap_target plain no_swap_faults (replicate 12 5) "s1" "t1" newcomer busy).1
swap_target-ApartOn_example =
    swap_target-ApartOn plain no_swap_faults (replicate 12 5) "s1" "t1" newcomer busy order_row refl
      one_order-IsApart
