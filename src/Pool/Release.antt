-- ===== src/Pool/Release.antt =====
-- `NumberPool.release` with RELEASE_SCRIPT, and `reapCooldown`.
use relavoi_backend.Base.{
  ℕ, ◌+◌, ◌*◌, String, Bool, true, false, ◌&&◌, not, List, [], ◌∷◌, map, Option, none, some, ltb,
  ◌==◌, nat_eq, string_eq, if◌then◌else◌, or_else, or_option, length, contains, sadd, srem, update,
}
use relavoi_backend.Store.{Redis, NumberRow, available_status, cooldown_status}
use relavoi_backend.Pool.{default_region, zrem, zadd, zrange_to}

-- What RELEASE_SCRIPT does to a number that no session holds any longer.
unfoldable pub give_back : String → String → ℕ → Redis → Redis
unfolding zadd
give_back region proxy cd_until r =
    if ltb 0 cd_until
    then record r {
      in_use = update r.in_use region (srem proxy (r.in_use region));
      available = update r.available region (srem proxy (r.available region));
      cooldown = update r.cooldown region (zadd cd_until proxy (r.cooldown region));
    }
    else record r {
      in_use = update r.in_use region (srem proxy (r.in_use region));
      available = update r.available region (sadd proxy (srem proxy (r.available region)));
    }

unfoldable pub leave_proxy : String → String → Redis → Redis
leave_proxy proxy sid r = record r {
  proxy_sessions = update r.proxy_sessions proxy (srem sid (r.proxy_sessions proxy));
}

-- RELEASE_SCRIPT.
unfoldable pub release_script : String → String → String → ℕ → Redis → Bool × Redis
unfolding give_back leave_proxy
release_script region proxy sid cd_until r =
    let r' = leave_proxy proxy sid r in
    if length (r'.proxy_sessions proxy) == 0
    then (true, give_back region proxy cd_until r')
    else (false, r')

-- The `UPDATE proxy_numbers` of `release`.
rest_row : String → ℕ → ℕ → NumberRow → NumberRow
rest_row proxy cd_until now row =
    if row.number == proxy
    then record row {
      status = if ltb 0 cd_until then cooldown_status else available_status;
      cooldown_until = if ltb 0 cd_until then some cd_until else none;
      last_used_at = some now;
    }
    else row

-- Which calls of a release throw: the read of the region, the script, the update of the table.
pub record ReleaseFaults : Type 0 where
  pub region_read : Bool
  pub script : Bool
  pub table : Bool

unfoldable pub finish_release :
    ReleaseFaults → String → ℕ → ℕ → List NumberRow → Bool × Redis → Bool × Redis × List NumberRow
unfolding rest_row
finish_release f proxy cd_until now rows (returned, r) =
    (returned, r, if returned && not f.table then map (rest_row proxy cd_until now) rows else rows)

-- `Date.now() + cooldownMinutes * 60_000`, or 0 for no cooldown.
abbrev pub cooldown_until_ms : ℕ → ℕ → ℕ
cooldown_until_ms minutes now = if ltb 0 minutes then now + minutes * 60000 else 0

abbrev pub region_of : Bool → Option String → String → Redis → String
region_of read_fails region proxy r =
    or_else (or_option region (if read_fails then none else r.proxy_region proxy)) default_region

-- `NumberPool.release`.
unfoldable pub release :
    ReleaseFaults
    → Option String
    → String
    → String
    → ℕ
    → ℕ
    → Redis
    → List NumberRow
    → Bool × Redis × List NumberRow
unfolding finish_release
release f region proxy sid minutes now r rows =
    if f.script
    then (false, r, rows)
    else finish_release f proxy (cooldown_until_ms minutes now) now rows (
        release_script (region_of f.region_read region proxy r) proxy sid
          (cooldown_until_ms minutes now) r)

-- The pipeline of `reapCooldown`.
unfoldable pub reap_all : String → List String → Redis → Redis
unfolding zrem
reap_all region [] r = r
reap_all region (proxy ∷ rest) r = reap_all region rest (record r {
  cooldown = update r.cooldown region (zrem proxy (r.cooldown region));
  available = update r.available region (sadd proxy (r.available region));
})

unfoldable pub wake_row : List String → NumberRow → NumberRow
wake_row expired row =
    if contains row.number expired
    then record row { status = available_status; cooldown_until = none }
    else row

-- `NumberPool.reapCooldown`.
unfoldable pub reap_cooldown :
    Bool → Bool → String → ℕ → Redis → List NumberRow → ℕ × Redis × List NumberRow
unfolding reap_all wake_row zrange_to
reap_cooldown fails table_fails region now r rows =
    if fails
    then (0, r, rows)
    else let expired = zrange_to now (r.cooldown region) in
      (
        length expired,
        reap_all region expired r,
        if table_fails then rows else map (wake_row expired) rows,
      )
