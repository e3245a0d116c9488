-- ===== src/Pool/Loading.antt =====
-- `NumberPool.loadPoolFromDb`.
use relavoi_backend.Base.{
  ℕ, String, Bool, true, false, ◌&&◌, not, List, [], ◌∷◌, some, nat_eq, string_eq, if◌then◌else◌,
  or_else, contains, sadd, srem, update,
}
use relavoi_backend.Store.{
  Redis, NumberRow, NumberStatus, available_status, in_use_status, cooldown_status,
  quarantined_status,
}
use relavoi_backend.Pool.{default_region, zrem, zadd}

pub data Place : Type 0 where
  in_available in_in_use in_cooldown in_none : Place

status_place : NumberStatus → Place
status_place available_status = in_available
status_place in_use_status = in_in_use
status_place cooldown_status = in_cooldown
status_place quarantined_status = in_none

is_quarantined : NumberStatus → Bool
is_quarantined quarantined_status = true
is_quarantined _ = false

-- The ladder of `loadPoolFromDb`: `held` are the numbers of the sessions in service.
unfoldable pub place_of : List String → NumberRow → Place
unfolding status_place is_quarantined
place_of held row =
    if contains row.number held && not (is_quarantined row.status)
    then in_in_use
    else status_place row.status

unfoldable pub put_at : Place → String → String → ℕ → Redis → Redis
put_at in_available region p until r = record r {
  available = update r.available region (sadd p (r.available region));
  in_use = update r.in_use region (srem p (r.in_use region));
  cooldown = update r.cooldown region (zrem p (r.cooldown region));
}
put_at in_in_use region p until r = record r {
  in_use = update r.in_use region (sadd p (r.in_use region));
  available = update r.available region (srem p (r.available region));
  cooldown = update r.cooldown region (zrem p (r.cooldown region));
}
put_at in_cooldown region p until r = record r {
  cooldown = update r.cooldown region (zadd until p (r.cooldown region));
  available = update r.available region (srem p (r.available region));
  in_use = update r.in_use region (srem p (r.in_use region));
}
put_at in_none region p until r = record r {
  available = update r.available region (srem p (r.available region));
  in_use = update r.in_use region (srem p (r.in_use region));
  cooldown = update r.cooldown region (zrem p (r.cooldown region));
}

-- `r.region ?? DEFAULT_REGION`.
abbrev pub row_region : NumberRow → String
row_region row = or_else row.region default_region

unfoldable pub load_row : List String → ℕ → NumberRow → Redis → Redis
load_row held now row r =
    put_at (place_of held row) (row_region row) row.number (or_else row.cooldown_until now)
      (record r { proxy_region = update r.proxy_region row.number (some (row_region row)) })

-- The pipeline of `NumberPool.loadPoolFromDb`, over the rows of the table.
unfoldable pub load_pool_from_db : List String → ℕ → List NumberRow → Redis → Redis
load_pool_from_db held now [] r = r
load_pool_from_db held now (row ∷ rows) r =
    load_pool_from_db held now rows (load_row held now row r)
