-- ===== src/DeviceTokens.antt =====
-- The tokens of the devices that are pushed to, src/services/device-token-manager.ts.
--
-- The table `device_tokens` is the list of its rows, of which no two have a token in common
-- (src/migrations/004_device_token_unique.ts). Logs are left out.
pub mod Owner
mod Tests
use relavoi_backend.Base.{
  ℕ, ◌-◌, ◌*◌, String, Bool, true, false, ◌&&◌, List, [], ◌∷◌, Option, none, some, if◌then◌else◌,
  ◌==◌, string_eq, ltb, keep_if, suc,
}

pub data DevicePlatform : Type 0 where
  ios android : DevicePlatform

pub record RegisterTokenArgs : Type 0 where
  pub tenant_id : String
  pub user_phone_hash : String
  pub token : String
  pub platform : DevicePlatform
  pub app_bundle_id : Option String

pub record DeviceToken : Type 0 where
  pub id : String
  pub tenant_id : String
  pub user_phone_hash : String
  pub token : String
  pub platform : DevicePlatform
  pub app_bundle_id : Option String
  pub is_active : Bool
  pub last_refreshed_at : ℕ
  pub created_at : ℕ

abbrev pub new_token : String → ℕ → RegisterTokenArgs → DeviceToken
new_token id now a = record {
  id = id;
  tenant_id = a.tenant_id;
  user_phone_hash = a.user_phone_hash;
  token = a.token;
  platform = a.platform;
  app_bundle_id = a.app_bundle_id;
  is_active = true;
  last_refreshed_at = now;
  created_at = now;
}

-- `merge`: what is not among its fields is kept.
abbrev pub merge : ℕ → RegisterTokenArgs → DeviceToken → DeviceToken
merge now a r = record r {
  tenant_id = a.tenant_id;
  user_phone_hash = a.user_phone_hash;
  platform = a.platform;
  app_bundle_id = a.app_bundle_id;
  is_active = true;
  last_refreshed_at = now;
}

-- The insertion with `onConflict('token')`, and the row that it returns.
unfoldable pub upsert :
    String → ℕ → RegisterTokenArgs → List DeviceToken → DeviceToken × List DeviceToken
upsert id now a [] = (new_token id now a, new_token id now a ∷ [])
upsert id now a (r ∷ rs) =
    let rest = upsert id now a rs in
    if r.token == a.token then (merge now a r, merge now a r ∷ rs) else (rest.0, r ∷ rest.1)

-- `register`; none is a thrown error. The statement returns its row, so the second look-up is not
-- reached.
unfoldable pub register :
    String → ℕ → RegisterTokenArgs → List DeviceToken → Option DeviceToken × List DeviceToken
register id now a rows =
    let done = upsert id now a rows in if a.token == "" then (none, rows) else (some done.0, done.1)

abbrev pub owned_by : String → String → DeviceToken → Bool
owned_by tenant user r = r.tenant_id == tenant && (r.user_phone_hash == user && r.is_active)

unfoldable pub insert_by_refresh : DeviceToken → List DeviceToken → List DeviceToken
insert_by_refresh r [] = r ∷ []
insert_by_refresh r (s ∷ ss) =
    let rest = insert_by_refresh r ss in
    if ltb r.last_refreshed_at s.last_refreshed_at then s ∷ rest else r ∷ s ∷ ss

-- `orderBy('last_refreshed_at', 'desc')`.
unfoldable pub latest_first : List DeviceToken → List DeviceToken
latest_first [] = []
latest_first (r ∷ rs) = insert_by_refresh r (latest_first rs)

unfoldable pub get_tokens_for_user : String → String → List DeviceToken → List DeviceToken
get_tokens_for_user tenant user rows = latest_first (keep_if (owned_by tenant user) rows)

-- An update that clears `is_active`, with the number of rows that it changes.
unfoldable pub deactivate_where : (DeviceToken → Bool) → List DeviceToken → ℕ × List DeviceToken
deactivate_where p [] = (0, [])
deactivate_where p (r ∷ rs) =
    let rest = deactivate_where p rs in
    if p r then (suc rest.0, record r { is_active = false } ∷ rest.1) else (rest.0, r ∷ rest.1)

unfoldable pub deactivate_token : String → List DeviceToken → Bool × List DeviceToken
deactivate_token token rows =
    let (updated, after) = deactivate_where (λ r. r.token == token) rows in (ltb 0 updated, after)

-- `cleanupStaleTokens`, whose statement may throw.
unfoldable pub cleanup_stale_tokens : Bool → ℕ → ℕ → List DeviceToken → ℕ × List DeviceToken
cleanup_stale_tokens fails now stale_days rows =
    if fails
    then (0, rows)
    else deactivate_where
        (λ r. ltb r.last_refreshed_at (now - stale_days * 86400000) && r.is_active) rows
