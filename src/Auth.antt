-- ===== src/Auth.antt =====
-- The guards of the routes, src/api/middleware/auth.ts and src/api/middleware/admin-auth.ts.
--
-- A token's claims are read as they come, each a text that may be missing: the types that the
-- source gives them are not checked when it runs. Checking the token itself is Fastify's; none is a
-- token that is missing or does not verify. Logs are left out.
pub mod Guards
mod Tests
use relavoi_backend.Base.{
  ℕ, String, Bool, true, false, not, ◌||◌, ◌&&◌, List, Option, none, some, if◌then◌else◌, contains,
  or_else,
}
use relavoi_backend.Store.{Mode, sandbox, live, truthy, is_text}

pub record Claims : Type 0 where
  pub kind : Option String  -- type
  pub tenant_id : Option String
  pub tier : Option String
  pub mode : Option String
  pub user_id : Option String
  pub operator_id : Option String
  pub role : Option String

pub record Tenant : Type 0 where
  pub id : Option String
  pub tier : Option String
  pub mode : Mode

-- A user or an operator; of the claims of a token, as `jwtVerify` leaves them, only the role is read.
pub record Person : Type 0 where
  pub id : Option String
  pub role : Option String

pub record AuthRequest : Type 0 where
  pub tenant : Option Tenant
  pub user : Option Person
  pub operator : Option Person

-- A guard lets a request on, with what it attaches, or answers it by a status.
pub data Guarded : Type 0 where
  passed : AuthRequest → Guarded
  refused : ℕ → Guarded

abbrev pub is_passed : Guarded → Bool
is_passed (passed q) = true
is_passed (refused status) = false

-- `preHandler: [first, second]`.
abbrev pub then_guard : Guarded → (AuthRequest → Guarded) → Guarded
then_guard (passed q) guard = guard q
then_guard (refused status) guard = refused status

abbrev pub token_mode : Claims → Mode
token_mode p = if is_text p.mode "live" then live else sandbox

abbrev tenant_of : Claims → Tenant
tenant_of p = record { id = p.tenant_id; tier = p.tier; mode = token_mode p }

-- What `jwtVerify` leaves in `req.user`.
abbrev verified : Claims → AuthRequest → AuthRequest
verified p q = record q { user = some (record { id = none; role = p.role }) }

abbrev authenticate_claims : Claims → AuthRequest → Guarded
authenticate_claims p q =
    if is_text p.kind "operator"
    then refused 401
    else if is_text p.kind "tenant_user"
    then passed (record q {
      tenant = some (tenant_of p);
      user = some (record { id = p.user_id; role = p.role });
    })
    else if not (truthy p.tenant_id)
    then refused 401
    else passed (record (verified p q) { tenant = some (tenant_of p) })

unfoldable pub authenticate : Option Claims → AuthRequest → Guarded
authenticate none q = refused 401
authenticate (some p) q = authenticate_claims p q

abbrev has_role : List String → Option Person → Bool
has_role roles none = false
has_role roles (some person) = truthy person.role && contains (or_else person.role "") roles

unfoldable pub require_user_role : List String → AuthRequest → Guarded
require_user_role roles q = if has_role roles q.user then passed q else refused 403

unfoldable pub admin_authenticate : Option Claims → AuthRequest → Guarded
admin_authenticate none q = refused 401
admin_authenticate (some p) q =
    if not (is_text p.kind "operator") || not (truthy p.operator_id) || not (truthy p.role)
    then refused 401
    else passed
        (record (verified p q) { operator = some (record { id = p.operator_id; role = p.role }) })

abbrev operates : List String → Option Person → Bool
operates roles none = false
operates roles (some person) = contains (or_else person.role "") roles

unfoldable pub require_role : List String → AuthRequest → Guarded
require_role roles q = if operates roles q.operator then passed q else refused 403

-- `JwtPayload`: the tokens that the routes sign.
pub data JwtPayload : Type 0 where
  sdk : (tenant_id tier : String) → Mode → JwtPayload
  tenant_user : (tenant_id tier user_id role : String) → Mode → JwtPayload
  operator_token : (operator_id role : String) → JwtPayload

abbrev pub mode_text : Mode → String
mode_text live = "live"
mode_text sandbox = "sandbox"

-- The claims that are signed: of the servers of a tenant and of its users in
-- src/api/routes/tenants.ts, of an operator in src/api/routes/admin.ts.
unfoldable pub claims_of : JwtPayload → Claims
claims_of (sdk tenant_id tier mode) = record {
  kind = none;
  tenant_id = some tenant_id;
  tier = some tier;
  mode = some (mode_text mode);
  user_id = none;
  operator_id = none;
  role = none;
}
claims_of (tenant_user tenant_id tier user_id role mode) = record {
  kind = some "tenant_user";
  tenant_id = some tenant_id;
  tier = some tier;
  mode = some (mode_text mode);
  user_id = some user_id;
  operator_id = none;
  role = some role;
}
claims_of (operator_token operator_id role) = record {
  kind = some "operator";
  tenant_id = none;
  tier = none;
  mode = none;
  user_id = none;
  operator_id = some operator_id;
  role = some role;
}
