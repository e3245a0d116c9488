-- ===== src/Auth/Tests.antt =====
-- The guards at an owner's token.
use relavoi_backend.Base.{refl, ◌≡◌, ◌↔◌, [], ◌∷◌, none, some, true}
use relavoi_backend.Store.{live}
use relavoi_backend.Auth.{
  AuthRequest, JwtPayload, sdk, tenant_user, claims_of, authenticate, admin_authenticate,
  require_role, require_user_role, then_guard, is_passed, refused,
}
use relavoi_backend.Auth.Guards.{IsUser, IsOperator, guards_iff}

abbrev no_one : AuthRequest
no_one = record { tenant = none; user = none; operator = none }

abbrev owner : JwtPayload
owner = tenant_user "t1" "STARTER" "u1" "OWNER" live

-- A key of the tenant's servers has no role.
sdk_is_no_user :
    then_guard
      (authenticate (some (claims_of (sdk "t1" "STARTER" live))) no_one)
      (require_user_role ("OWNER" ∷ []))
    ≡ refused 403
unfolding authenticate require_user_role claims_of
sdk_is_no_user = refl

guards_iff_example :
    ((is_passed (
          then_guard
            (authenticate (some (claims_of owner)) no_one)
            (require_user_role ("OWNER" ∷ [])))
        ≡ true)
      ↔ IsUser ("OWNER" ∷ []) owner)
    × ((is_passed (
            then_guard
              (admin_authenticate (some (claims_of owner)) no_one)
              (require_role ("OWNER" ∷ [])))
          ≡ true)
        ↔ IsOperator ("OWNER" ∷ []) owner)
guards_iff_example = guards_iff ("OWNER" ∷ []) owner no_one
