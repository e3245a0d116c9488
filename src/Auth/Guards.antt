-- ===== src/Auth/Guards.antt =====
-- Which tokens the guards let on.
use mathlib.Core.Bool.{false≢true}
use relavoi_backend.Base.{
  ◌↔◌, ◌↔◌, ◌≡◌, ◌≢◌, String, true, List, some, contains, arith, eq_iff, string_eq,
}
use relavoi_backend.Store.{Mode}
use relavoi_backend.Auth.{
  AuthRequest, JwtPayload, sdk, tenant_user, operator_token, claims_of, authenticate,
  admin_authenticate, require_role, require_user_role, then_guard, is_passed,
}

-- The tokens of the dashboard's users who have one of the roles, and those of such operators.
pub data IsUser (roles : List String) : JwtPayload → Type 0 where
  user_of :
      (tenant_id tier user_id role : String) (mode : Mode)
      → role ≢ ""
      → contains role roles ≡ true
      → IsUser roles (tenant_user tenant_id tier user_id role mode)

pub data IsOperator (roles : List String) : JwtPayload → Type 0 where
  operator_of :
      (operator_id role : String)
      → operator_id ≢ ""
      → role ≢ ""
      → contains role roles ≡ true
      → IsOperator roles (operator_token operator_id role)

dashboard_passes :
    (roles : List String) (j : JwtPayload) (q : AuthRequest)
    → IsUser roles j
    → is_passed (then_guard (authenticate (some (claims_of j)) q) (require_user_role roles)) ≡ true
unfolding authenticate require_user_role claims_of
dashboard_passes roles j q (user_of tenant_id tier user_id role mode some_role has) =
    ground (arith, some_role, has, eq_iff role "")

dashboard_guards-IsUser :
    (roles : List String) (j : JwtPayload) (q : AuthRequest)
    → is_passed (then_guard (authenticate (some (claims_of j)) q) (require_user_role roles)) ≡ true
    → IsUser roles j
unfolding authenticate require_user_role claims_of
dashboard_guards-IsUser roles (sdk tenant_id tier mode) q h = ground (arith, h)
dashboard_guards-IsUser roles (tenant_user tenant_id tier user_id role mode) q h =
    let (some_role, has) : (role ≢ "") × (contains role roles ≡ true) =
      (ground (arith, h, eq_iff role ""), ground (arith, h, eq_iff role "")) in
    user_of tenant_id tier user_id role mode some_role has
dashboard_guards-IsUser roles (operator_token operator_id role) q h = absurd (false≢true h)

admin_passes :
    (roles : List String) (j : JwtPayload) (q : AuthRequest)
    → IsOperator roles j
    → is_passed (then_guard (admin_authenticate (some (claims_of j)) q) (require_role roles)) ≡ true
unfolding admin_authenticate require_role claims_of
admin_passes roles j q (operator_of operator_id role some_id some_role has) =
    ground (arith, some_id, some_role, has, eq_iff role "", eq_iff operator_id "")

admin_guards-IsOperator :
    (roles : List String) (j : JwtPayload) (q : AuthRequest)
    → is_passed (then_guard (admin_authenticate (some (claims_of j)) q) (require_role roles)) ≡ true
    → IsOperator roles j
unfolding admin_authenticate require_role claims_of
admin_guards-IsOperator roles (sdk tenant_id tier mode) q h = absurd (false≢true h)
admin_guards-IsOperator roles (tenant_user tenant_id tier user_id role mode) q h =
    absurd (false≢true h)
admin_guards-IsOperator roles (operator_token operator_id role) q h =
    let (some_id, some_role, has) : (operator_id ≢ "")
        × (role ≢ "")
        × (contains role roles ≡ true) =
      (
        ground (arith, h, eq_iff operator_id ""),
        ground (arith, h, eq_iff role ""),
        ground (arith, h, eq_iff role ""),
      ) in
    operator_of operator_id role some_id some_role has

-- Of the tokens that the program signs, the routes of the dashboard let on exactly those of a
-- tenant's users whose role is not empty and one of the route's, and the routes of the
-- administration exactly those of an operator of whom the same holds and whose id is not empty. So no
-- token of a tenant is let on by the administration, and none of an operator by the dashboard.
pub guards_iff :
    (roles : List String) (j : JwtPayload) (q : AuthRequest)
    → ((is_passed (then_guard (authenticate (some (claims_of j)) q) (require_user_role roles))
          ≡ true)
        ↔ IsUser roles j)
      × ((is_passed (then_guard (admin_authenticate (some (claims_of j)) q) (require_role roles))
            ≡ true)
          ↔ IsOperator roles j)
guards_iff roles j q = (
  (dashboard_guards-IsUser roles j q, dashboard_passes roles j q),
  (admin_guards-IsOperator roles j q, admin_passes roles j q),
)
