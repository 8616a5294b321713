-- ===== src/Backend/Gates.antt =====
-- The role gates of backend/internal/auth/middleware.go and the routes of backend/cmd/server/main.go
-- that stand behind one. The frontend's own gates are compared with them.
use mathlib.Core.Option
use nexus_cloud_identity_acc.Common.{
  Bool, true, false, Option, none, some, List, [], ◌∷◌, ◌≡◌, refl, sym, ◌∙◌, ◌==◌, includes, map,
  ◌↔◌, if◌then◌else◌, not, ◌&&◌,
}
use nexus_cloud_identity_acc.Types.{
  Role, super_admin, admin, security_manager, analyst, role_name, User,
}
use nexus_cloud_identity_acc.Types.Roles.{role_eq_iff}
use nexus_cloud_identity_acc.Auth.{has_role}
use nexus_cloud_identity_acc.Pages.Policies.{can_manage}
use nexus_cloud_identity_acc.Shell.Guard.Access.{may_view}
use nexus_cloud_identity_acc.Shell.Guard
use nexus_cloud_identity_acc.Backend.Rbac.{has_permission, audit_read}

-- 401, 403, or the handler
pub data Gate : Type 0 where
  unauthorized forbidden next : Gate

-- `RequireRole(role)` on the claims in the request's context
unfoldable pub require_role : Role → Option Role → Gate
require_role role none = unauthorized
require_role role (some claimed) =
    if not (role_name claimed == role_name role) && not (role_name claimed == "super_admin")
    then forbidden
    else next

-- `RequireAnyRole(roles...)`
unfoldable pub require_any_role : List Role → Option Role → Gate
require_any_role given none = unauthorized
require_any_role given (some claimed) =
    if includes (map role_name (super_admin ∷ given)) (role_name claimed) then next else forbidden

unfoldable pub users_gate : Option Role → Gate
unfolding require_role
users_gate = require_role admin

unfoldable pub manage_policies_gate : Option Role → Gate
unfolding require_any_role
manage_policies_gate = require_any_role (admin ∷ security_manager ∷ [])

unfoldable pub audit_gate : Option Role → Gate
unfolding require_any_role
audit_gate = require_any_role (admin ∷ security_manager ∷ [])

abbrev pub lets_in : Gate → Bool
lets_in next = true
lets_in _ = false

policies_at :
    (u : User) (r : Role)
    → can_manage (some (record u { role = r })) ≡ lets_in (manage_policies_gate (some r))
unfolding can_manage has_role manage_policies_gate
policies_at u super_admin = refl
policies_at u _ = refl

-- The policy page offers creation and deletion to exactly the users whose role the server's gate lets
-- through for both, and to nobody without a user.
pub can_manage-gate :
    (u : Option User) → can_manage u ≡ lets_in (manage_policies_gate (Option.map (λ v. v.role) u))
can_manage-gate none = unfold can_manage has_role manage_policies_gate in refl
can_manage-gate (some u) = policies_at u u.role

-- The users page opens for exactly the roles that the server lets list the users.
pub users_page-gate : (r : Role) → may_view r Guard.users ≡ lets_in (users_gate (some r))
unfolding users_gate
users_page-gate super_admin = refl
users_page-gate _ = refl

audit_at :
    (r : Role)
    → (may_view r Guard.audit && not (lets_in (audit_gate (some r)))) ≡ (role_name r == "analyst")
unfolding audit_gate
audit_at super_admin = refl
audit_at _ = refl

-- The audit page opens for a role whose requests for the events the server then refuses exactly when the
-- role is analyst, which the permission table grants `audit.read`.
pub audit_page-gate :
    (r : Role)
    → (((may_view r Guard.audit && not (lets_in (audit_gate (some r)))) ≡ true) ↔ (r ≡ analyst))
      × (has_permission analyst audit_read ≡ true)
audit_page-gate r = (
  (
    λ h. (role_eq_iff r analyst).0 (sym (audit_at r) ∙ h),
    λ e. audit_at r ∙ (role_eq_iff r analyst).1 e,
  ),
  unfold has_permission in refl,
)
