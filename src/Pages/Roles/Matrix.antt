-- ===== src/Pages/Roles/Matrix.antt =====
-- frontend/src/pages/RolesPage.tsx against backend/internal/rbac/permissions.go.
use mathlib.Core.Option
use nexus_cloud_identity_acc.Common.{
  String, Option, none, some, ◌≡◌, refl, ◌==◌, find, if◌then◌else◌,
}
use nexus_cloud_identity_acc.Types.{
  Role, super_admin, admin, security_manager, developer, analyst, viewer, user, role_name,
}
use nexus_cloud_identity_acc.Backend.Rbac.{has_permission}
use nexus_cloud_identity_acc.Backend.Rbac
use nexus_cloud_identity_acc.Pages.Roles.{Permissions, matrix}

-- the name of a role as the page writes it
abbrev pub upper_name : Role → String
upper_name super_admin = "SUPER_ADMIN"
upper_name admin = "ADMIN"
upper_name security_manager = "SECURITY_MANAGER"
upper_name developer = "DEVELOPER"
upper_name analyst = "ANALYST"
upper_name viewer = "VIEWER"
upper_name user = "USER"

-- the page's cells, filled from the server's table
abbrev pub granted : Role → Permissions
granted r = record {
  users_read = has_permission r Rbac.users_read;
  users_create = has_permission r Rbac.users_create;
  users_update = has_permission r Rbac.users_update;
  users_delete = has_permission r Rbac.users_delete;
  apps_read = has_permission r Rbac.applications_read;
  apps_manage = has_permission r Rbac.applications_manage;
  policies_read = has_permission r Rbac.policies_read;
  policies_manage = has_permission r Rbac.policies_manage;
  audit_read = has_permission r Rbac.audit_read;
  security_manage = has_permission r Rbac.security_manage;
}

abbrev pub row_for : Role → Option Permissions
row_for r = Option.map (λ row. row.permissions) (find (λ row. row.role == upper_name r) matrix)

-- Every role but user has a row in the page's matrix, and its cells are what the server's permission
-- table grants the role; user has no row.
pub row_for-granted :
    (r : Role) → row_for r ≡ (if role_name r == "user" then none else some (granted r))
unfolding has_permission
row_for-granted super_admin = refl
row_for-granted _ = refl
