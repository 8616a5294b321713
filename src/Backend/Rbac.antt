-- ===== src/Backend/Rbac.antt =====
-- backend/internal/rbac/permissions.go. A role string outside `users.ValidRoles` has no entry; the
-- model's `Role` holds the seven that have one.
use nexus_cloud_identity_acc.Common.{String, Bool, List, [], ◌∷◌, ◌==◌, any}
use nexus_cloud_identity_acc.Types.{
  Role, super_admin, admin, security_manager, developer, analyst, viewer, user,
}

pub data Permission : Type 0 where
  users_read users_create users_update users_delete applications_read applications_manage
        policies_read policies_manage audit_read security_manage organizations_read
        organizations_manage roles_read roles_manage :
      Permission

abbrev pub permission_name : Permission → String
permission_name users_read = "users.read"
permission_name users_create = "users.create"
permission_name users_update = "users.update"
permission_name users_delete = "users.delete"
permission_name applications_read = "applications.read"
permission_name applications_manage = "applications.manage"
permission_name policies_read = "policies.read"
permission_name policies_manage = "policies.manage"
permission_name audit_read = "audit.read"
permission_name security_manage = "security.manage"
permission_name organizations_read = "organizations.read"
permission_name organizations_manage = "organizations.manage"
permission_name roles_read = "roles.read"
permission_name roles_manage = "roles.manage"

unfoldable pub role_permissions : Role → List Permission
role_permissions super_admin =
    users_read ∷ users_create ∷ users_update ∷ users_delete ∷ applications_read
    ∷ applications_manage ∷ policies_read ∷ policies_manage ∷ audit_read ∷ security_manage
    ∷ organizations_read ∷ organizations_manage ∷ roles_read ∷ roles_manage ∷ []
role_permissions admin =
    users_read ∷ users_create ∷ users_update ∷ applications_read ∷ applications_manage
    ∷ policies_read ∷ policies_manage ∷ audit_read ∷ organizations_read ∷ roles_read ∷ []
role_permissions security_manager =
    users_read ∷ applications_read ∷ policies_read ∷ policies_manage ∷ audit_read ∷ security_manage
    ∷ roles_read ∷ []
role_permissions developer =
    users_read ∷ applications_read ∷ applications_manage ∷ policies_read ∷ []
role_permissions analyst = users_read ∷ applications_read ∷ policies_read ∷ audit_read ∷ []
role_permissions viewer = applications_read ∷ []
role_permissions user = applications_read ∷ []

unfoldable pub has_permission : Role → Permission → Bool
unfolding role_permissions
has_permission role perm =
    any (λ p. permission_name p == permission_name perm) (role_permissions role)
