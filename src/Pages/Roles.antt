-- ===== src/Pages/Roles.antt =====
-- frontend/src/pages/RolesPage.tsx: the matrix of roles and permissions, and its table.
pub mod Matrix
pub mod Screen
use nexus_cloud_identity_acc.Common.{String, Bool, true, false, List, [], ◌∷◌, map}

pub record Permissions : Type 0 where
  pub users_read : Bool
  pub users_create : Bool
  pub users_update : Bool
  pub users_delete : Bool
  pub apps_read : Bool
  pub apps_manage : Bool
  pub policies_read : Bool
  pub policies_manage : Bool
  pub audit_read : Bool
  pub security_manage : Bool

pub record RolePermissionMatrix : Type 0 where
  pub role : String
  pub description : String
  pub permissions : Permissions

abbrev pub super_admin_row : RolePermissionMatrix
super_admin_row = record {
  role = "SUPER_ADMIN";
  description = "Full root tenant authority across all governance and compute systems";
  permissions = record {
    users_read = true;
    users_create = true;
    users_update = true;
    users_delete = true;
    apps_read = true;
    apps_manage = true;
    policies_read = true;
    policies_manage = true;
    audit_read = true;
    security_manage = true;
  };
}

abbrev pub admin_row : RolePermissionMatrix
admin_row = record {
  role = "ADMIN";
  description = "Organization administrator managing team accounts and application definitions";
  permissions = record {
    users_read = true;
    users_create = true;
    users_update = true;
    users_delete = false;
    apps_read = true;
    apps_manage = true;
    policies_read = true;
    policies_manage = true;
    audit_read = true;
    security_manage = false;
  };
}

abbrev pub security_manager_row : RolePermissionMatrix
security_manager_row = record {
  role = "SECURITY_MANAGER";
  description = "Information security officer managing risk policies, audits, and MFA enforcement";
  permissions = record {
    users_read = true;
    users_create = false;
    users_update = false;
    users_delete = false;
    apps_read = true;
    apps_manage = false;
    policies_read = true;
    policies_manage = true;
    audit_read = true;
    security_manage = true;
  };
}

abbrev pub developer_row : RolePermissionMatrix
developer_row = record {
  role = "DEVELOPER";
  description = "Software engineer deploying and managing backend services and cloud consoles";
  permissions = record {
    users_read = true;
    users_create = false;
    users_update = false;
    users_delete = false;
    apps_read = true;
    apps_manage = true;
    policies_read = true;
    policies_manage = false;
    audit_read = false;
    security_manage = false;
  };
}

abbrev pub analyst_row : RolePermissionMatrix
analyst_row = record {
  role = "ANALYST";
  description = "Security & compliance auditor reviewing access logs and policy rules";
  permissions = record {
    users_read = true;
    users_create = false;
    users_update = false;
    users_delete = false;
    apps_read = true;
    apps_manage = false;
    policies_read = true;
    policies_manage = false;
    audit_read = true;
    security_manage = false;
  };
}

abbrev pub viewer_row : RolePermissionMatrix
viewer_row = record {
  role = "VIEWER";
  description = "Read-only viewer for authorized application catalog items";
  permissions = record {
    users_read = false;
    users_create = false;
    users_update = false;
    users_delete = false;
    apps_read = true;
    apps_manage = false;
    policies_read = false;
    policies_manage = false;
    audit_read = false;
    security_manage = false;
  };
}

abbrev pub matrix : List RolePermissionMatrix
matrix =
    super_admin_row ∷ admin_row ∷ security_manager_row ∷ developer_row ∷ analyst_row ∷ viewer_row
    ∷ []

-- the cells of a row, in the order of the header; `usersUpdate` has no column
abbrev pub cells : RolePermissionMatrix → List Bool
cells row =
    row.permissions.users_read ∷ row.permissions.users_create ∷ row.permissions.users_delete
    ∷ row.permissions.apps_read ∷ row.permissions.apps_manage ∷ row.permissions.policies_read
    ∷ row.permissions.policies_manage ∷ row.permissions.audit_read ∷ row.permissions.security_manage
    ∷ []

unfoldable pub roles_table : List (String × String × List Bool)
roles_table = map (λ row. (row.role, row.description, cells row)) matrix
