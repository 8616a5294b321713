-- ===== src/Pages/Roles/Screen.antt =====
-- frontend/src/pages/RolesPage.tsx: the whole page.
use nexus_cloud_identity_acc.Common.{String, Bool, List, [], ◌∷◌}
use nexus_cloud_identity_acc.Pages.View.{Heading}
use nexus_cloud_identity_acc.Pages.Roles.{roles_table}

pub record RolesScreen : Type 0 where
  pub heading : Heading
  pub card : String
  pub badge : String
  pub columns : List String
  pub rows : List (String × String × List Bool)

unfoldable pub roles_screen : RolesScreen
unfolding roles_table
roles_screen = record {
  heading = record {
    title = "RBAC Governance Matrix";
    subtitle = "Single Source of Truth: Canonical role-to-permission capabilities mapping";
  };
  card = "Role Permission Matrix";
  badge = "Enforced by Middleware";
  columns =
      "Role" ∷ "Users Read" ∷ "Users Write" ∷ "Users Delete" ∷ "Apps Read" ∷ "Apps Manage"
      ∷ "Policies Read" ∷ "Policies Manage" ∷ "Audit Logs" ∷ "Security Manage" ∷ [];
  rows = roles_table;
}
