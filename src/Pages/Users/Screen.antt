-- ===== src/Pages/Users/Screen.antt =====
-- frontend/src/pages/UsersPage.tsx: the whole page.
use nexus_cloud_identity_acc.Common.{String, Option, List, [], ◌∷◌}
use nexus_cloud_identity_acc.Pages.View.{Table, Heading, alert_of}
use nexus_cloud_identity_acc.Pages.Users.{UsersPage, UserRow, users_table, role_filters}

-- `waiting` and `nothing` are the texts of the two rows without a user;
-- `refresh` is the label of the button that calls `fetchUsers`.
pub record UsersScreen : Type 0 where
  pub heading : Heading
  pub refresh : String
  pub alert : Option String
  pub placeholder : String
  pub search : String
  pub options : List (String × String)
  pub selected : String
  pub columns : List String
  pub waiting : String
  pub nothing : String
  pub table : Table UserRow

unfoldable pub users_screen : (lower upper local_date : String → String) → UsersPage → UsersScreen
unfolding users_table role_filters
users_screen lower upper local_date p = record {
  heading = record {
    title = "Identity & User Management";
    subtitle = "Manage organization members, RBAC role assignments, and authentication posture";
  };
  refresh = "Refresh Directory";
  alert = alert_of p.error;
  placeholder = "Search by username...";
  search = p.search;
  options = role_filters;
  selected = p.filter_role;
  columns =
      "Identity" ∷ "Assigned Role" ∷ "Status" ∷ "MFA Enforced" ∷ "Identity ID" ∷ "Provisioned" ∷ [];
  waiting = "Loading user directory...";
  nothing = "No identities match your current filter.";
  table = users_table lower upper local_date p;
}
