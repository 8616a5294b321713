-- ===== src/Pages/Users.antt =====
-- frontend/src/pages/UsersPage.tsx: the directory, its filter and its table. Lower and upper case and
-- the local date are the JavaScript library's, and parameters.
pub mod Directory
pub mod Screen
use nexus_cloud_identity_acc.Common.{
  String, Bool, true, false, Option, none, some, List, [], ◌∷◌, ◌==◌, ◌||◌, ◌&&◌, filter, map,
  str_includes, ◌+s◌, if◌then◌else◌, first_char, substring,
}
use nexus_cloud_identity_acc.Browser.{Result, ok, thrown, Network, Env, UsersResponse, ◌>>=◌}
use nexus_cloud_identity_acc.Types.{Role, role_name, status_name, User}
use nexus_cloud_identity_acc.Api
use nexus_cloud_identity_acc.Pages.View.{message_if, Table, table_of}

pub record UsersPage : Type 0 where
  pub users : List User
  pub filter_role : String
  pub search : String
  pub is_loading : Bool
  pub error : Option String

unfoldable pub users_page : UsersPage
users_page = record {
  users = [];
  filter_role = "all";
  search = "";
  is_loading = true;
  error = none;
}

unfoldable pub users_started : UsersPage → UsersPage
users_started p = record p { is_loading = true; error = none }

unfoldable pub users_ended : Result UsersResponse → UsersPage → UsersPage
users_ended (ok res) p = record p { users = res.users; is_loading = false }
users_ended (thrown e) p = record p { error = message_if p.error e; is_loading = false }

module _ {W : Type 0} (net : Network W) where
  unfoldable pub fetch_users : UsersPage → Env W → UsersPage × Env W
  unfolding users_started users_ended
  fetch_users p env =
      let (r, env') = (Api.list_users net >>= Api.not_null) env in
      (users_ended r (users_started p), env')

-- `username.toLowerCase().includes(search.toLowerCase())`
abbrev matches_search : (String → String) → String → User → Bool
matches_search lower search u = str_includes (lower u.username) (lower search)

abbrev matches_role : String → User → Bool
matches_role wanted u = wanted == "all" || role_name u.role == wanted

unfoldable pub filtered_users : (String → String) → UsersPage → List User
filtered_users lower p =
    filter (λ u. matches_role p.filter_role u && matches_search lower p.search u) p.users

-- the colour of a role's badge
unfoldable pub role_badge : Role → String
role_badge role =
    let r = role_name role in
    if r == "super_admin"
    then "badge-purple"
    else if r == "admin"
    then "badge-blue"
    else if r == "security_manager"
    then "badge-amber"
    else if r == "developer"
    then "badge-blue"
    else "badge-green"

pub record UserRow : Type 0 where
  pub avatar : String
  pub username : String
  pub role : String
  pub badge : String
  pub status : String
  pub mfa : String
  pub id : String
  pub provisioned : String

unfoldable pub user_row : (String → String) → (String → String) → User → UserRow
unfolding role_badge
user_row upper local_date u = record {
  avatar = upper (first_char u.username);
  username = u.username;
  role = role_name u.role;
  badge = role_badge u.role;
  status = status_name u.status;
  mfa = if u.mfa_enabled then "Active" else "Optional";
  id = substring 13 u.id +s "...";
  provisioned = local_date u.created_at;
}

unfoldable pub users_table : (lower upper local_date : String → String) → UsersPage → Table UserRow
unfolding filtered_users user_row
users_table lower upper local_date p =
    table_of p.is_loading (user_row upper local_date) (filtered_users lower p)

-- the two controls; the `select` offers its options alone
unfoldable pub types_search : String → UsersPage → UsersPage
types_search s p = record p { search = s }

unfoldable pub picks_role : String → UsersPage → UsersPage
picks_role s p = record p { filter_role = s }

unfoldable pub role_filters : List (String × String)
role_filters =
    ("all", "All Roles")
    ∷ ("super_admin", "Super Admin")
    ∷ ("admin", "Admin")
    ∷ ("security_manager", "Security Manager")
    ∷ ("developer", "Developer")
    ∷ ("analyst", "Analyst")
    ∷ ("viewer", "Viewer")
    ∷ []
