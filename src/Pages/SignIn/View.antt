-- ===== src/Pages/SignIn/View.antt =====
-- frontend/src/pages/LoginPage.tsx and RegisterPage.tsx: what the forms show.
use nexus_cloud_identity_acc.Common.{String, Bool, Option, List, ◌+s◌, map, ◌==◌, if◌then◌else◌}
use nexus_cloud_identity_acc.Types.{role_name}
use nexus_cloud_identity_acc.Pages.SignIn.{
  LoginForm, RegisterForm, RoleOption, role_options, selected_role,
}

-- the alert, the fields, and the button, disabled while a request is in flight
pub record LoginView : Type 0 where
  pub alert : Option String
  pub username : String
  pub password : String
  pub disabled : Bool
  pub label : String

unfoldable pub login_view : LoginForm → LoginView
login_view f = record {
  alert = f.error;
  username = f.username;
  password = f.password;
  disabled = f.is_submitting;
  label = if f.is_submitting then "Authenticating..." else "Sign In";
}

-- with the options of the `select`, and the pill of the selected role
pub record RegisterView : Type 0 where
  pub alert : Option String
  pub username : String
  pub password : String
  pub options : List (String × String)
  pub selected : String
  pub pill : Option RoleOption
  pub disabled : Bool
  pub label : String

unfoldable pub register_view : RegisterForm → RegisterView
unfolding selected_role
register_view f = record {
  alert = f.error;
  username = f.username;
  password = f.password;
  options = map (λ r. (role_name r.value, r.label +s " — " +s r.desc)) role_options;
  selected = role_name f.role;
  pill = selected_role f.role;
  disabled = f.is_submitting;
  label = if f.is_submitting then "Provisioning Identity..." else "Create Identity";
}

-- the cards of the roles on the left, with the one of the form's role lit
unfoldable pub role_cards : RegisterForm → List (String × String × Bool)
role_cards f = map (λ r. (r.label, r.desc, role_name f.role == role_name r.value)) role_options
