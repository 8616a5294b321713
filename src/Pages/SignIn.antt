-- ===== src/Pages/SignIn.antt =====
-- frontend/src/pages/LoginPage.tsx and RegisterPage.tsx: the forms' state, their handlers and what
-- they show. A handler is cut at its `await`; `navigate` is a record of the path gone to.
pub mod Forms
pub mod View
pub mod Screen
use nexus_cloud_identity_acc.Common.{
  ℕ, String, Bool, true, false, Option, none, some, List, [], ◌∷◌, ◌==◌, ltb, find, map,
  utf16_length, if◌then◌else◌,
}
use nexus_cloud_identity_acc.Browser.{Thrown, error_of, other_value, Result, ok, thrown, Network}
use nexus_cloud_identity_acc.Types.{
  Role, viewer, developer, analyst, security_manager, admin, role_name,
}
use nexus_cloud_identity_acc.Auth
use nexus_cloud_identity_acc.Auth.{App}

pub record LoginForm : Type 0 where
  pub username : String
  pub password : String
  pub error : Option String
  pub is_submitting : Bool

unfoldable pub login_form : LoginForm
login_form = record { username = ""; password = ""; error = none; is_submitting = false }

-- `err instanceof Error ? err.message : fallback`
abbrev pub message_or : String → Thrown → String
message_or fallback (error_of m) = m
message_or fallback other_value = fallback

unfoldable pub login_started : LoginForm → LoginForm
login_started f = record f { error = none; is_submitting = true }

-- the rest of `handleSubmit`, with `catch` and `finally`, and the path that it navigates to
unfoldable pub login_ended : Result (Unit {0}) → LoginForm → LoginForm × Option String
login_ended (ok _) f = (record f { is_submitting = false }, some "/dashboard")
login_ended (thrown e) f = (
  record f {
    error = some (message_or "Authentication failed. Please try again." e);
    is_submitting = false;
  },
  none,
)

unfoldable pub quick_login : String → String → LoginForm → LoginForm
quick_login u p f = record f { username = u; password = p }

pub record DemoAccount : Type 0 where
  pub label : String
  pub username : String
  pub password : String
  pub color : String

abbrev pub demo_accounts : List DemoAccount
demo_accounts =
    record {
      label = "Admin";
      username = "admin";
      password = "AdminPassword123!";
      color = "#7c5ef6";
    }
    ∷ record {
      label = "Developer";
      username = "developer";
      password = "DevPassword123!";
      color = "#1d6ff0";
    }
    ∷ record {
      label = "Sec Manager";
      username = "secmgr";
      password = "SecPassword123!";
      color = "#ff3b5b";
    }
    ∷ record {
      label = "Viewer";
      username = "viewer";
      password = "ViewerPassword123!";
      color = "#00d68f";
    }
    ∷ []

pub record RegisterForm : Type 0 where
  pub username : String
  pub password : String
  pub role : Role
  pub error : Option String
  pub is_submitting : Bool

unfoldable pub register_form : RegisterForm
register_form = record {
  username = "";
  password = "";
  role = viewer;
  error = none;
  is_submitting = false;
}

pub record RoleOption : Type 0 where
  pub value : Role
  pub label : String
  pub desc : String
  pub color : String

abbrev pub role_options : List RoleOption
role_options =
    record {
      value = viewer;
      label = "Viewer";
      desc = "Read-only catalog access";
      color = "#00d68f";
    }
    ∷ record {
      value = developer;
      label = "Developer";
      desc = "Application manage + AWS console";
      color = "#1d6ff0";
    }
    ∷ record {
      value = analyst;
      label = "Analyst";
      desc = "Audit logs + reports access";
      color = "#00c2e0";
    }
    ∷ record {
      value = security_manager;
      label = "Security Manager";
      desc = "Policy & MFA governance";
      color = "#f5a623";
    }
    ∷ record {
      value = admin;
      label = "Administrator";
      desc = "Full org management";
      color = "#7c5ef6";
    }
    ∷ []

-- `ROLES.find((r) => r.value === role)`, which the page takes to be there
unfoldable pub selected_role : Role → Option RoleOption
selected_role role = find (λ r. role_name r.value == role_name role) role_options

-- the form's check before the request
unfoldable pub register_started : RegisterForm → RegisterForm × Bool
register_started f =
    if ltb (utf16_length f.password) 8
    then (record f { error = some "Password must be at least 8 characters." }, false)
    else (record f { error = none; is_submitting = true }, true)

unfoldable pub register_ended : Result (Unit {0}) → RegisterForm → RegisterForm × Option String
register_ended (ok _) f = (record f { is_submitting = false }, some "/dashboard")
register_ended (thrown e) f = (
  record f {
    error = some (message_or "Registration failed. Please try again." e);
    is_submitting = false;
  },
  none,
)

module _ {W : Type 0} (net : Network W) where
  unfoldable pub submit_login : LoginForm → App W → LoginForm × Option String × App W
  unfolding login_started login_ended
  submit_login f a =
      let (r, b) = Auth.login net f.username f.password a in
      let (f', to) = login_ended r (login_started f) in (f', to, b)

  unfoldable pub submit_register : RegisterForm → App W → RegisterForm × Option String × App W
  unfolding register_started register_ended
  submit_register f a =
      let (f', sent) = register_started f in
      let (r, b) = Auth.register net f.username f.password (role_name f.role) a in
      let (g, to) = register_ended r f' in if sent then (g, to, b) else (f', none, a)

-- the events of the registration form outside its handler: `onChange` of each field
pub data Edit : Type 0 where
  types_username types_password : String → Edit
  picks_option : RoleOption → Edit

unfoldable pub edit : RegisterForm → Edit → RegisterForm
edit f (types_username s) = record f { username = s }
edit f (types_password s) = record f { password = s }
edit f (picks_option o) = record f { role = o.value }
