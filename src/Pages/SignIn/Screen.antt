-- ===== src/Pages/SignIn/Screen.antt =====
-- frontend/src/pages/LoginPage.tsx and RegisterPage.tsx: the panels around the forms.
use nexus_cloud_identity_acc.Common.{String, Bool, List, [], ◌∷◌, ◌+s◌, map}
use nexus_cloud_identity_acc.Pages.View.{Heading, Link}
use nexus_cloud_identity_acc.Pages.SignIn.{
  LoginForm, RegisterForm, DemoAccount, demo_accounts, quick_login,
}
use nexus_cloud_identity_acc.Pages.SignIn.View.{
  LoginView, login_view, RegisterView, register_view, role_cards,
}

-- `FEATURES`: the text and the class of the dot
abbrev pub features : List (String × String)
features =
    ("Zero-Trust policy engine with contextual PBAC", "")
    ∷ ("RFC 6238 TOTP multi-factor authentication", "green")
    ∷ ("AWS Secrets Manager key vault integration", "cyan")
    ∷ ("Bcrypt-hashed credentials (cost 12)", "amber")
    ∷ []

-- the left panel: its brand, its headline and its text
pub record Panel : Type 0 where
  pub brand : String
  pub headline : List String
  pub text : String

abbrev pub login_panel : Panel
login_panel = record {
  brand = "NEXUS";
  headline = "Cloud Identity" ∷ "& Access" ∷ "Governance" ∷ [];
  text =
      "A production-grade Zero-Trust IAM platform with role-based access control, contextual policy evaluation, MFA, and live AWS Secrets Manager integration.";
}

abbrev pub register_panel : Panel
register_panel = record {
  brand = "NEXUS";
  headline = "Provision" ∷ "Your Cloud" ∷ "Identity" ∷ [];
  text =
      "Create a role-governed user identity within the NEXUS organization. Roles determine RBAC permissions and contextual PBAC policy evaluation across all applications.";
}

-- a button of the demonstration accounts: its id, its two lines, its colour, and the form after a click
pub record DemoButton : Type 0 where
  pub id : String
  pub label : String
  pub role : String
  pub color : String
  pub clicked : LoginForm

unfoldable pub demo_button : LoginForm → DemoAccount → DemoButton
unfolding quick_login
demo_button f acc = record {
  id = "demo-" +s acc.username;
  label = acc.label;
  role = acc.username;
  color = acc.color;
  clicked = quick_login acc.username acc.password f;
}

unfoldable pub demo_buttons : LoginForm → List DemoButton
unfolding demo_button
demo_buttons f = map (demo_button f) demo_accounts

pub record LoginScreen : Type 0 where
  pub panel : Panel
  pub features : List (String × String)
  pub badge : String
  pub eyebrow : String
  pub heading : Heading
  pub form : LoginView
  pub strip : List String
  pub demo_label : String
  pub demo : List DemoButton
  pub question : String
  pub link : Link

unfoldable pub login_screen : LoginForm → LoginScreen
unfolding login_view demo_buttons
login_screen f = record {
  panel = login_panel;
  features = features;
  badge = "AWS LIVE";
  eyebrow = "Secure Authentication";
  heading = record {
    title = "Sign in to NEXUS";
    subtitle = "Enter your credentials to access the platform.";
  };
  form = login_view f;
  strip = "HS256 JWT" ∷ "Bcrypt·12" ∷ "TOTP MFA" ∷ "Rate Limited" ∷ [];
  demo_label = "Quick Demo Accounts";
  demo = demo_buttons f;
  question = "New to NEXUS?";
  link = record { text = "Provision an Identity →"; to = "/register" };
}

-- `roles` are the cards of the left panel.
pub record RegisterScreen : Type 0 where
  pub panel : Panel
  pub roles : List (String × String × Bool)
  pub badge : String
  pub eyebrow : String
  pub heading : Heading
  pub form : RegisterView
  pub strip : List String
  pub question : String
  pub link : Link

unfoldable pub register_screen : RegisterForm → RegisterScreen
unfolding register_view role_cards
register_screen f = record {
  panel = register_panel;
  roles = role_cards f;
  badge = "AWS LIVE";
  eyebrow = "Identity Provisioning";
  heading = record {
    title = "Create NEXUS Identity";
    subtitle = "Provision a new role-governed user in the organization.";
  };
  form = register_view f;
  strip = "RBAC Governed" ∷ "PBAC Policy" ∷ "Bcrypt·12" ∷ [];
  question = "Already provisioned?";
  link = record { text = "Sign In →"; to = "/login" };
}
