-- ===== src/Shell/Sidebar.antt =====
-- frontend/src/components/Sidebar.tsx: the three navigation lists, who sees which item, the footer.
-- Icons and the fixed markup are left out; upper case is the JavaScript library's and a parameter.
use Prim.Native.Char.{code}
use Prim.Native.String
use nexus_cloud_identity_acc.Common.{
  String, Bool, true, Option, none, some, List, [], ◌∷◌, filter, first_char, nat_eq, if◌then◌else◌,
}
use nexus_cloud_identity_acc.Types.{
  Role, super_admin, admin, security_manager, developer, analyst, viewer, user, role_name, User,
}
use nexus_cloud_identity_acc.Auth.{has_role}

pub record NavItem : Type 0 where
  pub name : String
  pub path : String
  pub allowed_roles : Option (List Role)

abbrev pub main_nav : List NavItem
main_nav =
    record { name = "Overview"; path = "/dashboard"; allowed_roles = none }
    ∷ record { name = "Applications"; path = "/applications"; allowed_roles = none }
    ∷ []

abbrev everyone : List Role
everyone = admin ∷ security_manager ∷ super_admin ∷ developer ∷ analyst ∷ viewer ∷ user ∷ []

abbrev pub admin_nav : List NavItem
admin_nav =
    record { name = "Users"; path = "/users"; allowed_roles = some (admin ∷ super_admin ∷ []) }
    ∷ record {
      name = "Roles & Matrix";
      path = "/roles";
      allowed_roles = some (admin ∷ security_manager ∷ super_admin ∷ []);
    }
    ∷ record { name = "Policy Engine"; path = "/policies"; allowed_roles = some everyone }
    ∷ record {
      name = "Audit Logs";
      path = "/audit";
      allowed_roles = some (admin ∷ security_manager ∷ analyst ∷ super_admin ∷ []);
    }
    ∷ record { name = "Security & MFA"; path = "/security"; allowed_roles = none }
    ∷ []

abbrev pub settings_nav : List NavItem
settings_nav = record { name = "Settings"; path = "/settings"; allowed_roles = none } ∷ []

unfoldable pub is_allowed : Option User → NavItem → Bool
unfolding has_role
is_allowed u item = elim item.allowed_roles [ none ↦ true | some given ↦ has_role u given ]

abbrev pub default_color : String
default_color = "#8ba3c4"

abbrev role_colors : Role → String
role_colors admin = "#7c5ef6"
role_colors super_admin = "#ff3b5b"
role_colors security_manager = "#f5a623"
role_colors developer = "#1d6ff0"
role_colors analyst = "#00c2e0"
role_colors viewer = "#00d68f"
role_colors user = "#8ba3c4"

unfoldable pub role_color : Option User → String
role_color none = default_color
role_color (some u) = role_colors u.role

-- `s.replace('_', ' ')` replaces the first one only
abbrev replace_underscore : String → String
replace_underscore String.[] = String.[]
replace_underscore (String.◌∷◌ c s) =
    if nat_eq (code c) b'_' then String.◌++◌ " " s else String.◌∷◌ c (replace_underscore s)

pub record Footer : Type 0 where
  pub avatar : String
  pub username : String
  pub role_badge : String
  pub color : String

-- the head of the sidebar
pub record Brand : Type 0 where
  pub name : String
  pub badge : String

abbrev brand_header : Brand
brand_header = record { name = "NEXUS"; badge = "Cloud IAM" }

-- what the sidebar shows: the brand, the items of each list that pass `isAllowed`, and the footer of a user
pub record SidebarView : Type 0 where
  pub brand : Brand
  pub navigation : List NavItem
  pub governance : List NavItem
  pub system : List NavItem
  pub footer : Option Footer

abbrev footer_of : (String → String) → Option User → Option Footer
footer_of to_upper_case none = none
footer_of to_upper_case (some u) = some (record {
  avatar = to_upper_case (first_char u.username);
  username = u.username;
  role_badge = replace_underscore (role_name u.role);
  color = role_colors u.role;
})

unfoldable pub sidebar : (String → String) → Option User → SidebarView
unfolding is_allowed
sidebar to_upper_case u = record {
  brand = brand_header;
  navigation = filter (is_allowed u) main_nav;
  governance = filter (is_allowed u) admin_nav;
  system = filter (is_allowed u) settings_nav;
  footer = footer_of to_upper_case u;
}
