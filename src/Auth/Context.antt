-- ===== src/Auth/Context.antt =====
-- frontend/src/hooks/useAuth.tsx: what the provider passes to the pages, and `useAuth`.
use nexus_cloud_identity_acc.Common.{String, Bool, Option, none, some, List}
use nexus_cloud_identity_acc.Browser.{Result, ok, thrown, error_of, Action, Network}
use nexus_cloud_identity_acc.Types.{Role, User}
use nexus_cloud_identity_acc.Auth.{App, has_role, login, register, logout, refresh_profile}

-- `AuthContextType`
pub record AuthContextType (W : Type 0) : Type 0 where
  pub user : Option User
  pub token : Option String
  pub is_loading : Bool
  pub login : String → String → Action (App W) (Unit {0})
  pub register : String → String → String → Action (App W) (Unit {0})
  pub logout : App W → App W
  pub has_role : List Role → Bool
  pub refresh_profile : App W → App W

-- the value of the `AuthContext.Provider`
unfoldable pub provider_value : {W : Type 0} → Network W → App W → AuthContextType W
unfolding has_role login register logout refresh_profile
provider_value net a = record {
  user = a.session.user;
  token = a.session.token;
  is_loading = a.session.is_loading;
  login = login net;
  register = register net;
  logout = logout;
  has_role = has_role a.session.user;
  refresh_profile = refresh_profile net;
}

-- `useAuth`: the context, which is undefined outside the provider
unfoldable pub use_auth : {W : Type 0} → Option (AuthContextType W) → Result (AuthContextType W)
use_auth none = thrown (error_of "useAuth must be used within an AuthProvider")
use_auth (some context) = ok context
