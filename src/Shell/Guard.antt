-- ===== src/Shell/Guard.antt =====
-- frontend/src/components/ProtectedRoute.tsx and the routes of frontend/src/App.tsx. The router is not
-- in the repository: a path selects the route that is declared with it, and `*` where there is none.
pub mod Access
use nexus_cloud_identity_acc.Common.{
  ℕ, zero, suc, String, Bool, true, false, Option, none, some, List, [], ◌∷◌, ◌==◌, find, not,
  if◌then◌else◌,
}
use nexus_cloud_identity_acc.Types.{
  Role, super_admin, admin, security_manager, analyst, role_name, User,
}
use nexus_cloud_identity_acc.Auth.{Session, has_role}

pub data Page : Type 0 where
  login register dashboard applications policies security settings users roles audit : Page

-- what `ProtectedRoute` renders: the spinner, a redirect, the 403 card with the user's role, the page
pub data Outcome : Type 0 where
  verifying : Outcome
  to_login : Outcome
  forbidden : Role → Outcome
  outlet : Outcome

abbrev for_roles : User → Option (List Role) → Outcome
for_roles u none = outlet
for_roles u (some given) = if not (has_role (some u) given) then forbidden u.role else outlet

abbrev for_user : Option User → Option (List Role) → Outcome
for_user none allowed = to_login
for_user (some u) allowed = for_roles u allowed

unfoldable pub protected_route : Session → Option (List Role) → Outcome
protected_route s allowed = if s.is_loading then verifying else for_user s.user allowed

-- a route is public, or stands under a `ProtectedRoute` with its `allowedRoles`
pub data Protection : Type 0 where
  public_route : Protection
  protected : Option (List Role) → Protection

pub record Route : Type 0 where
  pub path : String
  pub page : Page
  pub protection : Protection

abbrev pub audit_roles : List Role
audit_roles = admin ∷ security_manager ∷ analyst ∷ super_admin ∷ []

unfoldable pub routes : List Route
routes =
    record { path = "/login"; page = login; protection = public_route }
    ∷ record { path = "/register"; page = register; protection = public_route }
    ∷ record { path = "/dashboard"; page = dashboard; protection = protected none }
    ∷ record { path = "/applications"; page = applications; protection = protected none }
    ∷ record { path = "/policies"; page = policies; protection = protected none }
    ∷ record { path = "/security"; page = security; protection = protected none }
    ∷ record { path = "/settings"; page = settings; protection = protected none }
    ∷ record {
      path = "/users";
      page = users;
      protection = protected (some (admin ∷ super_admin ∷ []));
    }
    ∷ record {
      path = "/roles";
      page = roles;
      protection = protected (some (admin ∷ security_manager ∷ super_admin ∷ []));
    }
    ∷ record { path = "/audit"; page = audit; protection = protected (some audit_roles) }
    ∷ []

-- what the browser shows at a path; a `Navigate` is a redirect
pub data Screen : Type 0 where
  shows : Page → Screen
  spinner : Screen
  denied : Role → Screen
  redirect : String → Screen

abbrev enter : Page → Outcome → Screen
enter p verifying = spinner
enter p to_login = redirect "/login"
enter p (forbidden r) = denied r
enter p outlet = shows p

abbrev screen_of : Session → Page → Protection → Screen
screen_of s p public_route = shows p
screen_of s p (protected allowed) = enter p (protected_route s allowed)

unfoldable pub render : Session → String → Screen
unfolding routes protected_route
render s path = elim (find (λ r. r.path == path) routes) [
  | none ↦ redirect "/dashboard"
  | some r ↦ screen_of s r.page r.protection
]

-- the redirects followed one after the other, as the router does
unfoldable pub settle : ℕ → Session → String → Screen
unfolding render
settle zero s path = render s path
settle (suc n) s path = elim (render s path) [
  | shows p ↦ shows p
  | spinner ↦ spinner
  | denied r ↦ denied r
  | redirect to ↦ settle n s to
]
