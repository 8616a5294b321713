-- ===== src/Shell/Guard/Access.antt =====
-- Who sees which page.
use mathlib.Core.Path.{subst}
use nexus_cloud_identity_acc.Common.{
  ℕ, suc, String, Bool, true, false, Option, none, some, ◌≡◌, sym, ◌≢◌, refl, arith, ◌==◌, ◌⊎◌, inl,
  inr, find, Option-cases, if◌then◌else◌,
}
use nexus_cloud_identity_acc.Types.{
  Role, super_admin, admin, security_manager, developer, analyst, viewer, user, User,
}
use nexus_cloud_identity_acc.Auth.{Session, has_role}
use nexus_cloud_identity_acc.Shell.Guard.{
  Page, login, register, dashboard, applications, policies, security, settings, users, roles, audit,
  Outcome, verifying, to_login, forbidden, outlet, Protection, public_route, protected, enter,
  Screen, shows, spinner, denied, redirect, protected_route, routes, render, settle, screen_of,
}

-- The path of a page.
abbrev pub path_of : Page → String
path_of login = "/login"
path_of register = "/register"
path_of dashboard = "/dashboard"
path_of applications = "/applications"
path_of policies = "/policies"
path_of security = "/security"
path_of settings = "/settings"
path_of users = "/users"
path_of roles = "/roles"
path_of audit = "/audit"

-- The access matrix, role by role: which pages each role may open.
abbrev pub may_view : Role → Page → Bool
may_view super_admin _ = true
may_view admin _ = true
may_view security_manager users = false
may_view security_manager _ = true
may_view analyst users = false
may_view analyst roles = false
may_view analyst _ = true
may_view _ users = false
may_view _ roles = false
may_view _ audit = false
may_view _ _ = true

abbrev pub is_public : Page → Bool
is_public login = true
is_public register = true
is_public _ = false

render_role :
    (t : Option String) (u : User) (r : Role) (p : Page)
    → render
        (record { user = some (record u { role = r }); token = t; is_loading = false })
        (path_of p)
      ≡ (if may_view r p then shows p else denied r)
unfolding render has_role
render_role t u super_admin login = refl
render_role t u admin login = refl
render_role t u security_manager login = refl
render_role t u developer login = refl
render_role t u analyst login = refl
render_role t u viewer login = refl
render_role t u user login = refl
render_role t u _ _ = refl

-- A signed-in user whose profile is loaded sees exactly the pages of the role's row in the access
-- matrix, and the 403 card with that role at the others.
pub render-may_view :
    (s : Session) (u : User) (p : Page)
    → s.is_loading ≡ false
    → s.user ≡ some u
    → render s (path_of p) ≡ (if may_view u.role p then shows p else denied u.role)
render-may_view s u p loaded known =
    subst (λ x. render x (path_of p) ≡ (if may_view u.role p then shows p else denied u.role))
      (sym same) (render_role s.token u u.role p)
  where
    same : s ≡ record { user = some u; token = s.token; is_loading = false }
    same = λ i. record { user = known i; token = s.token; is_loading = loaded i }

-- Without a user, every page but the two public ones redirects to the sign-in page; while the profile
-- is loading it is a spinner.
pub render_signed_out :
    (s : Session) (p : Page)
    → s.user ≡ none
    → render s (path_of p)
      ≡ (if is_public p then shows p else if s.is_loading then spinner else redirect "/login")
unfolding render has_role
render_signed_out s login known = refl
render_signed_out s _ known = ground arith

-- every redirect of the application leads to the sign-in page or the dashboard
abbrev IsTarget : Screen → Type 0
IsTarget (redirect to) = (to ≡ "/login") ⊎ (to ≡ "/dashboard")
IsTarget _ = Unit

enter-IsTarget : (p : Page) (o : Outcome) → IsTarget (enter p o)
enter-IsTarget p verifying = tt
enter-IsTarget p to_login = inl refl
enter-IsTarget p (forbidden r) = tt
enter-IsTarget p outlet = tt

screen_of-IsTarget : (s : Session) (p : Page) (g : Protection) → IsTarget (screen_of s p g)
screen_of-IsTarget s p public_route = tt
screen_of-IsTarget s p (protected allowed) = enter-IsTarget p (protected_route s allowed)

render-IsTarget : (s : Session) (path : String) → IsTarget (render s path)
unfolding render
render-IsTarget s path = elim (Option-cases (find (λ r. r.path == path) routes)) [
  | inl e ↦ rw (e, render) (inr refl)
  | inr (r, e) ↦ rw (e, render) (screen_of-IsTarget s r.page r.protection)
]

settle-login : (n : ℕ) (s : Session) → settle (suc n) s "/login" ≡ shows login
unfolding settle render
settle-login n s = refl

settle-dashboard : (s : Session) (to : String) → settle 1 s "/dashboard" ≢ redirect to
unfolding settle render
settle-dashboard s to = ground arith

settle_target :
    (s : Session) (x : Screen) (to : String)
    → IsTarget x
    → elim x [
      | shows p ↦ shows p
      | spinner ↦ spinner
      | denied r ↦ denied r
      | redirect next ↦ settle 1 s next
    ]
      ≢ redirect to
settle_target s (redirect next) to (inl e) q = cc (rw e at q, settle-login 0 s)
settle_target s (redirect next) to (inr e) q = settle-dashboard s to (rw e at q)
settle_target s (shows p) to h q = cc
settle_target s _ to h q = cc

-- Following at most two redirects from any path whatever ends at a screen that is no redirect.
pub settle-ne-redirect : (s : Session) (path to : String) → settle 2 s path ≢ redirect to
unfolding settle
settle-ne-redirect s path to = settle_target s (render s path) to (render-IsTarget s path)
