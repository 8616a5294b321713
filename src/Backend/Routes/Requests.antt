-- ===== src/Backend/Routes/Requests.antt =====
-- The requests that each page sends when it opens, before the routes of the server.
use nexus_cloud_identity_acc.Common.{
  String, Bool, true, false, Option, none, some, List, [], ◌∷◌, ◌++◌, ◌==◌, ◌||◌, not, any, is_some,
  show, ◌≡◌, refl,
}
use nexus_cloud_identity_acc.Browser.{Network, Env, HttpRequest, rejected, error_of}
use nexus_cloud_identity_acc.Types.{Role, super_admin, admin, security_manager, analyst, role_name}
use nexus_cloud_identity_acc.Shell.Guard.{
  Page, login, register, dashboard, applications, policies, security, settings, users, roles, audit,
}
use nexus_cloud_identity_acc.Shell.Guard.Access.{may_view}
use nexus_cloud_identity_acc.Api.{request, request_for}
use nexus_cloud_identity_acc.Api
use nexus_cloud_identity_acc.Pages.Users.{users_page, fetch_users}
use nexus_cloud_identity_acc.Pages.Audit.{audit_page, fetch_logs}
use nexus_cloud_identity_acc.Pages.Policies.{policies_page, fetch_policies}
use nexus_cloud_identity_acc.Pages.Dashboard.{dashboard_page, fetch_data}
use nexus_cloud_identity_acc.Backend.Gates.{lets_in}
use nexus_cloud_identity_acc.Backend.Routes.{route_for, gate_for}

-- A network that keeps the requests and answers none.
abbrev pub recorder : Network (List HttpRequest)
recorder = record { fetch = λ r req sent. (rejected (error_of "offline"), sent ++ req ∷ []) }

abbrev pub tab : Option String → Env (List HttpRequest)
tab token = record { world = []; storage = token; token = token }

-- what the first effect of a page sends
unfoldable pub first_requests : Option String → Page → List HttpRequest
unfolding fetch_users fetch_logs fetch_policies fetch_data users_page audit_page policies_page
    dashboard_page
first_requests token users = (fetch_users recorder users_page (tab token)).1.world
first_requests token audit = (fetch_logs recorder audit_page.page audit_page (tab token)).1.world
first_requests token policies = (fetch_policies recorder policies_page (tab token)).1.world
first_requests token dashboard = (fetch_data recorder dashboard_page (tab token)).1.world
first_requests token _ = []

abbrev pub is_served : Role → HttpRequest → Bool
is_served r req = elim (gate_for req (some r)) [ none ↦ false | some g ↦ lets_in g ]

-- whether the server lets all of them through
abbrev pub all_served : Role → List HttpRequest → Bool
all_served r reqs = not (any (λ req. not (is_served r req)) reqs)

abbrev pub all_declared : List HttpRequest → Bool
all_declared reqs = not (any (λ req. not (is_some (route_for req))) reqs)

-- The dashboard is served in full to the administrators, the audit page to all who may open it but the
-- analysts, and every other page to whoever may open it.
abbrev pub in_full : Page → Role → Bool
in_full dashboard r = role_name r == "super_admin" || role_name r == "admin"
in_full audit r = not (role_name r == "analyst")
in_full _ r = true

Served : Option String → Role → Page → Type 0
Served token r p =
    (all_declared (first_requests token p) ≡ true)
    × (all_served r (first_requests token p) ≡ in_full p r)

dashboard_case : (token : Option String) (r : Role) → Served token r dashboard
unfolding Served first_requests gate_for request Api.list_users Api.list_audit_logs show
dashboard_case token super_admin = (refl, refl)
dashboard_case token _ = (refl, refl)

audit_case : (token : Option String) (r : Role) → may_view r audit ≡ true → Served token r audit
unfolding Served first_requests gate_for request Api.list_audit_logs show
audit_case token super_admin h = (refl, refl)
audit_case token admin h = (refl, refl)
audit_case token security_manager h = (refl, refl)
audit_case token analyst h = (refl, refl)
audit_case token _ h = cc

policies_case : (token : Option String) (r : Role) → Served token r policies
unfolding Served first_requests gate_for request Api.list_policies
policies_case token super_admin = (refl, refl)
policies_case token _ = (refl, refl)

users_case : (token : Option String) (r : Role) → may_view r users ≡ true → Served token r users
unfolding Served first_requests gate_for request Api.list_users
users_case token super_admin h = (refl, refl)
users_case token admin h = (refl, refl)
users_case token _ h = cc

-- Every request that a page sends when it opens for a role has a route of the server. For the pages that
-- the role may open, the server's gates let all of them through, except that the dashboard's are
-- let through in full for admin and super_admin only, and the audit page's not for analyst.
pub first_requests-served :
    (token : Option String) (r : Role) (p : Page)
    → may_view r p ≡ true
    → (all_declared (first_requests token p) ≡ true)
      × (all_served r (first_requests token p) ≡ in_full p r)
unfolding Served
first_requests-served token r dashboard h = dashboard_case token r
first_requests-served token r audit h = audit_case token r h
first_requests-served token r policies h = policies_case token r
first_requests-served token r users h = users_case token r h
first_requests-served token r login h = unfold first_requests in (refl, refl)
first_requests-served token r register h = unfold first_requests in (refl, refl)
first_requests-served token r applications h = unfold first_requests in (refl, refl)
first_requests-served token r security h = unfold first_requests in (refl, refl)
first_requests-served token r settings h = unfold first_requests in (refl, refl)
first_requests-served token r roles h = unfold first_requests in (refl, refl)
