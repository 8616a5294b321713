-- ===== src/Shell/Navbar.antt =====
-- frontend/src/components/Navbar.tsx: the page title and the health badge. The timer that repeats the
-- check every 30 seconds is a list of answers.
use nexus_cloud_identity_acc.Common.{
  String, Option, none, some, List, [], ◌∷◌, ◌==◌, ◌+s◌, if◌then◌else◌,
}
use nexus_cloud_identity_acc.Browser.{Result, ok, thrown, Network, Env, HealthResponse}
use nexus_cloud_identity_acc.Api

unfoldable pub page_title : String → String
page_title path =
    if path == "/dashboard"
    then "Security Operations Center"
    else if path == "/users"
    then "Identity & User Management"
    else if path == "/roles"
    then "RBAC Permissions Matrix"
    else if path == "/applications"
    then "Application Resource Catalog"
    else if path == "/policies"
    then "Policy-Based Access Control (PBAC)"
    else if path == "/audit"
    then "Security Audit Trail"
    else if path == "/security"
    then "Multi-Factor Authentication & Controls"
    else if path == "/settings"
    then "Session & Profile Settings"
    else "NEXUS Security Platform"

abbrev pub checking : String
checking = "checking..."

-- what `checkBackend` does with an answer; null has no `status`, and its `catch` is the same
unfoldable pub health_arrived : Result (Option HealthResponse) → String → String
health_arrived (thrown e) status = "DEGRADED"
health_arrived (ok none) status = "DEGRADED"
health_arrived (ok (some res)) status = if res.status == "ok" then "ONLINE" else status

unfoldable pub check_backend : {W : Type 0} → Network W → String → Env W → String × Env W
unfolding health_arrived
check_backend net status env =
    let (r, env') = Api.check_health net env in (health_arrived r status, env')

-- the checks of a mounted bar, one after the other
unfoldable pub checks : List (Result (Option HealthResponse)) → String → String
unfolding health_arrived
checks [] status = status
checks (r ∷ rs) status = checks rs (health_arrived r status)

unfoldable pub badge : String → String
badge status = if status == "ONLINE" then "badge-green" else "badge-amber"

abbrev pub secrets_manager_source : String
secrets_manager_source = "AWS Secrets Manager (Fallback: Env)"

-- the bar: the title of the page, the badge of the key provider, and that of the backend with its class
pub record NavbarView : Type 0 where
  pub title : String
  pub key_title : String
  pub key_badge : String
  pub health_title : String
  pub health_class : String
  pub health : String

unfoldable pub navbar : (path status : String) → NavbarView
unfolding page_title badge
navbar path status = record {
  title = page_title path;
  key_title = "Cryptographic Key Provider";
  key_badge = secrets_manager_source;
  health_title = "Backend Cluster Health";
  health_class = badge status;
  health = "API: " +s status;
}
