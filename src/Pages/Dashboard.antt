-- ===== src/Pages/Dashboard.antt =====
-- frontend/src/pages/DashboardPage.tsx: the two fetches of the first effect, the endpoint prover, the
-- badges of the recent events.
pub mod Overview
pub mod Cards
pub mod Screen
use nexus_cloud_identity_acc.Common.{
  ℕ, String, Bool, true, false, Option, none, some, List, [], ◌∷◌, ◌||◌, ◌+s◌, nat_eq, or_else,
  str_includes, truthy, if◌then◌else◌, map,
}
use nexus_cloud_identity_acc.Browser.{
  Thrown, error_of, other_value, Result, ok, thrown, Network, Env, DemoResponse, UsersResponse,
  ◌>>=◌,
}
use nexus_cloud_identity_acc.Types.{AuditEvent, AuditListResponse}
use nexus_cloud_identity_acc.Api
use nexus_cloud_identity_acc.Pages.Audit.{text_or}

-- `status: number | string`, shown after "HTTP"
pub record TestResult : Type 0 where
  pub endpoint : String
  pub status : String
  pub message : String
  pub success : Bool

pub record DashboardPage : Type 0 where
  pub audit_events : List AuditEvent
  pub total_users : ℕ
  pub test_result : Option TestResult
  pub is_testing : Bool

unfoldable pub dashboard_page : DashboardPage
dashboard_page = record {
  audit_events = [];
  total_users = 4;
  test_result = none;
  is_testing = false;
}

-- a `try` with an empty `catch`
unfoldable pub audit_arrived : Result AuditListResponse → DashboardPage → DashboardPage
audit_arrived (ok res) p = record p { audit_events = or_else res.events [] }
audit_arrived (thrown e) p = p

-- `usersRes.count || 4`
abbrev count_or : Option ℕ → ℕ
count_or none = 4
count_or (some n) = if nat_eq n 0 then 4 else n

unfoldable pub users_arrived : Result UsersResponse → DashboardPage → DashboardPage
users_arrived (ok res) p = record p { total_users = count_or res.count }
users_arrived (thrown e) p = p

pub data Endpoint : Type 0 where
  admin_only user_or_admin : Endpoint

abbrev pub endpoint_name : Endpoint → String
endpoint_name admin_only = "GET /api/v1/admin-only"
endpoint_name user_or_admin = "GET /api/v1/user-or-admin"

unfoldable pub test_started : DashboardPage → DashboardPage
test_started p = record p { is_testing = true; test_result = none }

unfoldable pub test_ended : Endpoint → Result DemoResponse → DashboardPage → DashboardPage
test_ended k (ok res) p = record p {
  test_result = some (record {
    endpoint = endpoint_name k;
    status = "200";
    message = res.message +s " (Authenticated as " +s res.user +s ", role: " +s res.role +s ")";
    success = true;
  });
  is_testing = false;
}
test_ended k (thrown (error_of m)) p = record p {
  test_result =
      some
        (record { endpoint = endpoint_name k; status = "403 / 401"; message = m; success = false });
  is_testing = false;
}
test_ended k (thrown other_value) p = record p { is_testing = false }

module _ {W : Type 0} (net : Network W) where
  unfoldable pub fetch_data : DashboardPage → Env W → DashboardPage × Env W
  unfolding audit_arrived users_arrived
  fetch_data p env =
      let (r, env1) = (Api.list_audit_logs net 1 6 >>= Api.not_null) env in
      let (q, env2) = (Api.list_users net >>= Api.not_null) env1 in
      (users_arrived q (audit_arrived r p), env2)

  unfoldable pub call_endpoint : Endpoint → Env W → Result DemoResponse × Env W
  call_endpoint admin_only = Api.get_admin_only net >>= Api.not_null
  call_endpoint user_or_admin = Api.get_user_or_admin net >>= Api.not_null

  unfoldable pub test_endpoint : Endpoint → DashboardPage → Env W → DashboardPage × Env W
  unfolding test_started test_ended call_endpoint
  test_endpoint k p env =
      let (r, env') = call_endpoint k env in (test_ended k r (test_started p), env')

unfoldable pub event_badge : String → String
event_badge action =
    if str_includes action "SUCCESS"
      || str_includes action "GRANTED"
      || str_includes action "REGISTERED"
    then "badge-green"
    else if str_includes action "DENIED"
        || str_includes action "FAILED"
        || str_includes action "RATE_LIMIT"
    then "badge-red"
    else "badge-blue"

pub record EventRow : Type 0 where
  pub badge : String
  pub action : String
  pub resource : String
  pub ip : String
  pub timestamp : String

unfoldable pub event_row : (String → String) → AuditEvent → EventRow
unfolding event_badge
event_row local_time e = record {
  badge = event_badge e.action;
  action = e.action;
  resource = text_or e.resource (λ s. s) (text_or e.user_id (λ s. s) "system");
  ip = text_or e.ip_address (λ s. s) "127.0.0.1";
  timestamp = local_time e.timestamp;
}
