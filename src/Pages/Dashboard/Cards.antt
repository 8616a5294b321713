-- ===== src/Pages/Dashboard/Cards.antt =====
-- frontend/src/pages/DashboardPage.tsx: the statistics cards, the prover's card and the event table.
-- A missing user's fields are rendered as nothing.
use nexus_cloud_identity_acc.Common.{
  ℕ, String, Bool, false, Option, none, some, ◌+s◌, substring, if◌then◌else◌,
}
use nexus_cloud_identity_acc.Types.{User, role_name}
use nexus_cloud_identity_acc.Pages.View.{Table, table_of}
use nexus_cloud_identity_acc.Pages.Dashboard.{DashboardPage, TestResult, EventRow, event_row}

pub record Statistics : Type 0 where
  pub active_users : ℕ
  pub current_role : String
  pub id : String
  pub mfa_status : String
  pub mfa_color : String

abbrev is_enrolled : Option User → Bool
is_enrolled none = false
is_enrolled (some u) = u.mfa_enabled

abbrev field_of : (User → String) → Option User → String
field_of f none = ""
field_of f (some u) = f u

unfoldable pub statistics : Option User → DashboardPage → Statistics
statistics u p = record {
  active_users = p.total_users;
  current_role = field_of (λ v. role_name v.role) u;
  id = "ID: " +s field_of (λ v. substring 8 v.id) u +s "...";
  mfa_status = if is_enrolled u then "Enforced" else "Optional";
  mfa_color = if is_enrolled u then "var(--accent-green)" else "var(--accent-amber)";
}

-- the alert with the result of a test: its class, its heading, its message
unfoldable pub test_alert : TestResult → String × String × String
test_alert r = (
  if r.success then "alert-success" else "alert-danger",
  r.endpoint +s " → HTTP " +s r.status,
  r.message,
)

unfoldable pub event_table : (String → String) → DashboardPage → Table EventRow
unfolding event_row
event_table local_time p = table_of false (event_row local_time) p.audit_events
