-- ===== src/Pages/Dashboard/Screen.antt =====
-- frontend/src/pages/DashboardPage.tsx: the whole page, with its links.
use nexus_cloud_identity_acc.Common.{String, Bool, Option, none, some, List, [], ◌∷◌}
use nexus_cloud_identity_acc.Types.{User}
use nexus_cloud_identity_acc.Pages.View.{Table, Heading, Link, Note}
use nexus_cloud_identity_acc.Pages.Dashboard.{
  DashboardPage, Endpoint, admin_only, user_or_admin, TestResult, EventRow,
}
use nexus_cloud_identity_acc.Pages.Dashboard.Cards.{Statistics, statistics, test_alert, event_table}

-- the links of the heading, and the one of the events
abbrev pub heading_links : List Link
heading_links =
    record { text = "Evaluate Access"; to = "/policies" }
    ∷ record { text = "MFA Settings"; to = "/security" }
    ∷ []

abbrev pub stream_link : Link
stream_link = record { text = "View Full Trail"; to = "/audit" }

-- the card that says that sign-ins are limited
abbrev pub limiter_card : String × String × String
limiter_card = ("Rate Limiter", "Active", "Redis 5-Attempt Sliding")

-- the buttons of the prover: the endpoint that each tests, its label, and whether it is disabled
unfoldable pub prover_buttons : DashboardPage → List (Endpoint × String × Bool)
prover_buttons p =
    (user_or_admin, "Call /user-or-admin", p.is_testing)
    ∷ (admin_only, "Call /admin-only", p.is_testing)
    ∷ []

-- the steps of the `Access Decision Pipeline`
abbrev pub pipeline : List String
pipeline =
    "USER → AUTHENTICATION (Bcrypt Cost 12)" ∷ "JWT SIGNATURE (AWS Secrets Manager / HS256)"
    ∷ "MFA VERIFICATION (RFC 6238 TOTP HMAC-SHA1)"
    ∷ "RBAC PERMISSIONS CHECK (Fine-grained capabilities)"
    ∷ "POLICY ENGINE EVALUATION (Risk + Device Trust)" ∷ "ACCESS DECISION → AUDIT TRAIL RECORDED"
    ∷ []

abbrev alert_for : Option TestResult → Option (String × String × String)
alert_for none = none
alert_for (some r) = some (test_alert r)

-- The steps' card has a title and a badge; `nothing` is the text of the row without an event.
pub record DashboardScreen : Type 0 where
  pub heading : Heading
  pub links : List Link
  pub statistics : Statistics
  pub limiter : String × String × String
  pub prover : Note
  pub buttons : List (Endpoint × String × Bool)
  pub result : Option (String × String × String)
  pub steps_card : String × String
  pub steps : List String
  pub stream : String
  pub stream_link : Link
  pub columns : List String
  pub nothing : String
  pub events : Table EventRow

unfoldable pub dashboard_screen :
    (local_time : String → String) → Option User → DashboardPage → DashboardScreen
unfolding statistics prover_buttons test_alert event_table
dashboard_screen local_time u p = record {
  heading = record {
    title = "Security Overview";
    subtitle = "Organization Identity Posture & Zero-Trust Access State";
  };
  links = heading_links;
  statistics = statistics u p;
  limiter = limiter_card;
  prover = record {
    title = "Live RBAC Endpoint Prover";
    badge = "Interactive Test";
    text =
        "Exercise backend RBAC authorization middleware in real-time. Verify whether your token is accepted (200) or rejected (403/401).";
  };
  buttons = prover_buttons p;
  result = alert_for p.test_result;
  steps_card = ("Access Decision Pipeline", "Zero Trust");
  steps = pipeline;
  stream = "Recent Security Audit Stream";
  stream_link = stream_link;
  columns = "Event Action" ∷ "Resource / User" ∷ "IP Address" ∷ "Timestamp" ∷ [];
  nothing = "No audit records available for your role or event stream is currently initializing.";
  events = event_table local_time p;
}
