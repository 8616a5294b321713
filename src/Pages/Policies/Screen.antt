-- ===== src/Pages/Policies/Screen.antt =====
-- frontend/src/pages/PoliciesPage.tsx: the heading, the decision of the sandbox, the head of the table.
use nexus_cloud_identity_acc.Common.{
  String, Option, none, some, List, [], ◌∷◌, length, show, ◌+s◌, if◌then◌else◌,
}
use nexus_cloud_identity_acc.Types.{User, AccessCheckResponse, decision_name}
use nexus_cloud_identity_acc.Pages.View.{Table, Heading, Note}
use nexus_cloud_identity_acc.Pages.Policies.{
  PoliciesPage, PolicyRow, policies_table, alert_class, can_manage,
}
use nexus_cloud_identity_acc.Pages.Policies.Controls.{toggle_label}

-- the alert with a decision: its class and its two lines
pub record DecisionAlert : Type 0 where
  pub alert : String
  pub decision : String
  pub reason : String

unfoldable pub decision_alert : AccessCheckResponse → DecisionAlert
unfolding alert_class
decision_alert res = record {
  alert = alert_class res;
  decision = "DECISION: " +s decision_name res.decision;
  reason = "Reason: " +s res.reason;
}

abbrev alert_for : Option AccessCheckResponse → Option DecisionAlert
alert_for none = none
alert_for (some res) = some (decision_alert res)

-- the columns, with `Manage` for those who may
unfoldable pub policy_columns : Option User → List String
unfolding can_manage
policy_columns u =
    "Policy Rule"
    ∷ "Role"
    ∷ "Application"
    ∷ "MFA Required"
    ∷ "Trusted Device"
    ∷ "Max Risk"
    ∷ "Action"
    ∷ (if can_manage u then "Manage" ∷ [] else [])

-- the page's heading
abbrev policies_heading : Heading
policies_heading = record {
  title = "Policy-Based Access Control (PBAC)";
  subtitle =
      "Fine-grained access control policies evaluating contextual factors (MFA, Device Trust, Risk Score)";
}

-- the title of the card with the creation form, while it is shown
unfoldable pub form_title : PoliciesPage → Option String
form_title p = if p.form.shown then some "Define New Security Policy" else none

-- the button that sends the form
unfoldable pub submit_label : PoliciesPage → Option String
submit_label p = if p.form.shown then some "Save Policy to Cluster" else none

-- the head of the sandbox's card: title, badge and text
abbrev sandbox_head : Note
sandbox_head = record {
  title = "Interactive Policy Evaluation Sandbox";
  badge = "POST /api/v1/access/check";
  text =
      "Simulate an inbound access request with custom risk factors and verify real-time policy decisions.";
}

-- The table's card has the badge `count`. `waiting` and `nothing` are the texts of the two rows without a
-- policy.
pub record PoliciesScreen : Type 0 where
  pub heading : Heading
  pub toggle : Option String
  pub form : Option String
  pub submit : Option String
  pub sandbox : Note
  pub decision : Option DecisionAlert
  pub card : String
  pub count : String
  pub columns : List String
  pub waiting : String
  pub nothing : String
  pub table : Table PolicyRow

unfoldable pub policies_screen : Option User → PoliciesPage → PoliciesScreen
unfolding toggle_label decision_alert policy_columns policies_table
policies_screen u p = record {
  heading = policies_heading;
  toggle = toggle_label u p;
  form = form_title p;
  submit = submit_label p;
  sandbox = sandbox_head;
  decision = alert_for p.sandbox.result;
  card = "Active Policy Cluster Rules";
  count = show (length p.policies) +s " Active Rules";
  columns = policy_columns u;
  waiting = "Loading active policies...";
  nothing = "No policies defined.";
  table = policies_table u p;
}
