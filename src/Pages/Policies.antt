-- ===== src/Pages/Policies.antt =====
-- frontend/src/pages/PoliciesPage.tsx: the list, the creation form, the sandbox, the table. `confirm`
-- is an argument, `alert` appends to a list; a fetch that is not awaited runs next.
pub mod Handlers
pub mod Controls
pub mod Screen
use nexus_cloud_identity_acc.Common.{
  ℕ, String, Bool, true, false, Option, none, some, List, [], ◌∷◌, ◌++◌, ◌==◌, ◌+s◌, substring,
  show, not, or_else, if◌then◌else◌,
}
use nexus_cloud_identity_acc.Common.Int.{ℤ, pos, negsuc, ltb_ℤ, parse_int}
use nexus_cloud_identity_acc.Browser.{
  Thrown, error_of, other_value, Result, ok, thrown, Network, Env, PoliciesResponse, ◌>>=◌,
}
use nexus_cloud_identity_acc.Types.{
  admin, security_manager, super_admin, User, Decision, allow, deny, require_mfa, decision_name,
  NewPolicy, Policy, AccessCheckRequest, AccessCheckResponse,
}
use nexus_cloud_identity_acc.Api
use nexus_cloud_identity_acc.Auth.{has_role}
use nexus_cloud_identity_acc.Pages.View.{Table, table_of}

-- the `useState` variables of the form and of the sandbox
pub record CreateForm : Type 0 where
  pub shown : Bool
  pub policy_name : String
  pub target_role : String
  pub target_app : String
  pub require_mfa : Bool
  pub require_trusted : Bool
  pub max_risk : ℤ

pub record Sandbox : Type 0 where
  pub app : String
  pub trusted : Bool
  pub mfa : Bool
  pub risk : ℤ
  pub result : Option AccessCheckResponse
  pub is_evaluating : Bool

pub record PoliciesPage : Type 0 where
  pub policies : List Policy
  pub is_loading : Bool
  pub form : CreateForm
  pub sandbox : Sandbox
  pub alerts : List String

unfoldable pub policies_page : PoliciesPage
policies_page = record {
  policies = [];
  is_loading = true;
  form = record {
    shown = false;
    policy_name = "";
    target_role = "developer";
    target_app = "aws-console";
    require_mfa = true;
    require_trusted = true;
    max_risk = pos 70;
  };
  sandbox = record {
    app = "aws-console";
    trusted = true;
    mfa = true;
    risk = pos 25;
    result = none;
    is_evaluating = false;
  };
  alerts = [];
}

unfoldable pub policies_ended : Result PoliciesResponse → PoliciesPage → PoliciesPage
policies_ended (ok res) p = record p { policies = res.policies; is_loading = false }
policies_ended (thrown e) p = record p { is_loading = false }

-- `if (err instanceof Error) { alert(err.message); }`
abbrev alert_error : Thrown → PoliciesPage → PoliciesPage
alert_error (error_of m) p = record p { alerts = p.alerts ++ m ∷ [] }
alert_error other_value p = p

-- what `handleCreatePolicy` sends
unfoldable pub policy_of : CreateForm → NewPolicy
policy_of f = record {
  name = f.policy_name;
  role = f.target_role;
  application = f.target_app;
  require_mfa = f.require_mfa;
  require_trusted_device = f.require_trusted;
  max_risk_score = f.max_risk;
  decision = allow;
  enabled = true;
}

-- `setMaxRisk(parseInt(e.target.value) || 0)`
unfoldable pub type_max_risk : String → PoliciesPage → PoliciesPage
type_max_risk s p = record p { form = record p.form { max_risk = or_else (parse_int s) (pos 0) } }

unfoldable pub toggle_form : PoliciesPage → PoliciesPage
toggle_form p = record p { form = record p.form { shown = not p.form.shown } }

abbrev pub close_form : PoliciesPage → PoliciesPage
close_form p = record p { form = record p.form { shown = false; policy_name = "" } }

-- what `handleRunEvaluation` sends
unfoldable pub access_request : Sandbox → AccessCheckRequest
access_request s = record {
  application = s.app;
  device_trusted = s.trusted;
  mfa_verified = s.mfa;
  risk_score = s.risk;
}

-- `catch`: an error becomes a DENY with its message
abbrev pub denied_by : Thrown → Option AccessCheckResponse → Option AccessCheckResponse
denied_by (error_of m) old = some (record { decision = deny; reason = m; policy_id = none })
denied_by other_value old = old

unfoldable pub evaluation_started : Sandbox → Sandbox
evaluation_started s = record s { is_evaluating = true }

unfoldable pub evaluation_ended : Result (Option AccessCheckResponse) → Sandbox → Sandbox
evaluation_ended (ok res) s = record s { result = res; is_evaluating = false }
evaluation_ended (thrown e) s = record s { result = denied_by e s.result; is_evaluating = false }

module _ {W : Type 0} (net : Network W) where
  unfoldable pub fetch_policies : PoliciesPage → Env W → PoliciesPage × Env W
  unfolding policies_ended
  fetch_policies p env =
      let (r, env') = (Api.list_policies net >>= Api.not_null) env in
      (policies_ended r (record p { is_loading = true }), env')

  -- the rest of a handler that ends in `fetchPolicies()` or in an alert
  abbrev pub then_refresh :
      {A : Type 0}
      → (PoliciesPage → PoliciesPage)
      → PoliciesPage
      → Result A × Env W
      → PoliciesPage × Env W
  then_refresh f p (ok _, env) = fetch_policies (f p) env
  then_refresh f p (thrown e, env) = (alert_error e p, env)

  unfoldable pub create_policy : PoliciesPage → Env W → PoliciesPage × Env W
  unfolding policy_of
  create_policy p env = then_refresh close_form p (Api.create_policy net (policy_of p.form) env)

  unfoldable pub delete_policy : Bool → String → PoliciesPage → Env W → PoliciesPage × Env W
  delete_policy confirmed id p env =
      if not confirmed then (p, env) else then_refresh (λ q. q) p (Api.delete_policy net id env)

  unfoldable pub run_evaluation : PoliciesPage → Env W → PoliciesPage × Env W
  unfolding access_request evaluation_started evaluation_ended
  run_evaluation p env =
      let (r, env') = Api.check_access net (access_request p.sandbox) env in
      (record p { sandbox = evaluation_ended r (evaluation_started p.sandbox) }, env')

unfoldable pub can_manage : Option User → Bool
can_manage u = has_role u (admin ∷ security_manager ∷ super_admin ∷ [])

-- the class of the alert that shows a decision
unfoldable pub alert_class : AccessCheckResponse → String
alert_class res =
    if decision_name res.decision == "ALLOW"
    then "alert-success"
    else if decision_name res.decision == "REQUIRE_MFA"
    then "alert-info"
    else "alert-danger"

pub record PolicyRow : Type 0 where
  pub name : String
  pub id : String
  pub role : String
  pub application : String
  pub mfa : String
  pub trusted : String
  pub max_risk : String
  pub action : String
  pub manage : Bool

abbrev show_ℤ : ℤ → String
show_ℤ (pos n) = show n
show_ℤ (negsuc n) = "-" +s show (ℕ.suc n)

unfoldable pub policy_row : Option User → Policy → PolicyRow
unfolding can_manage
policy_row u p = record {
  name = p.name;
  id = substring 14 p.id +s "...";
  role = p.role;
  application = p.application;
  mfa = if p.require_mfa then "Required" else "Optional";
  trusted = if p.require_trusted_device then "Required" else "Optional";
  max_risk = if ltb_ℤ (pos 0) p.max_risk_score then "< " +s show_ℤ p.max_risk_score else "None";
  action = decision_name p.decision;
  manage = can_manage u;
}

unfoldable pub policies_table : Option User → PoliciesPage → Table PolicyRow
unfolding policy_row
policies_table u p = table_of p.is_loading (policy_row u) p.policies
