-- ===== src/Pages/Applications.antt =====
-- frontend/src/pages/ApplicationsPage.tsx: the catalogue and the access request.
pub mod Launch
pub mod Screen
use nexus_cloud_identity_acc.Common.{
  String, Bool, true, false, Option, none, some, List, [], ◌∷◌, ◌==◌, if◌then◌else◌, map,
}
use nexus_cloud_identity_acc.Common.Int.{pos}
use nexus_cloud_identity_acc.Browser.{Result, ok, thrown, Network, Env}
use nexus_cloud_identity_acc.Types.{AccessCheckRequest, AccessCheckResponse}
use nexus_cloud_identity_acc.Api
use nexus_cloud_identity_acc.Pages.Policies.{denied_by, alert_class}

pub data IconType : Type 0 where
  aws db chart vault : IconType

pub data Sensitivity : Type 0 where
  critical high medium : Sensitivity

pub record AppItem : Type 0 where
  pub id : String
  pub name : String
  pub slug : String
  pub description : String
  pub icon_type : IconType
  pub sensitivity : Sensitivity

abbrev pub apps : List AppItem
apps =
    record {
      id = "app-aws-console";
      name = "AWS Management Console";
      slug = "aws-console";
      description =
          "Production cloud infrastructure orchestration, ECS clusters, VPC and IAM roles.";
      icon_type = aws;
      sensitivity = critical;
    }
    ∷ record {
      id = "app-prod-db";
      name = "Production PostgreSQL Database";
      slug = "prod-db";
      description = "Core transactional customer data warehouse and identity store replica.";
      icon_type = db;
      sensitivity = critical;
    }
    ∷ record {
      id = "app-reporting";
      name = "Executive Reporting Dashboard";
      slug = "reporting-dashboard";
      description = "Business intelligence telemetry, analytics exports, and compliance reporting.";
      icon_type = chart;
      sensitivity = medium;
    }
    ∷ record {
      id = "app-vault";
      name = "Cloud Secrets Vault";
      slug = "secrets-vault";
      description = "AWS Secrets Manager signing keys, HSM tokens, and database credentials.";
      icon_type = vault;
      sensitivity = critical;
    }
    ∷ []

pub record ApplicationsPage : Type 0 where
  pub selected_app : Option AppItem
  pub check_result : Option AccessCheckResponse
  pub is_checking : Bool

unfoldable pub applications_page : ApplicationsPage
applications_page = record { selected_app = none; check_result = none; is_checking = false }

-- what `handleLaunchApp` sends
unfoldable pub launch_request : AppItem → AccessCheckRequest
launch_request app = record {
  application = app.slug;
  device_trusted = true;
  mfa_verified = true;
  risk_score = pos 15;
}

unfoldable pub launch_started : AppItem → ApplicationsPage → ApplicationsPage
launch_started app p = record p { selected_app = some app; is_checking = true; check_result = none }

unfoldable pub launch_ended :
    Result (Option AccessCheckResponse) → ApplicationsPage → ApplicationsPage
launch_ended (ok res) p = record p { check_result = res; is_checking = false }
launch_ended (thrown e) p = record p {
  check_result = denied_by e p.check_result;
  is_checking = false;
}

module _ {W : Type 0} (net : Network W) where
  unfoldable pub launch_app : AppItem → ApplicationsPage → Env W → ApplicationsPage × Env W
  unfolding launch_request launch_started launch_ended
  launch_app app p env =
      let (r, env') = Api.check_access net (launch_request app) env in
      (launch_ended r (launch_started app p), env')

-- the card under the catalogue
pub data DecisionCard : Type 0 where
  hidden : DecisionCard
  evaluating : AppItem → DecisionCard
  decided : AppItem → (alert : String) → AccessCheckResponse → DecisionCard
  blank : AppItem → DecisionCard

abbrev card_of : AppItem → Bool → Option AccessCheckResponse → DecisionCard
card_of app true res = evaluating app
card_of app false (some res) = decided app (alert_class res) res
card_of app false none = blank app

unfoldable pub decision_card : ApplicationsPage → DecisionCard
decision_card p = elim p.selected_app [
  | none ↦ hidden
  | some app ↦ card_of app p.is_checking p.check_result
]

unfoldable pub sensitivity_badge : Sensitivity → String
sensitivity_badge critical = "badge-red"
sensitivity_badge _ = "badge-green"

abbrev sensitivity_name : Sensitivity → String
sensitivity_name critical = "Critical"
sensitivity_name high = "High"
sensitivity_name medium = "Medium"

-- `renderIcon`: the icon and its colour
unfoldable pub render_icon : IconType → String × String
render_icon aws = ("Cloud", "#f59e0b")
render_icon db = ("Database", "#3b82f6")
render_icon chart = ("BarChart3", "#10b981")
render_icon vault = ("Key", "#8b5cf6")

-- the card of an application
pub record AppCard : Type 0 where
  pub icon : String × String
  pub badge : String
  pub sensitivity : String
  pub name : String
  pub slug : String
  pub description : String

unfoldable pub app_card : AppItem → AppCard
unfolding render_icon sensitivity_badge
app_card app = record {
  icon = render_icon app.icon_type;
  badge = sensitivity_badge app.sensitivity;
  sensitivity = sensitivity_name app.sensitivity;
  name = app.name;
  slug = app.slug;
  description = app.description;
}

unfoldable pub catalogue : List AppCard
unfolding app_card
catalogue = map app_card apps
