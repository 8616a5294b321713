-- ===== src/Pages/Applications/Screen.antt =====
-- frontend/src/pages/ApplicationsPage.tsx: the whole page.
use nexus_cloud_identity_acc.Common.{String, List}
use nexus_cloud_identity_acc.Pages.View.{Heading}
use nexus_cloud_identity_acc.Pages.Applications.{
  ApplicationsPage, AppCard, catalogue, DecisionCard, decision_card,
}

-- Under each card stand a line and the button that calls `handleLaunchApp`.
pub record ApplicationsScreen : Type 0 where
  pub heading : Heading
  pub cards : List AppCard
  pub line : String
  pub button : String
  pub decision : DecisionCard

unfoldable pub applications_screen : ApplicationsPage → ApplicationsScreen
unfolding catalogue decision_card
applications_screen p = record {
  heading = record {
    title = "Application Resource Catalog";
    subtitle =
        "Protected organizational workloads governed by Zero-Trust contextual security policies";
  };
  cards = catalogue;
  line = "Policy Enforced";
  button = "Request Access";
  decision = decision_card p;
}
