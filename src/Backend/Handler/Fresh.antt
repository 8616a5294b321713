-- ===== src/Backend/Handler/Fresh.antt =====
-- The application catalogue before a server that has just started: its policies are those that
-- `NewEngine` of backend/internal/policy/engine.go seeds.
use nexus_cloud_identity_acc.Common.{
  String, Bool, true, false, ◌≡◌, refl, sym, ◌∙◌, ◌==◌, ◌&&◌, ◌||◌, ◌↔◌,
}
use nexus_cloud_identity_acc.Browser.{Network, Env}
use nexus_cloud_identity_acc.Backend.Policy.Verdict.{evaluate-allow_iff}
use nexus_cloud_identity_acc.Backend.Policy.Defaults.{
  new_engine, Differ, default_allows, evaluate-new_engine_iff,
}
use nexus_cloud_identity_acc.Backend.Handler.{Claims, Server, policy_request}
use nexus_cloud_identity_acc.Backend.Handler.EndToEnd.{ServesAccess, is_green, launch-Allowed_iff}
use nexus_cloud_identity_acc.Pages.Applications.{
  AppItem, ApplicationsPage, launch_request, launch_app, decision_card,
}

-- the roles that see green, and the one application of developers
abbrev pub opens_for : (role slug : String) → Bool
opens_for role slug =
    role == "viewer" || role == "admin" || (role == "developer" && slug == "aws-console")

launch_tests :
    (v a d s : Bool)
    → (v || (a && true && true) || (d && s && true && true && true)) ≡ (v || a || (d && s))
launch_tests true a d s = refl
launch_tests false true d s = refl
launch_tests false false false s = refl
launch_tests false false true true = refl
launch_tests false false true false = refl

default_allows-launch :
    (claims : Claims) (app : AppItem)
    → default_allows (policy_request claims (launch_request app)) ≡ opens_for claims.role app.slug
unfolding launch_request
default_allows-launch claims app =
    launch_tests (claims.role == "viewer") (claims.role == "admin") (claims.role == "developer")
      (app.slug == "aws-console")

module _ {W : Type 0} (net : Network W) (claims : Claims) (server : W → Server) where
  -- Before a server that runs the policy handler on the policies that a new engine has, under three ids
  -- that differ, the card under the catalogue is green after the launch of an application with a slug
  -- exactly when the role of the token's claims is viewer or admin, or is developer and the
  -- application is `aws-console`.
  pub launch-new_engine_iff :
      (app : AppItem) (p : ApplicationsPage) (env : Env W) (first second third : String)
      → ServesAccess net env.token claims server
      → (app.slug == "") ≡ false
      → Differ first second third
      → (server env.world).policies ≡ new_engine first second third
      → (is_green (decision_card (launch_app net app p env).0) ≡ true)
        ↔ (opens_for claims.role app.slug ≡ true)
  unfolding launch_request
  launch-new_engine_iff app p env first second third serves named differ fresh =
      let req = policy_request claims (launch_request app) in
      let green = launch-Allowed_iff net claims server app p env serves named in
      let allowed = rw fresh at green in
      let decided = evaluate-allow_iff (new_engine first second third) req in
      let by_default = evaluate-new_engine_iff first second third req differ in
      let same = default_allows-launch claims app in
      (
        λ h. sym same ∙ by_default.0 (decided.1 (allowed.0 h)),
        λ h. allowed.1 (decided.0 (by_default.1 (same ∙ h))),
      )
