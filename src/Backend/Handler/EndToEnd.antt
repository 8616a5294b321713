-- ===== src/Backend/Handler/EndToEnd.antt =====
-- The application catalogue before a server that answers access requests as
-- backend/internal/policy/handler.go does.
use nexus_cloud_identity_acc.Common.{
  String, Bool, true, false, Option, some, ◌≡◌, refl, ap, ◌∙◌, ◌==◌, ◌↔◌,
}
use nexus_cloud_identity_acc.Common.Int.{pos}
use nexus_cloud_identity_acc.Browser.{ok, Network, Env, access, access_check, resolved}
use nexus_cloud_identity_acc.Types.{
  Decision, allow, deny, require_mfa, AccessCheckRequest, AccessCheckResponse,
}
use nexus_cloud_identity_acc.Api.{request_for, post, request, receive}
use nexus_cloud_identity_acc.Api
use nexus_cloud_identity_acc.Backend.Policy.{evaluate}
use nexus_cloud_identity_acc.Backend.Policy.Verdict.{Allowed, evaluate-allow_iff}
use nexus_cloud_identity_acc.Backend.Handler.{Claims, Server, check_access, policy_request}
use nexus_cloud_identity_acc.Pages.Policies.{alert_class}
use nexus_cloud_identity_acc.Pages.Applications.{
  AppItem, ApplicationsPage, launch_request, launch_app, launch_started, launch_ended, DecisionCard,
  decided, decision_card,
}

-- A network behind which the handler runs: a request with this token carries these claims, and is
-- answered from the server that the world holds.
pub record ServesAccess {W : Type 0} (net : Network W) (token : Option String) (claims : Claims)
    (server : W → Server) : Type 0 where
  pub answers :
      (req : AccessCheckRequest) (w : W)
      → (net.fetch access (request_for token "/access/check" (post (some (access_check req)))) w).0
        ≡ resolved (check_access (some claims) (some req) (server w)).0

abbrev pub is_green : DecisionCard → Bool
is_green (decided app alert res) = alert == "alert-success"
is_green _ = false

green_iff :
    (d : Decision) (res : AccessCheckResponse)
    → ((alert_class (record res { decision = d }) == "alert-success") ≡ true) ↔ (d ≡ allow)
unfolding alert_class
green_iff allow res = (λ h. refl, λ h. refl)
green_iff deny res = (λ h. cc, λ h. cc)
green_iff require_mfa res = (λ h. cc, λ h. cc)

shown_iff :
    (app : AppItem) (p : ApplicationsPage) (res : AccessCheckResponse)
    → (is_green (decision_card (launch_ended (ok (some res)) (launch_started app p))) ≡ true)
      ↔ (res.decision ≡ allow)
unfolding decision_card launch_ended launch_started
shown_iff app p res = green_iff res.decision res

receive-check_access :
    (claims : Claims) (req : AccessCheckRequest) (s : Server)
    → (req.application == "") ≡ false
    → receive (resolved (check_access (some claims) (some req) s).0)
      ≡ ok (some (evaluate s.policies (policy_request claims req)))
unfolding receive check_access
receive-check_access claims req s named = rw named refl

module _ {W : Type 0} (net : Network W) (claims : Claims) (server : W → Server) where
  answered :
      (req : AccessCheckRequest) (env : Env W)
      → ServesAccess net env.token claims server
      → (req.application == "") ≡ false
      → (Api.check_access net req env).0
        ≡ ok (some (evaluate (server env.world).policies (policy_request claims req)))
  unfolding Api.check_access request
  answered req env serves named =
      ap receive (serves.answers req env.world)
      ∙ receive-check_access claims req (server env.world) named

  -- Before a server that runs the policy handler, the card under the catalogue is green after the
  -- launch of an application with a slug exactly when some policy of the server matches the role of
  -- the token's claims and the application, and every one that matches accepts a request from a
  -- trusted device, with the second factor verified, at risk 15.
  pub launch-Allowed_iff :
      (app : AppItem) (p : ApplicationsPage) (env : Env W)
      → ServesAccess net env.token claims server
      → (app.slug == "") ≡ false
      → (is_green (decision_card (launch_app net app p env).0) ≡ true)
        ↔ Allowed (server env.world).policies (record {
          role = claims.role;
          application = app.slug;
          device_trusted = true;
          mfa_verified = true;
          risk_score = pos 15;
        })
  unfolding launch_app launch_request
  launch-Allowed_iff app p env serves named =
      let result =
        evaluate (server env.world).policies (policy_request claims (launch_request app)) in
      let asked =
        evaluate-allow_iff (server env.world).policies
          (policy_request claims (launch_request app)) in
      let seen = shown_iff app p result in
      rw (answered (launch_request app) env serves named)
        (λ h. asked.0 (seen.0 h), λ allowed. seen.1 (asked.1 allowed))
