-- ===== src/Pages/Applications/Launch.antt =====
-- What the catalogue shows after an access request.
use nexus_cloud_identity_acc.Common.{
  String, false, Option, none, some, ◌≡◌, ◌≢◌, refl, sym, ◌∙◌, ap, ◌==◌, eq_iff, ◌↔◌,
}
use nexus_cloud_identity_acc.Browser.{error_of, other_value, Result, ok, thrown, Network, Env}
use nexus_cloud_identity_acc.Types.{Decision, allow, deny, require_mfa, AccessCheckResponse}
use nexus_cloud_identity_acc.Api
use nexus_cloud_identity_acc.Pages.Policies.{alert_class}
use nexus_cloud_identity_acc.Pages.Applications.{
  AppItem, ApplicationsPage, launch_request, launch_app, launch_started, launch_ended, DecisionCard,
  decided, decision_card,
}

not_success : {s : String} → (s == "alert-success") ≡ false → s ≢ "alert-success"
not_success h e = cc (h, (eq_iff _ _).1 e)

abbrev IsGreen : Decision → AccessCheckResponse → Type 0
IsGreen d res = alert_class (record res { decision = d }) ≡ "alert-success"

IsGreen-only : (d : Decision) (res : AccessCheckResponse) → IsGreen d res → d ≡ allow
unfolding alert_class
IsGreen-only allow res h = refl
IsGreen-only deny res h = absurd (not_success refl h)
IsGreen-only require_mfa res h = absurd (not_success refl h)

decided_inj :
    (app : AppItem) (s t : String) (x y : AccessCheckResponse)
    → decided app s x ≡ decided app t y
    → (s ≡ t) × (x ≡ y)
decided_inj app s t x y e = (cc, cc)

card : AppItem → ApplicationsPage → Result (Option AccessCheckResponse) → DecisionCard
card app p r = decision_card (launch_ended r (launch_started app p))

danger :
    (m : String)
    → alert_class (record { decision = deny; reason = m; policy_id = none }) ≡ "alert-danger"
unfolding alert_class
danger m = refl

card_green :
    (app : AppItem) (p : ApplicationsPage) (r : Result (Option AccessCheckResponse))
    (res : AccessCheckResponse)
    → card app p r ≡ decided app "alert-success" res
    → (r ≡ ok (some res)) × (res.decision ≡ allow)
unfolding card decision_card launch_ended launch_started
card_green app p (ok (some x)) res e =
    let (success, same) = decided_inj app _ _ x res e in
    (ap (λ y. ok (some y)) same, rw (← same) (IsGreen-only x.decision x success))
card_green app p (ok none) res e = cc
card_green app p (thrown (error_of m)) res e =
    absurd
      (not_success {s = "alert-danger"} refl (sym (danger m) ∙ (decided_inj app _ _ _ res e).0))
card_green app p (thrown other_value) res e = cc

green_card :
    (app : AppItem) (p : ApplicationsPage) (d : Decision) (res : AccessCheckResponse)
    → d ≡ allow
    → card app p (ok (some (record res { decision = d })))
      ≡ decided app "alert-success" (record res { decision = d })
unfolding card decision_card launch_ended launch_started alert_class
green_card app p allow res h = refl
green_card app p _ res h = cc

module _ {W : Type 0} (net : Network W) where
  -- The card under the catalogue is green after a launch exactly when the server answered the request
  -- for this application with ALLOW, whatever the page showed before.
  pub launch_green_iff :
      (app : AppItem) (p : ApplicationsPage) (env : Env W) (res : AccessCheckResponse)
      → (decision_card (launch_app net app p env).0 ≡ decided app "alert-success" res) ↔ (
          ((Api.check_access net (launch_request app) env).0 ≡ ok (some res))
          × (res.decision ≡ allow))
  unfolding launch_app card
  launch_green_iff app p env res = (
    card_green app p (Api.check_access net (launch_request app) env).0 res,
    λ (e, h). rw e (green_card app p res.decision res h),
  )
