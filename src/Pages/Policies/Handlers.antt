-- ===== src/Pages/Policies/Handlers.antt =====
-- What the policy page's handlers leave, on every branch.
use nexus_cloud_identity_acc.Common.{String, false, some, [], ◌∷◌, ◌++◌, ◌≡◌, refl, arith, ◌⊎◌}
use nexus_cloud_identity_acc.Browser.{error_of, other_value, Result, ok, thrown, Network, Env}
use nexus_cloud_identity_acc.Types.{allow, AccessCheckResponse}
use nexus_cloud_identity_acc.Api
use nexus_cloud_identity_acc.Pages.Policies.{
  PoliciesPage, policy_of, access_request, create_policy, delete_policy, run_evaluation,
  fetch_policies, then_refresh, close_form,
}

module _ {W : Type 0} (net : Network W) where
  -- The sandbox fails closed: an ALLOW that it shows after an evaluation is the one with which the
  -- server answered this request, or was shown already and what was thrown is no `Error`.
  pub run_evaluation_closed :
      (p : PoliciesPage) (env : Env W) (res : AccessCheckResponse)
      → (run_evaluation net p env).0.sandbox.result ≡ some res
      → res.decision ≡ allow
      → ((Api.check_access net (access_request p.sandbox) env).0 ≡ ok (some res))
        ⊎ (((Api.check_access net (access_request p.sandbox) env).0 ≡ thrown other_value)
            × (p.sandbox.result ≡ some res))
  unfolding run_evaluation
  run_evaluation_closed p env res e h = ground arith

  fetch_policies_keeps :
      (p : PoliciesPage) (env : Env W)
      → let p' = (fetch_policies net p env).0 in
        (p'.form ≡ p.form)
        × (p'.sandbox ≡ p.sandbox)
        × (p'.alerts ≡ p.alerts)
        × (p'.is_loading ≡ false)
  unfolding fetch_policies
  fetch_policies_keeps p env = ground arith

  -- how the form stands after the server's answer to a creation
  abbrev pub Ends : {A : Type 0} → PoliciesPage → Result A → PoliciesPage → Type 0
  Ends p (ok _) p' =
      (p'.form ≡ record p.form { shown = false; policy_name = "" })
      × (p'.is_loading ≡ false)
      × (p'.alerts ≡ p.alerts)
  Ends p (thrown (error_of m)) p' =
      (p'.form ≡ p.form) × (p'.policies ≡ p.policies) × (p'.alerts ≡ p.alerts ++ m ∷ [])
  Ends p (thrown other_value) p' =
      (p'.form ≡ p.form) × (p'.policies ≡ p.policies) × (p'.alerts ≡ p.alerts)

  then_refresh-Ends :
      {A : Type 0} (p : PoliciesPage) (x : Result A × Env W)
      → Ends p x.0 (then_refresh net close_form p x).0
  then_refresh-Ends p (ok a, env) =
      let (form, _, alerts, done) = fetch_policies_keeps (close_form p) env in (form, done, alerts)
  then_refresh-Ends p (thrown (error_of m), env) = (refl, refl, refl)
  then_refresh-Ends p (thrown other_value, env) = (refl, refl, refl)

  -- A policy that the server takes closes the form, clears the name alone, leaves the page not
  -- loading, and raises no alert; one that it refuses leaves the list and the whole form as they
  -- were, so that it can be sent again, and the message of an `Error` is appended to the alerts.
  pub create_policy-Ends :
      (p : PoliciesPage) (env : Env W)
      → Ends p (Api.create_policy net (policy_of p.form) env).0 (create_policy net p env).0
  unfolding create_policy
  create_policy-Ends p env = then_refresh-Ends p (Api.create_policy net (policy_of p.form) env)

  -- A deletion that the user does not confirm sends nothing and changes nothing.
  pub delete_unconfirmed :
      (id : String) (p : PoliciesPage) (env : Env W) → delete_policy net false id p env ≡ (p, env)
  unfolding delete_policy
  delete_unconfirmed id p env = refl
