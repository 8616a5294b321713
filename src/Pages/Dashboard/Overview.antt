-- ===== src/Pages/Dashboard/Overview.antt =====
-- The endpoint prover and the badges of the overview.
use nexus_cloud_identity_acc.Common.{
  String, true, false, Option, none, some, ◌≡◌, refl, arith, ◌+s◌, str_includes,
}
use nexus_cloud_identity_acc.Browser.{
  error_of, other_value, Result, ok, thrown, Network, Env, DemoResponse,
}
use nexus_cloud_identity_acc.Pages.Audit.{action_badge}
use nexus_cloud_identity_acc.Pages.Dashboard.{
  DashboardPage, TestResult, Endpoint, endpoint_name, test_started, test_ended, test_endpoint,
  call_endpoint, event_badge,
}

-- what the prover shows for the answer of an endpoint
abbrev pub verdict : Endpoint → Result DemoResponse → Option TestResult
verdict k (ok res) = some (record {
  endpoint = endpoint_name k;
  status = "200";
  message = res.message +s " (Authenticated as " +s res.user +s ", role: " +s res.role +s ")";
  success = true;
})
verdict k (thrown (error_of m)) =
    some (record { endpoint = endpoint_name k; status = "403 / 401"; message = m; success = false })
verdict k (thrown other_value) = none

test_ended-verdict :
    (k : Endpoint) (r : Result DemoResponse) (p : DashboardPage)
    → let p' = test_ended k r (test_started p) in
      (p'.test_result ≡ verdict k r)
      × (p'.is_testing ≡ false)
      × (p'.audit_events ≡ p.audit_events)
      × (p'.total_users ≡ p.total_users)
unfolding test_ended test_started
test_ended-verdict k (ok res) p = (refl, refl, refl, refl)
test_ended-verdict k (thrown (error_of m)) p = (refl, refl, refl, refl)
test_ended-verdict k (thrown other_value) p = (refl, refl, refl, refl)

module _ {W : Type 0} (net : Network W) where
  -- A test of an endpoint shows a success exactly where the request returned, names the endpoint that
  -- was called, ends the waiting state, and keeps the events and the count.
  pub test_endpoint-verdict :
      (k : Endpoint) (p : DashboardPage) (env : Env W)
      → let p' = (test_endpoint net k p env).0 in
        (p'.test_result ≡ verdict k (call_endpoint net k env).0)
        × (p'.is_testing ≡ false)
        × (p'.audit_events ≡ p.audit_events)
        × (p'.total_users ≡ p.total_users)
  unfolding test_endpoint
  test_endpoint-verdict k p env = test_ended-verdict k (call_endpoint net k env).0 p

-- The overview and the audit trail give an action the same badge where its name holds none of
-- REJECTED, POLICY and ROLE.
pub event_badge-action_badge :
    (action : String)
    → str_includes action "REJECTED" ≡ false
    → str_includes action "POLICY" ≡ false
    → str_includes action "ROLE" ≡ false
    → event_badge action ≡ action_badge action
unfolding event_badge action_badge
event_badge-action_badge action rejected policy role = ground arith
