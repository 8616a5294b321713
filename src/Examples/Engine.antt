-- ===== src/Examples/Engine.antt =====
-- Permissions, gates and policies for the example user.
use mathlib.Core.List.{Memᴰ}
use nexus_cloud_identity_acc.Common.{true, false, some, [], ◌∷◌, ◌≡◌, refl, ◌↔◌}
use nexus_cloud_identity_acc.Common.Int.{pos}
use nexus_cloud_identity_acc.Types.{analyst, allow, deny, require_mfa, Policy, AccessCheckRequest}
use nexus_cloud_identity_acc.Pages.Roles.Matrix.{row_for, granted, row_for-granted}
use nexus_cloud_identity_acc.Shell.Guard
use nexus_cloud_identity_acc.Backend.Routes.{
  health, register, login, me, mfa_setup, mfa_verify, admin_only, user_or_admin, list_users,
  list_policies, create_policy, check_access,
}
use nexus_cloud_identity_acc.Backend.Routes.Requests.{
  recorder, first_requests, all_declared, all_served, in_full, first_requests-served,
}
use nexus_cloud_identity_acc.Backend.Routes.Methods.{reached, methods-reached}
use nexus_cloud_identity_acc.Api
use nexus_cloud_identity_acc.Backend.Policy.{Request, matches, evaluate}
use nexus_cloud_identity_acc.Backend.Policy.Verdict.{accepts, evaluate-allow_iff, evaluate-first}
use nexus_cloud_identity_acc.Examples.{console_rule}

-- an access request for the console
abbrev asked : AccessCheckRequest
asked = record {
  application = "aws-console";
  device_trusted = true;
  mfa_verified = true;
  risk_score = pos 15;
}

first_requests-served_example :
    (all_declared (first_requests (some "t") Guard.audit) ≡ true)
    × (all_served analyst (first_requests (some "t") Guard.audit) ≡ in_full Guard.audit analyst)
first_requests-served_example = first_requests-served (some "t") analyst Guard.audit refl

methods-reached_example :
    (reached (some "t") (Api.register recorder "alice" "correct horse" "viewer")
      ≡ some register ∷ [])
    × (reached (some "t") (Api.login recorder "alice" "correct horse") ≡ some login ∷ [])
    × (reached (some "t") (Api.get_me recorder) ≡ some me ∷ [])
    × (reached (some "t") (Api.get_admin_only recorder) ≡ some admin_only ∷ [])
    × (reached (some "t") (Api.get_user_or_admin recorder) ≡ some user_or_admin ∷ [])
    × (reached (some "t") (Api.list_users recorder) ≡ some list_users ∷ [])
    × (reached (some "t") (Api.list_policies recorder) ≡ some list_policies ∷ [])
    × (reached (some "t") (Api.create_policy recorder console_rule) ≡ some create_policy ∷ [])
    × (reached (some "t") (Api.check_access recorder asked) ≡ some check_access ∷ [])
    × (reached (some "t") (Api.setup_mfa recorder) ≡ some mfa_setup ∷ [])
    × (reached (some "t") (Api.verify_mfa recorder "123456") ≡ some mfa_verify ∷ [])
    × (reached (some "t") (Api.check_health recorder) ≡ some health ∷ [])
methods-reached_example =
    methods-reached (some "t") "alice" "correct horse" "viewer" "123456" console_rule asked

row_for-granted_example : row_for analyst ≡ some (granted analyst)
row_for-granted_example = row_for-granted analyst

-- one policy that asks for the second factor, one with a lower maximum
abbrev console_policy : Policy
console_policy = record { id = "p-1"; rule = console_rule }

abbrev careful_policy : Policy
careful_policy = record {
  id = "p-2";
  rule = record console_rule { max_risk_score = pos 10; require_mfa = false };
}

abbrev request : Request
request = record {
  role = "analyst";
  application = "aws-console";
  device_trusted = true;
  mfa_verified = false;
  risk_score = pos 40;
}

evaluate-allow_iff_example : ((evaluate (console_policy ∷ []) request).decision ≡ allow) ↔ (
    ((p : Policy) × Memᴰ p (console_policy ∷ []) × (matches request p ≡ true))
    × ((p : Policy)
        → Memᴰ p (console_policy ∷ [])
        → matches request p ≡ true
        → accepts request p ≡ true))
evaluate-allow_iff_example = evaluate-allow_iff (console_policy ∷ []) request

swap : (p a b : Policy) → Memᴰ p (a ∷ b ∷ []) → Memᴰ p (b ∷ a ∷ [])
swap p a b (Memᴰ.head e) = Memᴰ.tail (Memᴰ.head e)
swap p a b (Memᴰ.tail m) = elim m [ Memᴰ.head e ↦ Memᴰ.head e | Memᴰ.tail n ↦ elim n [ ] ]

matching : (matches request console_policy ≡ true) × (matches request careful_policy ≡ true)
unfolding matches
matching = (refl, refl)

evaluate-first_example :
    ((evaluate (console_policy ∷ careful_policy ∷ []) request).decision ≡ require_mfa)
    × ((evaluate (careful_policy ∷ console_policy ∷ []) request).decision ≡ deny)
evaluate-first_example =
    evaluate-first console_policy careful_policy request matching.0 matching.1 refl refl refl refl
