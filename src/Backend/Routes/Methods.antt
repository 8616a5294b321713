-- ===== src/Backend/Routes/Methods.antt =====
-- The methods of the client before the routes of the server.
use nexus_cloud_identity_acc.Common.{String, Option, none, some, List, [], ◌∷◌, map, ◌≡◌, refl}
use nexus_cloud_identity_acc.Browser.{Action, Env, HttpRequest}
use nexus_cloud_identity_acc.Types.{NewPolicy, AccessCheckRequest}
use nexus_cloud_identity_acc.Api.{request}
use nexus_cloud_identity_acc.Api
use nexus_cloud_identity_acc.Backend.Routes.{
  Endpoint, health, register, login, me, mfa_setup, mfa_verify, admin_only, user_or_admin,
  list_users, list_policies, create_policy, check_access, route_for,
}
use nexus_cloud_identity_acc.Backend.Routes.Requests.{recorder, tab}

-- the handlers that the requests of a method reach
abbrev pub reached :
    {T : Type 0} → Option String → Action (Env (List HttpRequest)) T → List (Option Endpoint)
reached token method =
    map (λ req. elim (route_for req) [ none ↦ none | some r ↦ some r.endpoint ])
      (method (tab token)).1.world

-- Every method of the client whose path does not depend on its arguments reaches the handler of its name,
-- with the HTTP method of that route, whatever the token and the arguments.
pub methods-reached :
    (token : Option String) (username password role digits : String) (rule : NewPolicy)
    (req : AccessCheckRequest)
    → (reached token (Api.register recorder username password role) ≡ some register ∷ [])
      × (reached token (Api.login recorder username password) ≡ some login ∷ [])
      × (reached token (Api.get_me recorder) ≡ some me ∷ [])
      × (reached token (Api.get_admin_only recorder) ≡ some admin_only ∷ [])
      × (reached token (Api.get_user_or_admin recorder) ≡ some user_or_admin ∷ [])
      × (reached token (Api.list_users recorder) ≡ some list_users ∷ [])
      × (reached token (Api.list_policies recorder) ≡ some list_policies ∷ [])
      × (reached token (Api.create_policy recorder rule) ≡ some create_policy ∷ [])
      × (reached token (Api.check_access recorder req) ≡ some check_access ∷ [])
      × (reached token (Api.setup_mfa recorder) ≡ some mfa_setup ∷ [])
      × (reached token (Api.verify_mfa recorder digits) ≡ some mfa_verify ∷ [])
      × (reached token (Api.check_health recorder) ≡ some health ∷ [])
unfolding route_for request Api.register Api.login Api.get_me Api.get_admin_only
    Api.get_user_or_admin Api.list_users Api.list_policies Api.create_policy Api.check_access
    Api.setup_mfa Api.verify_mfa Api.check_health
methods-reached token username password role digits rule req =
    (refl, refl, refl, refl, refl, refl, refl, refl, refl, refl, refl, refl)
