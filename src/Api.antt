-- ===== src/Api.antt =====
-- frontend/src/services/api.ts: the class `ApiClient`. Its field and the storage item are in `Env`.
-- `data as T` is a cast with no check, which passes on a body of any other type as it is; here the body of a
-- status from 200 to 299 is taken to be null, which is none, or of the type.
pub mod Token
pub mod Requests
use nexus_cloud_identity_acc.Common.{
  ℕ, String, Bool, Option, none, some, List, [], ◌∷◌, ◌==◌, ◌+s◌, truthy, show, if◌then◌else◌,
  or_else,
}
use nexus_cloud_identity_acc.Browser.{
  Thrown, error_of, null_read, Result, ok, thrown, Action, ◌>>=◌, pure, Payload, credentials,
  registration, new_policy, access_check, totp_code, Headers, set_header, RequestInit, HttpRequest,
  Decoded, Response, is_ok, Fetched, resolved, rejected, Resource, registered, auth, profile, demo,
  users, policies, policy, message, access, mfa_setup, mfa_verify, audit, health, Body, Network,
  Env,
}
use nexus_cloud_identity_acc.Types.{AuthResponse, NewPolicy, AccessCheckRequest}

-- `constructor()`: a page load
unfoldable pub construct : {W : Type 0} → W → Option String → Env W
construct w storage = record { world = w; storage = storage; token = storage }

unfoldable pub set_token : {W : Type 0} → Option String → Env W → Env W
set_token token env = record env { token = token; storage = if truthy token then token else none }

-- `const headers`: the defaults, then those of the options, then the token's
unfoldable pub merge : Headers → Headers → Headers
merge base [] = base
merge base ((k, v) ∷ hs) = merge (set_header k v base) hs

unfoldable pub headers_for : Option String → Headers → Headers
unfolding merge
headers_for token given =
    let headers = merge (("Content-Type", "application/json") ∷ []) given in
    if truthy token
    then set_header "Authorization" ("Bearer " +s or_else token "") headers
    else headers

unfoldable pub api_base : String
api_base = "/api/v1"

unfoldable pub request_for : Option String → String → RequestInit → HttpRequest
unfolding headers_for api_base
request_for token endpoint options = record {
  url = api_base +s endpoint;
  init = record options { headers = headers_for token options.headers };
}

-- `a || b` where both may be missing or empty
abbrev pub or_text : Option String → String → String
or_text a b = if truthy a then or_else a "" else b

-- `data?.error || data?.message || …`
unfoldable pub error_message : {T : Type 0} → Response T → String
error_message res = elim res.body [
  | none ↦ "Request failed with status " +s show res.status
  | some data' ↦
      or_text data'.error (or_text data'.message ("Request failed with status " +s show res.status))
]

abbrev pub cast : {T : Type 0} → Option (Decoded T) → Option T
cast none = none
cast (some data') = data'.value

-- what `request` does once `fetch` has answered
unfoldable pub receive : {T : Type 0} → Fetched T → Result (Option T)
unfolding error_message
receive (rejected e) = thrown e
receive (resolved res) =
    if is_ok res.status then ok (cast res.body) else thrown (error_of (error_message res))

-- `data.field` for a value that may be null
abbrev pub not_null : {S T : Type 0} → Option T → Action S T
not_null none s = (thrown null_read, s)
not_null (some t) s = (ok t, s)

abbrev pub get : RequestInit
get = record { method = none; headers = []; body = none }

abbrev pub post : Option Payload → RequestInit
post body = record { method = some "POST"; headers = []; body = body }

abbrev pub delete : RequestInit
delete = record { method = some "DELETE"; headers = []; body = none }

module _ {W : Type 0} (net : Network W) where
  unfoldable pub request : (r : Resource) → String → RequestInit → Action (Env W) (Option (Body r))
  unfolding request_for receive
  request r endpoint options env =
      let (answer, w) = net.fetch r (request_for env.token endpoint options) env.world in
      (receive answer, record env { world = w })

  unfoldable pub register : String → String → String → Action (Env W) (Option (Body registered))
  register username password role =
      request registered "/auth/register" (post (some (registration username password role)))

  unfoldable pub store_token : AuthResponse → Action (Env W) AuthResponse
  unfolding set_token
  store_token res env = (ok res, set_token (some res.token) env)

  unfoldable pub login : String → String → Action (Env W) AuthResponse
  unfolding store_token
  login username password = do
    data' ← request auth "/auth/login" (post (some (credentials username password)))
    res ← not_null data'
    store_token res

  unfoldable pub get_me : Action (Env W) (Option (Body profile))
  get_me = request profile "/auth/me" get

  unfoldable pub get_admin_only : Action (Env W) (Option (Body demo))
  get_admin_only = request demo "/admin-only" get

  unfoldable pub get_user_or_admin : Action (Env W) (Option (Body demo))
  get_user_or_admin = request demo "/user-or-admin" get

  unfoldable pub list_users : Action (Env W) (Option (Body users))
  list_users = request users "/users" get

  unfoldable pub list_policies : Action (Env W) (Option (Body policies))
  list_policies = request policies "/policies" get

  unfoldable pub create_policy : NewPolicy → Action (Env W) (Option (Body policy))
  create_policy p = request policy "/policies" (post (some (new_policy p)))

  unfoldable pub delete_policy : String → Action (Env W) (Option (Body message))
  delete_policy id = request message ("/policies/" +s id) delete

  unfoldable pub check_access : AccessCheckRequest → Action (Env W) (Option (Body access))
  check_access req = request access "/access/check" (post (some (access_check req)))

  unfoldable pub setup_mfa : Action (Env W) (Option (Body mfa_setup))
  setup_mfa = request mfa_setup "/mfa/setup" (post none)

  unfoldable pub verify_mfa : String → Action (Env W) (Option (Body mfa_verify))
  verify_mfa code = request mfa_verify "/mfa/verify" (post (some (totp_code code)))

  unfoldable pub list_audit_logs : ℕ → ℕ → Action (Env W) (Option (Body audit))
  list_audit_logs page page_size =
      request audit ("/audit?page=" +s show page +s "&page_size=" +s show page_size) get

  -- `checkHealth` calls `fetch` itself: no header, and no test of the status. Where `res.json()` throws
  -- the answer is none too: its one caller reads a property of it under the same `try`.
  health_json : Fetched (Body health) → Result (Option (Body health))
  health_json (rejected e) = thrown e
  health_json (resolved res) = ok (cast res.body)

  unfoldable pub check_health : Action (Env W) (Option (Body health))
  unfolding health_json
  check_health env =
      let (answer, w) = net.fetch health (record { url = "/health"; init = get }) env.world in
      (health_json answer, record env { world = w })
