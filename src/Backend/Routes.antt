-- ===== src/Backend/Routes.antt =====
-- The routes of `registerRoutes` in backend/cmd/server/main.go. `http.ServeMux` is the standard
-- library's: a pattern is a method and a path, a segment `{id}` of which stands for one segment that is
-- not empty, and the query of a request plays no part. No two patterns here match one request.
pub mod Requests
pub mod Methods
use Prim.Native.Char.{code}
use Prim.Native.String
use nexus_cloud_identity_acc.Common.{
  String, Bool, true, false, Option, none, some, List, [], ◌∷◌, ◌==◌, ◌&&◌, ◌||◌, not, find, nat_eq,
  or_else, push_front, if◌then◌else◌,
}
use nexus_cloud_identity_acc.Types.{Role, admin, security_manager}
use nexus_cloud_identity_acc.Browser.{HttpRequest}
use nexus_cloud_identity_acc.Backend.Gates.{
  Gate, unauthorized, forbidden, next, require_role, require_any_role,
}

-- the handlers
pub data Endpoint : Type 0 where
  health register login me mfa_setup mfa_verify admin_only user_or_admin list_users list_policies
        create_policy delete_policy check_access list_audit :
      Endpoint

-- what stands in front of a handler: nothing, `RequireAuth`, or a role gate below it
pub data Wrapper : Type 0 where
  open_to_all : Wrapper
  signed_in : Wrapper
  with_role : Role → Wrapper
  with_any_role : List Role → Wrapper

pub record Route : Type 0 where
  pub method : String
  pub path : String
  pub wrapper : Wrapper
  pub endpoint : Endpoint

abbrev route : String → String → Wrapper → Endpoint → Route
route m p w e = record { method = m; path = p; wrapper = w; endpoint = e }

unfoldable pub routes : List Route
routes =
    route "GET" "/health" open_to_all health
    ∷ route "POST" "/api/v1/auth/register" open_to_all register
    ∷ route "POST" "/api/v1/auth/login" open_to_all login
    ∷ route "GET" "/api/v1/auth/me" signed_in me
    ∷ route "POST" "/api/v1/mfa/setup" signed_in mfa_setup
    ∷ route "POST" "/api/v1/mfa/verify" signed_in mfa_verify
    ∷ route "GET" "/api/v1/admin-only" (with_role admin) admin_only
    ∷ route "GET" "/api/v1/user-or-admin" signed_in user_or_admin
    ∷ route "GET" "/api/v1/users" (with_role admin) list_users
    ∷ route "GET" "/api/v1/policies" signed_in list_policies
    ∷ route "POST" "/api/v1/policies" (with_any_role (admin ∷ security_manager ∷ [])) create_policy
    ∷ route "DELETE" "/api/v1/policies/{id}" (with_any_role (admin ∷ security_manager ∷ []))
        delete_policy
    ∷ route "POST" "/api/v1/access/check" signed_in check_access
    ∷ route "GET" "/api/v1/audit" (with_any_role (admin ∷ security_manager ∷ [])) list_audit
    ∷ []

-- the gate of a route on the role of the token's claims, none without a token that is accepted
unfoldable pub gate_of : Wrapper → Option Role → Gate
unfolding require_role require_any_role
gate_of open_to_all claimed = next
gate_of signed_in none = unauthorized
gate_of signed_in (some r) = next
gate_of (with_role role) claimed = require_role role claimed
gate_of (with_any_role given) claimed = require_any_role given claimed

before_query : String → String
before_query String.[] = ""
before_query (String.◌∷◌ c s) =
    let rest = before_query s in if nat_eq (code c) b'?' then "" else String.◌∷◌ c rest

segments : String → List String
segments String.[] = "" ∷ []
segments (String.◌∷◌ c s) =
    let parts = segments s in if nat_eq (code c) b'/' then "" ∷ parts else push_front c parts

fits : (pattern path : List String) → Bool
fits [] [] = true
fits (a ∷ pattern) (b ∷ path) = (if a == "{id}" then not (b == "") else a == b) && fits pattern path
fits _ _ = false

-- the route of a request; `fetch` sends GET where no method is given
unfoldable pub route_for : HttpRequest → Option Route
unfolding routes before_query segments fits
route_for req =
    find
      (λ r.
        (r.method == or_else req.method "GET")
        && fits (segments r.path) (segments (before_query req.url)))
      routes

-- what a request meets: 404 where no route has it
unfoldable pub gate_for : HttpRequest → Option Role → Option Gate
unfolding route_for gate_of
gate_for req claimed = elim (route_for req) [
  | none ↦ none
  | some r ↦ some (gate_of r.wrapper claimed)
]
