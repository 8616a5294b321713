-- ===== src/Backend/Accounts/Served.antt =====
-- The account handlers as the frontend meets them.
use nexus_cloud_identity_acc.Common.{ℕ, ◌+◌, ◌<◌, String, Option, some, [], ◌≡◌, refl}
use nexus_cloud_identity_acc.Types.{
  Role, super_admin, admin, security_manager, developer, analyst, viewer, user, role_name,
}
use nexus_cloud_identity_acc.Browser.{
  Network, credentials, registration, registered, auth, profile, resolved, header,
}
use nexus_cloud_identity_acc.Api.{request_for, post, get, headers_for}
use nexus_cloud_identity_acc.Backend.Bearer.{trim_space}
use nexus_cloud_identity_acc.Backend.Accounts.Service.{
  Bcrypt, Jwt, Moment, TokenClaims, requested_role, token_expiry,
}
use nexus_cloud_identity_acc.Backend.Accounts.Handlers.{
  Server, LoginRequest, RegisterRequest, login_handler, register_handler, me_handler,
}
use nexus_cloud_identity_acc.Backend.Accounts.SignIn.{claims_at}

abbrev pub sign_in : (username password : String) → LoginRequest
sign_in username password = record { username = username; password = password }

abbrev pub sign_up : (username password role : String) → RegisterRequest
sign_up username password role = record { username = username; password = password; role = role }

-- A network behind which the account handlers run, at a moment that the world gives: requests to register
-- and to sign in are answered by them and change the server; a request for the profile whose token is
-- valid is answered from the account of its claims; and a sign-in is answered within the 24 hours of its
-- token.
pub record ServesAccounts {W : Type 0} (net : Network W) (print_time : ℕ → String) (j : Jwt)
    (b : Bcrypt) (server : W → Server) (moment : W → Moment) : Type 0 where
  pub registers :
      (token : Option String) (username password role : String) (w : W)
      → let x =
          net.fetch registered
            (request_for token "/auth/register" (post (some (registration username password role))))
            w in
        let y =
          register_handler print_time b
            (moment w)
            (some (sign_up username password role))
            (server w) in
        (x.0 ≡ resolved y.0) × (server x.1 ≡ y.1)
  pub signs_in :
      (token : Option String) (username password : String) (w : W)
      → let x =
          net.fetch auth
            (request_for token "/auth/login" (post (some (credentials username password))))
            w in
        let y = login_handler j b (moment w) (some (sign_in username password)) (server w) in
        (x.0 ≡ resolved y.0)
        × (server x.1 ≡ y.1)
        × ((moment x.1).now < (moment w).now + token_expiry)
  pub shows :
      (token : Option String) (w : W) (claims : TokenClaims)
      → claims_at j (moment w).now (header "Authorization" (headers_for token [])) ≡ some claims
      → (net.fetch profile (request_for token "/auth/me" get) w).0
        ≡ resolved (me_handler print_time (some claims) (server w))

-- The name of a role is the request for that role.
pub requested_role-role_name : (r : Role) → requested_role (role_name r) ≡ some r
unfolding requested_role trim_space
requested_role-role_name super_admin = refl
requested_role-role_name admin = refl
requested_role-role_name security_manager = refl
requested_role-role_name developer = refl
requested_role-role_name analyst = refl
requested_role-role_name viewer = refl
requested_role-role_name user = refl
