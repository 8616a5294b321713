-- ===== src/Backend/Accounts/Handlers.antt =====
-- backend/internal/auth/handler.go, with the in-memory store and log behind it. A body is the decoded
-- JSON, none where it does not decode; the claims are those in the request's context.
use nexus_cloud_identity_acc.Common.{
  ℕ, String, Option, none, some, List, [], ◌∷◌, length, map, ◌+s◌,
}
use nexus_cloud_identity_acc.Types.{role_name, User, AuthResponse, RegisterResponse}
use nexus_cloud_identity_acc.Browser.{Response, DemoResponse, UsersResponse}
use nexus_cloud_identity_acc.Backend.Http.{failure, reply, reply_message}
use nexus_cloud_identity_acc.Backend.AuditLog.{
  AuditAction, user_registered, login_success, login_failed, Event, log_event,
}
use nexus_cloud_identity_acc.Backend.Accounts.{
  Account, to_public, AuthError, user_already_exists, weak_password, invalid_role,
  invalid_credentials, invalid_input, Answer, failed, found, MemoryUserStore, get_user_by_id,
  list_users,
}
use nexus_cloud_identity_acc.Backend.Accounts.Service
use nexus_cloud_identity_acc.Backend.Accounts.Service.{
  Bcrypt, Jwt, Moment, TokenClaims, requested_role,
}

pub record RegisterRequest : Type 0 where
  pub username : String
  pub password : String
  pub role : String

pub record LoginRequest : Type 0 where
  pub username : String
  pub password : String

pub record Server : Type 0 where
  pub store : MemoryUserStore
  pub log : List Event

abbrev pub logged : Moment → String → AuditAction → List (String × String) → List Event → List Event
logged m user_id action metadata log =
    log_event m.event_id m.now
      (record {
        id = "";
        user_id = user_id;
        action = action;
        resource = "";
        ip_address = m.remote_addr;
        user_agent = m.user_agent;
        metadata = metadata;
        timestamp = 0;
      })
      log

-- what the handler answers to an error of the service
abbrev pub register_failure : AuthError → Response RegisterResponse
register_failure user_already_exists = failure 409 "username already taken"
register_failure weak_password = failure 400 "password must be at least 8 characters"
register_failure invalid_role =
    failure 400
      "invalid role; allowed: admin, user, developer, analyst, viewer, security_manager, super_admin"
register_failure (invalid_input why) = failure 400 ("invalid input: " +s why)
register_failure _ = failure 500 "registration failed"

module _ (print_time : ℕ → String) where
  abbrev pub registered :
      Moment
      → RegisterRequest
      → Answer Account × MemoryUserStore
      → List Event
      → Response RegisterResponse × Server
  registered m req (failed e, store) log = (
    register_failure e,
    record {
      store = store;
      log =
          logged m "" user_registered (("username", req.username) ∷ ("result", "failed") ∷ []) log;
    },
  )
  registered m req (found u, store) log = (
    reply_message 201 "user registered successfully"
        (record { message = "user registered successfully"; user = to_public print_time u }),
    record {
      store = store;
      log =
          logged m u.id user_registered (("username", u.username) ∷ ("role", role_name u.role) ∷ [])
            log;
    },
  )

  -- `Register`
  unfoldable pub register_handler :
      Bcrypt → Moment → Option RegisterRequest → Server → Response RegisterResponse × Server
  register_handler b m none s = (failure 400 "invalid JSON body", s)
  register_handler b m (some req) s =
      registered m req
        (Service.register b m req.username req.password (requested_role req.role) s.store) s.log

  -- `Me`
  unfoldable pub me_handler : Option TokenClaims → Server → Response User
  me_handler none s = failure 401 "unauthorized"
  me_handler (some claims) s = elim (get_user_by_id claims.user_id s.store) [
    | none ↦ failure 404 "user not found"
    | some u ↦ reply 200 (to_public print_time u)
  ]

  -- `ListUsers`; the in-memory store returns no error
  unfoldable pub list_users_handler : Server → Response UsersResponse
  list_users_handler s =
      let public = map (to_public print_time) (list_users s.store) in
      reply 200 (record { users = public; count = some (length public) })

abbrev pub logged_in :
    Moment → LoginRequest → Answer (String × Account) → Server → Response AuthResponse × Server
logged_in m req (failed (invalid_credentials why)) s = (
  failure 401 "invalid credentials",
  record s { log = logged m "" login_failed (("username", req.username) ∷ []) s.log },
)
logged_in m req (failed e) s = (failure 500 "login failed", s)
logged_in m req (found (t, u)) s = (
  reply 200 (record { token = t }),
  record s { log = logged m u.id login_success (("username", u.username) ∷ []) s.log },
)

-- `Login`
unfoldable pub login_handler :
    Jwt → Bcrypt → Moment → Option LoginRequest → Server → Response AuthResponse × Server
login_handler j b m none s = (failure 400 "invalid JSON body", s)
login_handler j b m (some req) s =
    logged_in m req (Service.login j b m req.username req.password s.store) s

-- `AdminOnly`, behind a gate that lets no request without claims through
unfoldable pub admin_only_handler : TokenClaims → Response DemoResponse
admin_only_handler claims = reply_message 200 "welcome to the admin zone" (record {
  message = "welcome to the admin zone";
  user = claims.username;
  role = role_name claims.role;
})

-- `UserOrAdmin`, behind `RequireAuth`
unfoldable pub user_or_admin_handler : TokenClaims → Response DemoResponse
user_or_admin_handler claims = reply_message 200 "authenticated access granted" (record {
  message = "authenticated access granted";
  user = claims.username;
  role = role_name claims.role;
})
