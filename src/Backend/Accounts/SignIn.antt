-- ===== src/Backend/Accounts/SignIn.antt =====
-- What comes of a sign-in, and of its token.
use nexus_cloud_identity_acc.Common.{
  ℕ, ◌+◌, ◌<◌, String, true, false, Option, none, some, [], ◌∷◌, ◌==◌, ◌≡◌, ◌≢◌, refl, ap, ◌∙◌,
  Bool-cases, Option-cases, inl, inr, ◌⊎◌,
}
use nexus_cloud_identity_acc.Types.{Status, active, inactive, suspended, status_name, AuthResponse}
use nexus_cloud_identity_acc.Browser.{Response}
use nexus_cloud_identity_acc.Backend.Http.{failure, reply}
use nexus_cloud_identity_acc.Backend.AuditLog.{login_success, login_failed}
use nexus_cloud_identity_acc.Backend.Bearer.{require_auth, extract_bearer_token}
use nexus_cloud_identity_acc.Backend.Accounts.{Account, MemoryUserStore, get_user_by_username}
use nexus_cloud_identity_acc.Backend.Accounts.Service
use nexus_cloud_identity_acc.Backend.Accounts.Service.{
  Bcrypt, Jwt, JwtLaws, Moment, TokenClaims, claims_for, validate_token, token_expiry, checked_user,
  with_token,
}
use nexus_cloud_identity_acc.Backend.Accounts.Handlers.{
  Server, LoginRequest, login_handler, logged, logged_in,
}

-- the account that a name and a password let in
pub record Accepts (b : Bcrypt) (username password : String) (s : MemoryUserStore) (u : Account)
    : Type 0 where
  pub named : get_user_by_username username s ≡ some u
  pub matches : b.compare u.password_hash password ≡ true
  pub is_active : u.status ≡ active

-- The ends of a sign-in whose body decodes: a token and an entry under the account's id; the one refusal;
-- or a token that could not be signed.
pub data LoginEnds (j : Jwt) (b : Bcrypt) (m : Moment) (req : LoginRequest) (s : Server)
    : Response AuthResponse × Server → Type 0 where
  signs_in :
      (u : Account) (t : String)
      → Accepts b req.username req.password s.store u
      → j.sign (claims_for m u) ≡ some t
      → LoginEnds j b m req s (
        reply 200 (record { token = t }),
        record s { log = logged m u.id login_success (("username", u.username) ∷ []) s.log },
      )
  refused :
      ((u : Account) → ¬ (Accepts b req.username req.password s.store u))
      → LoginEnds j b m req s (
        failure 401 "invalid credentials",
        record s { log = logged m "" login_failed (("username", req.username) ∷ []) s.log },
      )
  unsigned :
      (u : Account)
      → Accepts b req.username req.password s.store u
      → j.sign (claims_for m u) ≡ none
      → LoginEnds j b m req s (failure 500 "login failed", s)

status_cases :
    (st : Status)
    → ((st ≡ active) × ((status_name st == "active") ≡ true))
      ⊎ ((st ≢ active) × ((status_name st == "active") ≡ false))
status_cases active = inl (refl, refl)
status_cases inactive = inr (λ e. cc e, refl)
status_cases suspended = inr (λ e. cc e, refl)

module _ (j : Jwt) (b : Bcrypt) (m : Moment) (req : LoginRequest) (s : Server) where
  signed-LoginEnds :
      (u : Account) (o : Option String)
      → Accepts b req.username req.password s.store u
      → j.sign (claims_for m u) ≡ o
      → LoginEnds j b m req s (logged_in m req (with_token j u o) s)
  signed-LoginEnds u none a e = unsigned u a e
  signed-LoginEnds u (some t) a e = signs_in u t a e

  checked-LoginEnds :
      (u : Account)
      → get_user_by_username req.username s.store ≡ some u
      → LoginEnds j b m req s (logged_in m req (checked_user j b m req.password u) s)
  checked-LoginEnds u named = elim (Bool-cases (b.compare u.password_hash req.password)) [
    | inl right ↦ elim (status_cases u.status) [
      | inl (is, e) ↦
          rw (right, e)
            (signed-LoginEnds u (j.sign (claims_for m u))
              (record { named = named; matches = right; is_active = is }) refl)
      | inr (other, e) ↦
          rw (right, e) (refused (λ v a. other (ap (λ w. w.status) (same v a.named) ∙ a.is_active)))
    ]
    | inr wrong ↦ rw wrong (
        refused (λ v a.
          let right =
            ap (λ w. b.compare w.password_hash req.password) (same v a.named) ∙ a.matches in
          cc (wrong, right)))
  ]
    where
      same : (v : Account) → get_user_by_username req.username s.store ≡ some v → u ≡ v
      same v e = cc (named, e)

  -- A sign-in whose body decodes ends in one of three ways. Where an active account has the name and the
  -- password matches, its token is the answer and the success is logged under its id, or, where the
  -- token cannot be signed, the answer is 500. Else, whether the name is unknown, the password wrong or the
  -- account not active, the answer and the entry in the log are the same, and name no account.
  pub login_handler-LoginEnds : LoginEnds j b m req s (login_handler j b m (some req) s)
  unfolding login_handler Service.login
  login_handler-LoginEnds = elim (Option-cases (get_user_by_username req.username s.store)) [
    | inl free ↦ rw (free, Service.login) (refused (λ v a. cc (free, a.named)))
    | inr (u, named) ↦ rw (named, Service.login) (checked-LoginEnds u named)
  ]

module _ (j : Jwt) (b : Bcrypt) (m : Moment) (s : Server) where
  pub login_handler-signed :
      (username password t : String) (u : Account)
      → Accepts b username password s.store u
      → j.sign (claims_for m u) ≡ some t
      → let req : LoginRequest = record { username = username; password = password } in
        login_handler j b m (some req) s ≡ (
          reply 200 (record { token = t }),
          record s { log = logged m u.id login_success (("username", u.username) ∷ []) s.log },
        )
  unfolding login_handler Service.login
  login_handler-signed username password t u a signed =
      rw (a.named, Service.login, a.matches, a.is_active, signed) refl

-- the claims that a request with a header `Authorization` carries
abbrev pub claims_at : Jwt → (now : ℕ) → Option String → Option TokenClaims
claims_at j now value = require_auth (validate_token j now) value

-- a header that carries a token which the service signed, before it expires
pub claims_at-signed :
    (j : Jwt) (tokens : JwtLaws j) (m : Moment) (u : Account) (t : String) (value : Option String)
    (now : ℕ)
    → j.sign (claims_for m u) ≡ some t
    → extract_bearer_token value ≡ some t
    → now < m.now + token_expiry
    → claims_at j now value ≡ some (claims_for m u)
unfolding require_auth validate_token
claims_at-signed j tokens m u t value now signed held early =
    rw (held, require_auth, tokens.parse-sign (claims_for m u) t now signed early, validate_token)
      refl
