-- ===== src/Backend/Accounts/Service.antt =====
-- backend/internal/auth/service.go. bcrypt and the JWT library are parameters; what a request takes from
-- the clock and from random numbers is its `Moment`.
use Prim.Native.Char.{code}
use nexus_cloud_identity_acc.Common.{
  ℕ, ◌+◌, ◌<◌, String, Bool, true, false, Option, none, some, List, [], ◌∷◌, ◌==◌, ◌≡◌, ltb, find,
  nat_eq, leb, if◌then◌else◌, ◌+s◌, ◌&&◌,
}
use nexus_cloud_identity_acc.Types.{
  Role, super_admin, admin, security_manager, developer, analyst, viewer, user, role_name, active,
  status_name,
}
use nexus_cloud_identity_acc.Backend.Bearer.{trim_space}
use nexus_cloud_identity_acc.Backend.Accounts.{
  Account, invalid_input, weak_password, invalid_role, other_error, invalid_credentials, Answer,
  failed, found, MemoryUserStore, create_user, get_user_by_username,
}

-- `Claims`, with the registered claims that the service sets
pub record TokenClaims : Type 0 where
  pub user_id : String
  pub username : String
  pub role : Role
  pub issuer : String
  pub issued_at : ℕ
  pub expires_at : ℕ
  pub token_id : String

pub record Bcrypt : Type 0 where
  pub generate : (salt : String) → (password : String) → Option String
  pub compare : (hash : String) → (password : String) → Bool

-- A hash that was generated from a password compares equal to it.
pub record BcryptLaws (b : Bcrypt) : Type 0 where
  pub compare-generate :
      (salt password hash : String)
      → b.generate salt password ≡ some hash
      → b.compare hash password ≡ true

-- signing and parsing with the service's key
pub record Jwt : Type 0 where
  pub sign : TokenClaims → Option String
  pub parse : (now : ℕ) → String → Option TokenClaims

-- A signed token parses to its claims until it expires, and is a text without white space around it.
pub record JwtLaws (j : Jwt) : Type 0 where
  pub parse-sign :
      (claims : TokenClaims) (t : String) (now : ℕ)
      → j.sign claims ≡ some t
      → now < claims.expires_at
      → j.parse now t ≡ some claims
  pub sign-ne-empty :
      (claims : TokenClaims) (t : String) → j.sign claims ≡ some t → (t == "") ≡ false
  pub trim_space-sign :
      (claims : TokenClaims) (t : String) → j.sign claims ≡ some t → trim_space t ≡ t

-- the time in seconds, new ids, the salt, and where the request comes from
pub record Moment : Type 0 where
  pub now : ℕ
  pub user_id : String
  pub event_id : String
  pub token_id : String
  pub salt : String
  pub remote_addr : String
  pub user_agent : String

-- `len(s)`: the bytes of its UTF-8
unfoldable pub utf8_length : String → ℕ
utf8_length String.[] = 0
utf8_length (String.◌∷◌ c s) =
    (if ltb (code c) 128
      then 1
      else if ltb (code c) 2048
      then 2
      else if ltb (code c) 65536
      then 3
      else 4)
    + utf8_length s

-- the small letter of a character of which one is in ASCII, else its own code
abbrev lower_code : ℕ → ℕ
lower_code n =
    if leb 65 n && leb n 90
    then n + 32
    else if nat_eq n 304
    then 105
    else if nat_eq n 8490
    then 107
    else n

-- whether `strings.ToLower` makes a text a given one of ASCII
lowers_to : String → String → Bool
lowers_to String.[] String.[] = true
lowers_to String.[] (String.◌∷◌ d t) = false
lowers_to (String.◌∷◌ c s) String.[] = false
lowers_to (String.◌∷◌ c s) (String.◌∷◌ d t) =
    let rest = lowers_to s t in nat_eq (lower_code (code c)) (code d) && rest

-- `ValidRoles`
abbrev pub valid_roles : List Role
valid_roles = super_admin ∷ admin ∷ security_manager ∷ developer ∷ analyst ∷ viewer ∷ user ∷ []

-- the role that a request names, where it is valid: the text is trimmed and made small
unfoldable pub requested_role : String → Option Role
unfolding lowers_to
requested_role s = find (λ r. lowers_to (trim_space s) (role_name r)) valid_roles

abbrev pub new_account : Moment → (username hash : String) → Role → Account
new_account m username hash role = record {
  id = m.user_id;
  username = username;
  password_hash = hash;
  role = role;
  organization_id = "";
  status = active;
  mfa_secret = "";
  mfa_enabled = false;
  created_at = 0;
  updated_at = 0;
}

abbrev pub hashed :
    Moment
    → (username : String) → Role
    → Option String
    → MemoryUserStore
    → Answer Account × MemoryUserStore
hashed m username role none s = (failed (other_error "password hashing failed"), s)
hashed m username role (some hash) s =
    create_user m.user_id m.now (new_account m username hash role) s

abbrev pub jwt_issuer : String
jwt_issuer = "nexus-identity-platform"

-- 24 hours
abbrev pub token_expiry : ℕ
token_expiry = 86400

abbrev pub claims_for : Moment → Account → TokenClaims
claims_for m u = record {
  user_id = u.id;
  username = u.username;
  role = u.role;
  issuer = jwt_issuer;
  issued_at = m.now;
  expires_at = m.now + token_expiry;
  token_id = m.token_id;
}

module _ (b : Bcrypt) where
  abbrev pub with_role :
      Moment
      → (username password : String) → Option Role
      → MemoryUserStore
      → Answer Account × MemoryUserStore
  with_role m username password none s = (failed invalid_role, s)
  with_role m username password (some r) s = hashed m username r (b.generate m.salt password) s

  -- `Register`; `role` is none where the role is not valid
  unfoldable pub register :
      Moment
      → (username password : String) → Option Role
      → MemoryUserStore
      → Answer Account × MemoryUserStore
  unfolding utf8_length
  register m username password role s =
      if ltb (utf8_length (trim_space username)) 3
      then (failed (invalid_input "username must be at least 3 characters"), s)
      else if ltb 50 (utf8_length (trim_space username))
      then (failed (invalid_input "username must be at most 50 characters"), s)
      else if ltb (utf8_length password) 8
      then (failed weak_password, s)
      else with_role m (trim_space username) password role s

module _ (j : Jwt) where
  -- `generateJWT`
  abbrev pub generate_jwt : Moment → Account → Option String
  generate_jwt m u = j.sign (claims_for m u)

  abbrev pub with_issuer : TokenClaims → Option TokenClaims
  with_issuer claims = if claims.issuer == jwt_issuer then some claims else none

  -- `ValidateToken`
  unfoldable pub validate_token : (now : ℕ) → String → Option TokenClaims
  validate_token now t = elim (j.parse now t) [ none ↦ none | some claims ↦ with_issuer claims ]

  abbrev pub with_token : Account → Option String → Answer (String × Account)
  with_token u none = failed (other_error "token generation failed")
  with_token u (some t) = found (t, u)

  abbrev pub is_active : Account → Bool
  is_active u = status_name u.status == "active"

  abbrev pub checked_user :
      Bcrypt → Moment → (password : String) → Account → Answer (String × Account)
  checked_user b m password u =
      if b.compare u.password_hash password
      then (if is_active u
          then with_token u (generate_jwt m u)
          else failed (invalid_credentials ("account is " +s status_name u.status)))
      else failed (invalid_credentials "")

  -- `Login`
  unfoldable pub login :
      Bcrypt → Moment → (username password : String) → MemoryUserStore → Answer (String × Account)
  login b m username password s = elim (get_user_by_username username s) [
    | none ↦ failed (invalid_credentials "")
    | some u ↦ checked_user b m password u
  ]
