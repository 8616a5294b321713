-- ===== src/Browser.antt =====
-- What the frontend takes from the browser, which is not in the repository: `fetch` with the server
-- behind it, `sessionStorage`, exceptions. The server is a function of a state `W` that it may change
-- at each request; `Network` is a parameter of everything that sends one.
use nexus_cloud_identity_acc.Common.{
  ℕ, String, Bool, Option, none, some, List, [], ◌∷◌, ◌==◌, ◌&&◌, ◌≡◌, refl, leb, if◌then◌else◌,
}
use nexus_cloud_identity_acc.Types.{
  User, AuthResponse, RegisterResponse, NewPolicy, Policy, AccessCheckRequest, AccessCheckResponse,
  AuditListResponse, MfaSetupResponse, MfaVerifyResponse,
}

-- A thrown value: an `Error` with its message, or anything else.
pub data Thrown : Type 0 where
  error_of : String → Thrown
  other_value : Thrown

-- The `TypeError` of reading a property of null.
abbrev pub null_read : Thrown
null_read = error_of "Cannot read properties of null"

pub data Result (A : Type 0) : Type 0 where
  ok : A → Result A
  thrown : Thrown → Result A

-- An async method on a state: what it wrote before it threw stays written.
abbrev pub Action : Type 0 → Type 0 → Type 0
Action S A = S → Result A × S

module _ {S A B : Type 0} where
  abbrev continue : Result A → (A → Action S B) → Action S B
  continue (ok a) f s = f a s
  continue (thrown e) f s = (thrown e, s)

  infixl 5 ◌>>=◌
  abbrev pub ◌>>=◌ : Action S A → (A → Action S B) → Action S B
  ◌>>=◌ m f s = let (r, s') = m s in continue r f s'

-- To prove something of a block: of its rest where the first call returns, of the error where it throws.
module _ {S A B : Type 0} (P : Result B × S → Type 0) where
  continue_rule :
      (m : Result A × S) (f : A → Action S B)
      → ((a : A) (s' : S) → m ≡ (ok a, s') → P (f a s'))
      → ((e : Thrown) (s' : S) → m ≡ (thrown e, s') → P (thrown e, s'))
      → P (continue m.0 f m.1)
  continue_rule (ok a, s') f on_ok on_thrown = on_ok a s' refl
  continue_rule (thrown e, s') f on_ok on_thrown = on_thrown e s' refl

  pub bind_rule :
      (m : Action S A) (f : A → Action S B) (s : S)
      → ((a : A) (s' : S) → m s ≡ (ok a, s') → P (f a s'))
      → ((e : Thrown) (s' : S) → m s ≡ (thrown e, s') → P (thrown e, s'))
      → P ((m >>= f) s)
  bind_rule m f s on_ok on_thrown = continue_rule (m s) f on_ok on_thrown

abbrev pub pure : {S A : Type 0} → A → Action S A
pure a s = (ok a, s)

-- A JSON object is kept as the value that `JSON.stringify` is given.
pub data Payload : Type 0 where
  credentials : (username password : String) → Payload
  registration : (username password role : String) → Payload
  new_policy : NewPolicy → Payload
  access_check : AccessCheckRequest → Payload
  totp_code : String → Payload

abbrev pub Headers : Type 0
Headers = List (String × String)

-- `headers[k] = v`: an object keeps one value for a key.
unfoldable pub set_header : String → String → Headers → Headers
set_header k v [] = (k, v) ∷ []
set_header k v ((j, w) ∷ hs) = if j == k then (k, v) ∷ hs else (j, w) ∷ set_header k v hs

unfoldable pub header : String → Headers → Option String
header k [] = none
header k ((j, v) ∷ hs) = if j == k then some v else header k hs

-- `RequestInit`, as far as the client uses it.
pub record RequestInit : Type 0 where
  pub method : Option String
  pub headers : Headers
  pub body : Option Payload

pub record HttpRequest : Type 0 where
  pub url : String
  pub init : RequestInit
  pub open init use *

-- A decoded JSON body, as the client reads it: the value at the type that the call expects, where it
-- has that type, as the bodies of answers with a status from 200 to 299 are taken to, and the two fields of
-- an error body.
pub record Decoded (T : Type 0) : Type 0 where
  pub value : Option T
  pub error : Option String
  pub message : Option String

-- `body` is none where `response.json()` throws, and where the JSON is null.
pub record Response (T : Type 0) : Type 0 where
  pub status : ℕ
  pub body : Option (Decoded T)

-- `response.ok`
abbrev pub is_ok : ℕ → Bool
is_ok status = leb 200 status && leb status 299

pub data Fetched (T : Type 0) : Type 0 where
  resolved : Response T → Fetched T
  rejected : Thrown → Fetched T

-- The answers of the demonstration endpoints, of the lists and of the health check.
pub record DemoResponse : Type 0 where
  pub message : String
  pub user : String
  pub role : String

pub record UsersResponse : Type 0 where
  pub users : List User
  pub count : Option ℕ

pub record PoliciesResponse : Type 0 where
  pub policies : List Policy
  pub count : ℕ

pub record MessageResponse : Type 0 where
  pub message : String

pub record HealthResponse : Type 0 where
  pub status : String
  pub service : String

-- The type argument of `request<T>`, by name.
pub data Resource : Type 0 where
  registered auth profile demo users policies policy message access mfa_setup mfa_verify audit
        health :
      Resource

abbrev pub Body : Resource → Type 0
Body registered = RegisterResponse
Body auth = AuthResponse
Body profile = User
Body demo = DemoResponse
Body users = UsersResponse
Body policies = PoliciesResponse
Body policy = Policy
Body message = MessageResponse
Body access = AccessCheckResponse
Body mfa_setup = MfaSetupResponse
Body mfa_verify = MfaVerifyResponse
Body audit = AuditListResponse
Body health = HealthResponse

pub record Network (W : Type 0) : Type 0 where
  pub fetch : (r : Resource) → HttpRequest → W → Fetched (Body r) × W

-- `storage` is the item `nexus_auth_token` of `sessionStorage`; `token` is `ApiClient.token`.
pub record Env (W : Type 0) : Type 0 where
  pub world : W
  pub storage : Option String
  pub token : Option String
