-- ===== src/Backend/Accounts/Key.antt =====
-- `LoadSigningKey` and `NewService` of backend/internal/auth/service.go. The environment is a function,
-- "" for a variable that is not set, and AWS Secrets Manager one from the secret's name. A key is its
-- text; the lines of the program's own log are left out.
use nexus_cloud_identity_acc.Common.{
  String, Bool, false, Option, none, some, ◌==◌, ◌≡◌, refl, truthy, if◌then◌else◌, Bool-cases, inl,
  inr, is_some, ◌||◌, not, ap, ◌∙◌,
}

-- what the request for a secret brings: no configuration, a failed request, or the secret's text, which
-- may be missing
pub data Secret : Type 0 where
  config_failed : Secret
  failed : Secret
  fetched : Option String → Secret

abbrev pub secret_name : (env : String → String) → String
secret_name env =
    let name = env "AWS_SECRET_NAME" in if name == "" then "nexus/jwt-signing-key" else name

-- the key of the environment; none is an error
abbrev from_env : (env : String → String) → Option String
from_env env = let key = env "JWT_SIGNING_KEY" in if key == "" then none else some key

abbrev from_secret : (env : String → String) → Secret → Option String
from_secret env (fetched text) = if truthy text then text else from_env env
from_secret env _ = from_env env

unfoldable pub load_signing_key : (env : String → String) → (aws : String → Secret) → Option String
load_signing_key env aws = from_secret env (aws (secret_name env))

-- `NewService`: the key that the service keeps; none is an error
unfoldable pub new_service : String → Option String
new_service key = if key == "" then none else some key

-- the secret has a text
abbrev pub has_text : Secret → Bool
has_text (fetched text) = truthy text
has_text _ = false

-- what the start of the server does: both, each of which ends it on an error
abbrev pub started : (env : String → String) → (aws : String → Secret) → Option String
started env aws = elim (load_signing_key env aws) [ none ↦ none | some key ↦ new_service key ]

abbrev kept : Option String → Option String
kept key = elim key [ none ↦ none | some k ↦ new_service k ]

from_env-kept : (env : String → String) → kept (from_env env) ≡ from_env env
unfolding new_service
from_env-kept env = elim (Bool-cases (env "JWT_SIGNING_KEY" == "")) [
  | inl h ↦ rw h refl
  | inr h ↦ rw h (rw (new_service, h) refl)
]

from_secret-kept :
    (env : String → String) (s : Secret) → kept (from_secret env s) ≡ from_secret env s
unfolding new_service
from_secret-kept env (fetched (some t)) = elim (Bool-cases (t == "")) [
  | inl h ↦ rw h (from_env-kept env)
  | inr h ↦ rw h (rw (new_service, h) refl)
]
from_secret-kept env _ = from_env-kept env

from_env-is_some :
    (env : String → String) → is_some (from_env env) ≡ not (env "JWT_SIGNING_KEY" == "")
from_env-is_some env = elim (Bool-cases (env "JWT_SIGNING_KEY" == "")) [
  | inl h ↦ rw h refl
  | inr h ↦ rw h refl
]

from_secret-is_some :
    (env : String → String) (s : Secret)
    → is_some (from_secret env s) ≡ (has_text s || not (env "JWT_SIGNING_KEY" == ""))
from_secret-is_some env (fetched (some t)) = elim (Bool-cases (t == "")) [
  | inl h ↦ rw h (from_env-is_some env)
  | inr h ↦ rw h refl
]
from_secret-is_some env _ = from_env-is_some env

-- The service never refuses a key that was loaded, and the server starts exactly when AWS has a text for
-- the secret or the environment has a key.
pub started-load_signing_key :
    (env : String → String) (aws : String → Secret)
    → (started env aws ≡ load_signing_key env aws)
      × (is_some (started env aws)
          ≡ (has_text (aws (secret_name env)) || not (env "JWT_SIGNING_KEY" == "")))
unfolding load_signing_key
started-load_signing_key env aws =
    let same = from_secret-kept env (aws (secret_name env)) in
    (same, ap is_some same ∙ from_secret-is_some env (aws (secret_name env)))
