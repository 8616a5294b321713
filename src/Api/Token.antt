-- ===== src/Api/Token.antt =====
-- The token that the client keeps: `setToken`, the constructor, and what each call leaves of it.
use nexus_cloud_identity_acc.Common.{String, Option, none, some, ◌≡◌, refl, truthy, if◌then◌else◌}
use nexus_cloud_identity_acc.Browser.{
  Result, ok, thrown, Resource, auth, Network, Env, RequestInit, credentials, bind_rule, ◌>>=◌,
}
use nexus_cloud_identity_acc.Types.{AuthResponse}
use nexus_cloud_identity_acc.Api.{
  construct, set_token, request, login, register, get_me, not_null, store_token, post,
}

-- The storage holds the client's token, or nothing where the token is null or empty.
abbrev pub IsStored : {W : Type 0} → Env W → Type 0
IsStored env = env.storage ≡ (if truthy env.token then env.token else none)

-- the client's own state, without the world
abbrev pub SameClient : {W : Type 0} → Env W → Env W → Type 0
SameClient a b = (a.token ≡ b.token) × (a.storage ≡ b.storage)

pub set_token-IsStored : {W : Type 0} (t : Option String) (env : Env W) → IsStored (set_token t env)
unfolding set_token
set_token-IsStored t env = refl

-- A page load builds a client that holds the token last set, where that token is neither null nor
-- empty, and no token otherwise.
pub construct-set_token :
    {W : Type 0} (w : W) (t : Option String) (env : Env W)
    → (construct w (set_token t env).storage).token ≡ (if truthy t then t else none)
unfolding construct set_token
construct-set_token w t env = refl

module _ {W : Type 0} (net : Network W) where
  -- a request writes nothing but the world
  pub request-SameClient :
      (r : Resource) (endpoint : String) (options : RequestInit) (env : Env W)
      → SameClient (request net r endpoint options env).1 env
  unfolding request
  request-SameClient r endpoint options env = (refl, refl)

  pub get_me-SameClient : (env : Env W) → SameClient (get_me net env).1 env
  unfolding get_me
  get_me-SameClient env = request-SameClient _ _ _ env

  pub register-SameClient :
      (username password role : String) (env : Env W)
      → SameClient (register net username password role env).1 env
  unfolding register
  register-SameClient username password role env = request-SameClient _ _ _ env

  -- what `login` has written when it comes back
  abbrev pub Written : Env W → Result AuthResponse × Env W → Type 0
  Written env (ok res, env') = (env'.token ≡ some res.token) × IsStored env'
  Written env (thrown e, env') = SameClient env' env

  -- `login` either returns with the token that the server sent in the client and, unless it is empty, in
  -- the storage; or it throws, and neither the client's token nor the storage has changed.
  pub login-Written :
      (username password : String) (env : Env W) → Written env (login net username password env)
  unfolding login
  login-Written username password env =
      bind_rule (Written env) (request net auth "/auth/login" options) _ env
        (λ data' env' e.
          after data' env' (rw e at (request-SameClient auth "/auth/login" options env)))
        (λ e env' q. rw q at (request-SameClient auth "/auth/login" options env))
    where
      options : RequestInit
      options = post (some (credentials username password))

      after :
          (data' : Option AuthResponse) (env' : Env W)
          → SameClient env' env
          → Written env ((not_null data' >>= store_token net) env')
      after none env' h = h
      after (some res) env' h = unfold store_token set_token in (refl, refl)
