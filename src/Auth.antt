-- ===== src/Auth.antt =====
-- frontend/src/hooks/useAuth.tsx: `AuthProvider`. Each async method is cut at its `await`s: what it
-- does with an answer is a function of the answer and of the state then current. The methods run the
-- pieces one after the other; `Races` lets other events come between.
pub mod Invariant
pub mod Login
pub mod Races
pub mod Context
use nexus_cloud_identity_acc.Common.{
  String, Bool, true, false, Option, none, some, List, ◌==◌, truthy, includes, if◌then◌else◌, map,
  ◌≡◌, refl,
}
use nexus_cloud_identity_acc.Browser.{Thrown, Result, ok, thrown, Action, ◌>>=◌, pure, Network, Env}
use nexus_cloud_identity_acc.Types.{Role, role_name, User, AuthResponse}
use nexus_cloud_identity_acc.Api
use nexus_cloud_identity_acc.Api.{construct, set_token}

-- the provider's `useState` variables
pub record Session : Type 0 where
  pub user : Option User
  pub token : Option String
  pub is_loading : Bool

-- the client and the provider of one page
pub record App (W : Type 0) : Type 0 where
  pub env : Env W
  pub session : Session

-- the first render, after a page load
unfoldable pub mount : {W : Type 0} → W → Option String → App W
unfolding construct
mount w storage =
    let env = construct w storage in
    record { env = env; session = record { user = none; token = env.token; is_loading = true } }

unfoldable pub logout : {W : Type 0} → App W → App W
unfolding set_token
logout a = record {
  env = set_token none a.env;
  session = record { user = none; token = none; is_loading = a.session.is_loading };
}

-- the end of `fetchProfile`, with its `catch` and `finally`
unfoldable pub profile_arrived : {W : Type 0} → Result (Option User) → App W → App W
unfolding logout
profile_arrived (ok profile) a = record a {
  session = record a.session { user = profile; is_loading = false };
}
profile_arrived (thrown e) a =
    let b = logout a in record b { session = record b.session { is_loading = false } }

-- the early return of `fetchProfile`
unfoldable pub no_token : {W : Type 0} → App W → App W
no_token a = record a { session = record a.session { user = none; is_loading = false } }

-- `setToken(res.token)` in `login`
unfoldable pub token_arrived : {W : Type 0} → AuthResponse → App W → App W
token_arrived res a = record a { session = record a.session { token = some res.token } }

-- `setUser(profile)` in `login`
unfoldable pub user_arrived : {W : Type 0} → Option User → App W → App W
user_arrived profile a = record a { session = record a.session { user = profile } }

-- `api.m()` from the provider
abbrev pub call : {W A : Type 0} → Action (Env W) A → Action (App W) A
call m a = let (r, env) = m a.env in (r, record a { env = env })

module _ {W A B : Type 0} (P : Result B × App W → Type 0) where
  answer_rule :
      (m : Result A × Env W) (f : A → Action (App W) B) (a : App W)
      → ((x : A) (env : Env W) → m ≡ (ok x, env) → P (f x (record a { env = env })))
      → ((e : Thrown) (env : Env W) → m ≡ (thrown e, env) → P (thrown e, record a { env = env }))
      → P (((λ s. (m.0, record s { env = m.1 })) >>= f) a)
  answer_rule (ok x, env) f a on_ok on_thrown = on_ok x env refl
  answer_rule (thrown e, env) f a on_ok on_thrown = on_thrown e env refl

  -- `bind_rule` where the first call is one of the client's
  pub call_rule :
      (m : Action (Env W) A) (f : A → Action (App W) B) (a : App W)
      → ((x : A) (env : Env W) → m a.env ≡ (ok x, env) → P (f x (record a { env = env })))
      → ((e : Thrown) (env : Env W)
          → m a.env ≡ (thrown e, env)
          → P (thrown e, record a { env = env }))
      → P ((call m >>= f) a)
  call_rule m f a on_ok on_thrown = answer_rule (m a.env) f a on_ok on_thrown

abbrev pub modify : {S : Type 0} → (S → S) → Action S (Unit {0})
modify f s = (ok tt, f s)

-- `roles.includes(user.role)`, and super_admin always
unfoldable pub has_role : Option User → List Role → Bool
has_role none roles = false
has_role (some u) roles =
    if role_name u.role == "super_admin"
    then true
    else includes (map role_name roles) (role_name u.role)

module _ {W : Type 0} (net : Network W) where
  unfoldable pub fetch_profile : App W → App W
  unfolding profile_arrived no_token
  fetch_profile a =
      let (r, b) = call (Api.get_me net) a in
      if truthy a.env.token then profile_arrived r b else no_token a

  -- the effect after the first render
  unfoldable pub load : W → Option String → App W
  unfolding mount fetch_profile
  load w storage = fetch_profile (mount w storage)

  unfoldable pub login : String → String → Action (App W) (Unit {0})
  unfolding token_arrived user_arrived
  login username password = do
    res ← call (Api.login net username password)
    _ ← modify (token_arrived res)
    profile ← call (Api.get_me net)
    modify (user_arrived profile)

  unfoldable pub register : String → String → String → Action (App W) (Unit {0})
  register username password role = do
    _ ← call (Api.register net username password role)
    login username password

  unfoldable pub refresh_profile : App W → App W
  unfolding fetch_profile
  refresh_profile a = fetch_profile a
