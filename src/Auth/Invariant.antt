-- ===== src/Auth/Invariant.antt =====
-- What holds between two operations of `AuthProvider` that do not overlap.
use nexus_cloud_identity_acc.Common.{
  String, Option, none, some, List, [], ◌∷◌, ◌≡◌, ◌≢◌, arith, eq_iff, inl, inr, Option-cases,
}
use nexus_cloud_identity_acc.Browser.{Result, ok, thrown, Network, Env, ◌>>=◌}
use nexus_cloud_identity_acc.Types.{User, AuthResponse}
use nexus_cloud_identity_acc.Api
use nexus_cloud_identity_acc.Api.{set_token, construct}
use nexus_cloud_identity_acc.Api.Token.{
  IsStored, SameClient, get_me-SameClient, register-SameClient, login-Written,
}
use nexus_cloud_identity_acc.Auth.{
  App, mount, logout, profile_arrived, no_token, token_arrived, user_arrived, call, call_rule,
  modify, fetch_profile, load, login, register, refresh_profile,
}

-- The storage holds the client's token, the provider shows the same token, and a user is signed in
-- only beside a token.
pub record Inv {W : Type 0} (a : App W) : Type 0 where
  pub stored : IsStored a.env
  pub same_token : a.session.token ≡ a.env.token
  pub signed_in : a.session.user ≢ none → a.env.token ≢ none

module _ {W : Type 0} where
  mount-Inv : (w : W) (storage : Option String) → storage ≢ some "" → Inv (mount w storage)
  unfolding mount construct
  mount-Inv w none h = ground arith
  mount-Inv w (some t) h = ground (arith, eq_iff t "")

  pub logout-Inv : (a : App W) → Inv (logout a)
  unfolding logout set_token
  logout-Inv a = ground arith

  no_token-Inv : (a : App W) → Inv a → Inv (no_token a)
  unfolding no_token
  no_token-Inv a v = ground arith

  -- an answer that finds a token in place, or an error, keeps the invariant
  pub profile_arrived-Inv :
      (r : Result (Option User)) (a : App W)
      → Inv a
      → a.env.token ≢ none
      → Inv (profile_arrived r a)
  unfolding profile_arrived logout set_token
  profile_arrived-Inv (ok p) a v h = ground arith
  profile_arrived-Inv (thrown e) a v h = ground arith

  -- the client's calls that write no token
  SameClient-Inv :
      (a : App W) (env : Env W) → SameClient env a.env → Inv a → Inv (record a { env = env })
  SameClient-Inv a env h v = ground arith

  token_arrived-Inv :
      (a : App W) (env : Env W) (res : AuthResponse)
      → (env.token ≡ some res.token) × IsStored env
      → Inv (token_arrived res (record a { env = env }))
  unfolding token_arrived
  token_arrived-Inv a env res h = ground arith

  user_arrived-Inv :
      (a : App W) (p : Option User) → Inv a → a.env.token ≢ none → Inv (user_arrived p a)
  unfolding user_arrived
  user_arrived-Inv a p v h = ground arith

module _ {W : Type 0} (net : Network W) where
  pub fetch_profile-Inv : (a : App W) → Inv a → Inv (fetch_profile net a)
  unfolding fetch_profile
  fetch_profile-Inv a v = ground (
    arith,
    no_token-Inv a v,
    get_me-SameClient net a.env,
    SameClient-Inv a (Api.get_me net a.env).1,
    profile_arrived-Inv (Api.get_me net a.env).0 (record a { env = (Api.get_me net a.env).1 }),
  )

  profile_after :
      (t : String) (b : App W)
      → Inv b
      → b.env.token ≡ some t
      → Inv ((call (Api.get_me net) >>= λ p. modify (user_arrived p)) b).1
  profile_after t b v h =
      call_rule (λ x. Inv x.1) (Api.get_me net) _ b
        (λ p env e.
          let same : SameClient env b.env = rw e at (get_me-SameClient net b.env) in
          user_arrived-Inv (record b { env = env }) p (SameClient-Inv b env same v)
            (cc (h, same.0)))
        (λ x env e. SameClient-Inv b env (rw e at (get_me-SameClient net b.env)) v)

  pub login-Inv :
      (username password : String) (a : App W) → Inv a → Inv (login net username password a).1
  unfolding login
  login-Inv username password a v =
      call_rule (λ x. Inv x.1) (Api.login net username password) _ a
        (λ res env e.
          let w : (env.token ≡ some res.token) × IsStored env =
            rw e at (login-Written net username password a.env) in
          profile_after res.token (token_arrived res (record a { env = env }))
            (token_arrived-Inv a env res w) w.0)
        (λ x env e. SameClient-Inv a env (rw e at (login-Written net username password a.env)) v)

  pub register-Inv :
      (username password role : String) (a : App W)
      → Inv a
      → Inv (register net username password role a).1
  unfolding register
  register-Inv username password role a v =
      call_rule (λ x. Inv x.1) (Api.register net username password role) _ a
        (λ _ env e.
          login-Inv username password _ (
            SameClient-Inv a env (rw e at (register-SameClient net username password role a.env))
              v))
        (λ x env e.
          SameClient-Inv a env (rw e at (register-SameClient net username password role a.env)) v)

  load-Inv : (w : W) (storage : Option String) → storage ≢ some "" → Inv (load net w storage)
  unfolding load
  load-Inv w storage h = fetch_profile-Inv (mount w storage) (mount-Inv w storage h)

stored-ne-empty : {W : Type 0} (env : Env W) → IsStored env → env.storage ≢ some ""
stored-ne-empty env h = elim (Option-cases env.token) [
  | inl e ↦ cc (h, e)
  | inr (t, e) ↦ ground (arith, eq_iff t "")
]

-- What the pages call, and a reload of the page.
pub data Operation : Type 0 where
  signs_in : (username password : String) → Operation
  registers : (username password role : String) → Operation
  signs_out refreshes reloads : Operation

module _ {W : Type 0} (net : Network W) where
  pub operate : App W → Operation → App W
  operate a (signs_in username password) = (login net username password a).1
  operate a (registers username password role) = (register net username password role a).1
  operate a signs_out = logout a
  operate a refreshes = refresh_profile net a
  operate a reloads = load net a.env.world a.env.storage

  pub run : App W → List Operation → App W
  run a [] = a
  run a (o ∷ os) = run (operate a o) os

  -- Every operation, whatever the server answers, keeps the invariant: the storage holds the token
  -- or nothing where it is empty, the provider's token is the client's, and no user is signed in
  -- without a token.
  pub operate-Inv : (a : App W) (o : Operation) → Inv a → Inv (operate a o)
  unfolding operate refresh_profile
  operate-Inv a (signs_in username password) v = login-Inv net username password a v
  operate-Inv a (registers username password role) v = register-Inv net username password role a v
  operate-Inv a signs_out v = logout-Inv a
  operate-Inv a refreshes v = fetch_profile-Inv net a v
  operate-Inv a reloads v = load-Inv net a.env.world a.env.storage (stored-ne-empty a.env v.stored)

  run-Inv : (a : App W) (os : List Operation) → Inv a → Inv (run a os)
  unfolding run
  run-Inv a [] v = v
  run-Inv a (o ∷ os) v = run-Inv (operate a o) os (operate-Inv a o v)

  -- From the first load of the page with no stored token, any sequence of sign-ins, registrations,
  -- sign-outs, refreshes and reloads that do not overlap leaves the storage, the client and the
  -- provider agreed on the token, and a user signed in only beside a token.
  pub run-load-Inv : (w : W) (os : List Operation) → Inv (run (load net w none) os)
  run-load-Inv w os = run-Inv (load net w none) os (load-Inv net w none (λ e. cc))
