-- ===== src/Auth/Login.antt =====
-- What signing in, loading and signing out leave behind, on every branch.
use nexus_cloud_identity_acc.Common.{
  ap, ◌∙◌, String, true, false, Option, none, some, List, ◌≡◌, refl, arith, truthy, ◌↔◌, ◌⊎◌, inl,
  inr, ◌==◌, Bool-cases,
}
use mathlib.Core.List.{Memᴰ}
use nexus_cloud_identity_acc.Browser.{Thrown, Result, ok, thrown, Network, Env, ◌>>=◌}
use nexus_cloud_identity_acc.Types.{Role, super_admin, role_name, User, AuthResponse}
use nexus_cloud_identity_acc.Types.Roles.{role_eq_iff, includes_iff}
use nexus_cloud_identity_acc.Api
use nexus_cloud_identity_acc.Api.{set_token}
use nexus_cloud_identity_acc.Api.Token.{SameClient, get_me-SameClient, login-Written}
use nexus_cloud_identity_acc.Auth.{
  App, mount, logout, profile_arrived, no_token, user_arrived, call, call_rule, modify, load, login,
  has_role,
}

module _ {W : Type 0} (net : Network W) where
  -- The outcomes of `login`, by what the client's two requests come to: refused by the first; let in by
  -- the first and failed by the second; or done.
  pub data SignIn (username password : String) (a b : App W) : Result (Unit {0}) → Type 0 where
    refused :
        {e : Thrown}
        → (Api.login net username password a.env).0 ≡ thrown e
        → b.session ≡ a.session
        → SameClient b.env a.env
        → SignIn username password a b (thrown e)
    half :
        {e : Thrown} (res : AuthResponse)
        → (Api.login net username password a.env).0 ≡ ok res
        → (Api.get_me net (Api.login net username password a.env).1).0 ≡ thrown e
        → b.env.token ≡ some res.token
        → b.session ≡ record a.session { token = some res.token }
        → SignIn username password a b (thrown e)
    done :
        (res : AuthResponse) (p : Option User)
        → (Api.login net username password a.env).0 ≡ ok res
        → (Api.get_me net (Api.login net username password a.env).1).0 ≡ ok p
        → b.env.token ≡ some res.token
        → b.session ≡ record a.session { token = some res.token; user = p }
        → SignIn username password a b (ok tt)

  get_me_at :
      (x y env : Env W) (r : Result (Option User))
      → x ≡ y
      → Api.get_me net y ≡ (r, env)
      → ((Api.get_me net x).0 ≡ r) × SameClient env y
  get_me_at x y env r e q =
      (ap (λ z. (Api.get_me net z).0) e ∙ ap (λ z. z.0) q, rw q at (get_me-SameClient net y))

  profile_after :
      (username password : String) (a : App W) (env : Env W) (res : AuthResponse)
      → Api.login net username password a.env ≡ (ok res, env)
      → env.token ≡ some res.token
      → let b : App W = record {
        env = env;
        session = record a.session { token = some res.token };
      } in
        let x = (call (Api.get_me net) >>= λ p. modify (user_arrived p)) b in
        SignIn username password a x.1 x.0
  unfolding user_arrived
  profile_after username password a env res l h =
      call_rule (λ x. SignIn username password a x.1 x.0) (Api.get_me net) _ _
        (λ p env' e.
          let (got, same) = get_me_at _ env env' _ (ap (λ z. z.1) l) e in
          done res p (ap (λ z. z.0) l) got (same.0 ∙ h) refl)
        (λ x env' e.
          let (got, same) = get_me_at _ env env' _ (ap (λ z. z.1) l) e in
          half res (ap (λ z. z.0) l) got (same.0 ∙ h) refl)

  -- `login` ends in one of three ways. The first request fails, the error is thrown, and neither the
  -- client nor the session has changed. Or it brings a token and the profile request fails: that error
  -- is thrown, the new token is kept in the client and the session, and the user shown is the one from
  -- before. Or both succeed, and the token and the user are those that the two requests brought.
  pub login-SignIn :
      (username password : String) (a : App W)
      → SignIn username password a
          (login net username password a).1
          (login net username password a).0
  unfolding login
  login-SignIn username password a =
      call_rule (λ x. SignIn username password a x.1 x.0) (Api.login net username password) _ a
        (λ res env e. profile_after username password a env res e (written env e))
        (λ x env e.
          refused (ap (λ z. z.0) e) refl (rw e at (login-Written net username password a.env)))
    where
      written :
          {res : AuthResponse} (env : Env W)
          → Api.login net username password a.env ≡ (ok res, env)
          → env.token ≡ some res.token
      written env e = (rw e at (login-Written net username password a.env)).0

  -- The effect after the first render always ends the loading state, whatever the server answers, and
  -- shows no user, or one beside the stored token, which is then neither null nor empty and still held.
  pub load_settles :
      (w : W) (storage : Option String)
      → ((load net w storage).session.is_loading ≡ false)
        × (((load net w storage).session.user ≡ none)
            ⊎ ((truthy storage ≡ true) × ((load net w storage).env.token ≡ storage)))
  unfolding load profile_arrived no_token mount Api.construct logout set_token
  load_settles w storage = ground (arith, get_me-SameClient net (Api.construct w storage))

-- After `logout` a page load starts signed out, whatever the server does.
pub load-logout :
    {W : Type 0} (net : Network W) (w : W) (a : App W)
    → (load net w (logout a).env.storage).session
      ≡ record { user = none; token = none; is_loading = false }
unfolding load logout set_token mount Api.construct no_token
load-logout net w a = refl

has_role_sound :
    (u : User) (roles : List Role)
    → has_role (some u) roles ≡ true
    → (u.role ≡ super_admin) ⊎ Memᴰ u.role roles
unfolding has_role
has_role_sound u roles h = elim (Bool-cases (role_name u.role == "super_admin")) [
  | inl top ↦ inl ((role_eq_iff u.role super_admin).0 top)
  | inr other ↦ inr ((includes_iff u.role roles).0 (rw other at h))
]

pub has_role_complete :
    (u : User) (roles : List Role)
    → (u.role ≡ super_admin) ⊎ Memᴰ u.role roles
    → has_role (some u) roles ≡ true
unfolding has_role
has_role_complete u roles (inl top) = rw ((role_eq_iff u.role super_admin).1 top) refl
has_role_complete u roles (inr m) = elim (Bool-cases (role_name u.role == "super_admin")) [
  | inl top ↦ rw top refl
  | inr other ↦ rw other ((includes_iff u.role roles).1 m)
]

-- `hasRole` holds exactly for a signed-in user who is super_admin or has one of the roles.
pub has_role_iff :
    (u : Option User) (roles : List Role)
    → (has_role u roles ≡ true)
      ↔ ((v : User) × (u ≡ some v) × ((v.role ≡ super_admin) ⊎ Memᴰ v.role roles))
has_role_iff none roles = (λ h. unfold has_role in cc h, λ x. cc (x.1))
has_role_iff (some u) roles =
    (λ h. (u, refl, has_role_sound u roles h), λ x. rw x.1 (has_role_complete x.0 roles x.2))
