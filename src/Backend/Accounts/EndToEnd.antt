-- ===== src/Backend/Accounts/EndToEnd.antt =====
-- The registration and sign-in of the frontend before a server that runs the account handlers.
use nexus_cloud_identity_acc.Common.{ℕ, ◌+◌, ◌<◌, String, none, some, [], ◌≡◌, ◌≢◌, refl, ap, ◌∙◌}
use nexus_cloud_identity_acc.Common.Maps.{lookup-put_other}
use nexus_cloud_identity_acc.Types.{Role, role_name}
use nexus_cloud_identity_acc.Browser.{
  ok, thrown, error_of, Network, Env, credentials, auth, resolved, header,
}
use nexus_cloud_identity_acc.Api
use nexus_cloud_identity_acc.Api.{
  request_for, post, request, receive, headers_for, error_message, set_token,
}
use nexus_cloud_identity_acc.Auth
use nexus_cloud_identity_acc.Auth.{App, token_arrived, user_arrived}
use nexus_cloud_identity_acc.Backend.Http.{failure, reply}
use nexus_cloud_identity_acc.Backend.Bearer.{trim_space, extract-header}
use nexus_cloud_identity_acc.Backend.Accounts.{
  Account, to_public, get_user_by_id, stored, get_user_by_username,
}
use nexus_cloud_identity_acc.Backend.Accounts.Service
use nexus_cloud_identity_acc.Backend.Accounts.Service.{
  Bcrypt, BcryptLaws, Jwt, JwtLaws, Moment, claims_for, token_expiry,
}
use nexus_cloud_identity_acc.Backend.Accounts.Handlers.{Server, login_handler}
use nexus_cloud_identity_acc.Backend.Accounts.SignIn.{
  Accepts, login_handler-signed, claims_at, claims_at-signed,
}
use nexus_cloud_identity_acc.Backend.Accounts.Registration.{IsNew-Registers, me_handler-known}
use nexus_cloud_identity_acc.Backend.Accounts.NewAccount.{IsNew, registered_account}
use nexus_cloud_identity_acc.Backend.Accounts.Served.{
  ServesAccounts, sign_in, sign_up, requested_role-role_name,
}

module _ {W : Type 0} (net : Network W) (print_time : ℕ → String) (j : Jwt) (b : Bcrypt)
    (laws : BcryptLaws b) (tokens : JwtLaws j) (server : W → Server) (moment : W → Moment)
    (serves : ServesAccounts net print_time j b server moment) where
  register_answer :
      (username password hash : String) (r : Role) (env : Env W)
      → IsNew b (moment env.world) username password r hash (server env.world).store
      → let u = registered_account (moment env.world) (trim_space username) hash r in
        let x = Api.register net username password (role_name r) env in
        (x.0
          ≡ ok (
              some (record {
                message = "user registered successfully";
                user = to_public print_time u;
              })))
        × ((server x.1.world).store ≡ stored u (server env.world).store)
        × Accepts b (trim_space username) password (server x.1.world).store u
        × (get_user_by_id u.id (server x.1.world).store ≡ some u)
  unfolding Api.register request receive
  register_answer username password hash r env new =
      let (answer, after) = serves.registers env.token username password (role_name r) env.world in
      let made =
        IsNew-Registers print_time b laws (moment env.world)
          (sign_up username password (role_name r)) (server env.world) r hash
          (requested_role-role_name r) new in
      (
        ap receive (answer ∙ ap resolved made.answer),
        ap (λ s. s.store) after ∙ made.kept,
        rw after made.accepts,
        rw after made.known,
      )

  login_ended :
      (username password t : String) (env : Env W)
      → let x =
          net.fetch auth
            (request_for env.token "/auth/login" (post (some (credentials username password))))
            env.world in
        x.0 ≡ resolved (reply 200 (record { token = t }))
        → Api.login net username password env
          ≡ (ok (record { token = t }), set_token (some t) (record env { world = x.1 }))
  unfolding Api.login request receive Api.store_token set_token
  login_ended username password t env e = rw (e, Api.login) refl

  token_claims :
      (t : String) (u : Account) (m : Moment) (now : ℕ)
      → j.sign (claims_for m u) ≡ some t
      → now < m.now + token_expiry
      → claims_at j now (header "Authorization" (headers_for (some t) [])) ≡ some (claims_for m u)
  token_claims t u m now signed early =
      claims_at-signed j tokens m u t _ now signed
        (extract-header t [] (tokens.sign-ne-empty (claims_for m u) t signed)
          (tokens.trim_space-sign (claims_for m u) t signed))
        early

  sign_in_answer :
      (username password t : String) (u : Account) (env : Env W)
      → Accepts b username password (server env.world).store u
      → get_user_by_id u.id (server env.world).store ≡ some u
      → j.sign (claims_for (moment env.world) u) ≡ some t
      → let x = Api.login net username password env in
        (x.0 ≡ ok (record { token = t }))
        × (x.1.token ≡ some t)
        × ((Api.get_me net x.1).0 ≡ ok (some (to_public print_time u)))
  unfolding Api.login Api.get_me request receive Api.store_token set_token
  sign_in_answer username password t u env accepts known signed =
      let (answer, after, soon) = serves.signs_in env.token username password env.world in
      let signed_in =
        login_handler-signed j b (moment env.world) (server env.world) username password t u accepts
          signed in
      let x =
        net.fetch auth
          (request_for env.token "/auth/login" (post (some (credentials username password))))
          env.world in
      let ended : Api.login net username password env
          ≡ (ok (record { token = t }), set_token (some t) (record env { world = x.1 })) =
        login_ended username password t env (answer ∙ ap (λ y. resolved y.0) signed_in) in
      let kept : (server x.1).store ≡ (server env.world).store =
        ap (λ s. s.store) after ∙ ap (λ y. y.1.store) signed_in in
      rw ended (
        refl,
        refl,
        ap receive (
            serves.shows (some t) x.1 (claims_for (moment env.world) u)
              (token_claims t u (moment env.world) _ signed soon)
            ∙ ap resolved (
                me_handler-known print_time (claims_for (moment env.world) u) u (server x.1)
                  (rw kept known))),
      )

  login_after :
      (username password t : String) (u : Account) (a : App W)
      → (Api.login net username password a.env).0 ≡ ok (record { token = t })
      → (Api.login net username password a.env).1.token ≡ some t
      → (Api.get_me net (Api.login net username password a.env).1).0
        ≡ ok (some (to_public print_time u))
      → let x = Auth.login net username password a in
        (x.0 ≡ ok tt)
        × (x.1.session.user ≡ some (to_public print_time u))
        × (x.1.session.token ≡ some t)
  unfolding Auth.login token_arrived user_arrived
  login_after username password t u a e held me = rw (e, Auth.login) (rw me (refl, refl, refl))

  -- Before a server that runs the account handlers, the registration of a name that is new to it and has
  -- no white space around it, of 3 to 50 bytes, with a password of 8 bytes or more that can be hashed,
  -- signs in where the server can sign a token for the new account: no error is thrown, and the session
  -- then holds that token and the account, with the role that was chosen, whichever of the seven it is.
  pub register-signs_in :
      (username password hash t : String) (r : Role) (a : App W)
      → trim_space username ≡ username
      → IsNew b (moment a.env.world) username password r hash (server a.env.world).store
      → let u = registered_account (moment a.env.world) username hash r in
        let env = (Api.register net username password (role_name r) a.env).1 in
        j.sign (claims_for (moment env.world) u) ≡ some t
        → let x = Auth.register net username password (role_name r) a in
          (x.0 ≡ ok tt)
          × (x.1.session.user ≡ some (to_public print_time u))
          × (x.1.session.token ≡ some t)
  unfolding Auth.register
  register-signs_in username password hash t r a bare new signed =
      let (answer, kept, accepts, known) = register_answer username password hash r a.env new in
      let env = (Api.register net username password (role_name r) a.env).1 in
      let u = registered_account (moment a.env.world) username hash r in
      let (ended, held, me) =
        sign_in_answer username password t u env (rw bare at accepts) (rw bare at known) signed in
      let (done, shown, token) =
        login_after username password t u (record a { env = env }) ended held me in
      rw (answer, Auth.register) (done, shown, token)

  login_refused :
      (username password : String) (a : App W)
      → get_user_by_username username (server a.env.world).store ≡ none
      → let x = Auth.login net username password a in
        (x.0 ≡ thrown (error_of "invalid credentials"))
        × (x.1.session ≡ a.session)
        × ((server x.1.env.world).store ≡ (server a.env.world).store)
  unfolding Auth.login Api.login request receive Service.login login_handler error_message
  login_refused username password a free =
      let (answer, after, soon) = serves.signs_in a.env.token username password a.env.world in
      let refused : (login_handler j b (moment a.env.world) (some (sign_in username password))
            (server a.env.world)).0
          ≡ failure 401 "invalid credentials" =
        rw (free, Service.login) refl in
      let same : (login_handler j b (moment a.env.world) (some (sign_in username password))
            (server a.env.world)).1.store
          ≡ (server a.env.world).store =
        rw (free, Service.login) refl in
      rw (answer ∙ ap resolved refused, Auth.login) (refl, refl, ap (λ s. s.store) after ∙ same)

  -- Before the same server, a registration whose name is as long, but has white space around it and is
  -- not itself the name of an account, makes the account under the trimmed name and then fails to sign in:
  -- the error is the refusal of the sign-in, and the session stays as it was.
  pub register-padded :
      (username password hash : String) (r : Role) (a : App W)
      → trim_space username ≢ username
      → get_user_by_username username (server a.env.world).store ≡ none
      → IsNew b (moment a.env.world) username password r hash (server a.env.world).store
      → let u = registered_account (moment a.env.world) (trim_space username) hash r in
        let x = Auth.register net username password (role_name r) a in
        (x.0 ≡ thrown (error_of "invalid credentials"))
        × (x.1.session ≡ a.session)
        × Accepts b (trim_space username) password (server x.1.env.world).store u
  unfolding Auth.register get_user_by_username
  register-padded username password hash r a padded free new =
      let (answer, kept, accepts, known) = register_answer username password hash r a.env new in
      let env = (Api.register net username password (role_name r) a.env).1 in
      let u = registered_account (moment a.env.world) (trim_space username) hash r in
      let still_free : get_user_by_username username (server env.world).store ≡ none = rw kept (
        lookup-put_other (trim_space username) username u (server a.env.world).store.by_username
          padded
        ∙ free) in
      let (ended, session, same) =
        login_refused username password (record a { env = env }) still_free in
      rw (answer, Auth.register) (ended, session, rw same accepts)
