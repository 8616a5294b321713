-- ===== src/Backend/Accounts/Registration.antt =====
-- What comes of a registration.
use nexus_cloud_identity_acc.Common.{
  ◌+s◌, ℕ, ◌+◌, ◌<◌, String, some, List, ◌≡◌, ◌≢◌, refl, ap, arith,
}
use nexus_cloud_identity_acc.Common.Maps.{lookup-put_same}
use nexus_cloud_identity_acc.Types.{RegisterResponse, Role}
use nexus_cloud_identity_acc.Browser.{Response}
use nexus_cloud_identity_acc.Backend.Http.{reply, reply_message}
use nexus_cloud_identity_acc.Backend.AuditLog.{Event}
use nexus_cloud_identity_acc.Backend.Bearer.{trim_space, extract_bearer_token-bearer}
use nexus_cloud_identity_acc.Backend.Accounts.{
  Account, Answer, failed, found, AuthError, user_already_exists, weak_password, invalid_role,
  invalid_input, MemoryUserStore, stored, get_user_by_username, get_user_by_id, to_public,
}
use nexus_cloud_identity_acc.Backend.Accounts.Service
use nexus_cloud_identity_acc.Backend.Accounts.Service.{
  Bcrypt, BcryptLaws, Jwt, JwtLaws, Moment, TokenClaims, claims_for, requested_role, token_expiry,
}
use nexus_cloud_identity_acc.Backend.Accounts.Handlers.{
  Server, LoginRequest, RegisterRequest, login_handler, register_handler, registered,
  register_failure, me_handler,
}
use nexus_cloud_identity_acc.Backend.Accounts.SignIn.{
  Accepts, login_handler-signed, claims_at, claims_at-signed,
}
use nexus_cloud_identity_acc.Backend.Accounts.NewAccount.{
  registered_account, IsNew, register-IsNew, register_inv, same_id,
}

-- the parts of the answer to a registration that succeeds
registered-found :
    (print_time : ℕ → String) (m : Moment) (req : RegisterRequest)
    (x : Answer Account × MemoryUserStore) (log : List Event)
    → (registered print_time m req x log).0.status ≡ 201
    → (u : Account) × (x ≡ (found u, x.1))
registered-found print_time m req (found u, store) log h = (u, refl)
registered-found print_time m req (failed e, store) log h = elim (never e h) [ ]
  where
    never : (e : AuthError) → (register_failure e).status ≢ 201
    never user_already_exists h = omega arith
    never weak_password h = omega arith
    never invalid_role h = omega arith
    never (invalid_input why) h = omega arith
    never _ h = omega arith

registered_account-Accepts :
    (b : Bcrypt) (laws : BcryptLaws b) (m : Moment) (username password hash : String) (r : Role)
    (s : MemoryUserStore)
    → b.generate m.salt password ≡ some hash
    → let u = registered_account m username hash r in Accepts b username password (stored u s) u
unfolding get_user_by_username
registered_account-Accepts b laws m username password hash r s made = record {
  named = lookup-put_same username _ s.by_username;
  matches = laws.compare-generate m.salt password hash made;
  is_active = refl;
}

-- An answer to a registration that made an account, and the server with it: the account has the role
-- that was asked for, and its name and password let it in.
pub record Registers (print_time : ℕ → String) (b : Bcrypt) (m : Moment) (req : RegisterRequest)
    (s : Server) (u : Account) (x : Response RegisterResponse × Server) : Type 0 where
  pub identity : u.id ≡ m.user_id
  pub name : u.username ≡ trim_space req.username
  pub role : requested_role req.role ≡ some u.role
  pub answer :
      x.0
      ≡ reply_message 201 "user registered successfully"
          (record { message = "user registered successfully"; user = to_public print_time u })
  pub kept : x.1.store ≡ stored u s.store
  pub accepts : Accepts b (trim_space req.username) req.password x.1.store u
  pub known : get_user_by_id u.id x.1.store ≡ some u

module _ (print_time : ℕ → String) (b : Bcrypt) (laws : BcryptLaws b) (m : Moment)
    (req : RegisterRequest) (s : Server) where
  found-Registers :
      (x : Answer Account × MemoryUserStore) (r : Role) (hash : String)
      → let u = registered_account m (trim_space req.username) hash r in
        requested_role req.role ≡ some r
        → b.generate m.salt req.password ≡ some hash
        → x ≡ (found u, stored u s.store)
        → Registers print_time b m req s u (registered print_time m req x s.log)
  unfolding get_user_by_id
  found-Registers x r hash role made whole = rw whole (record {
    identity = same_id m.user_id;
    name = refl;
    role = role;
    answer = refl;
    kept = refl;
    accepts =
        registered_account-Accepts b laws m (trim_space req.username) req.password hash r s.store
          made;
    known = lookup-put_same _ _ s.store.by_id;
  })

  pub register_handler-Registers :
      (register_handler print_time b m (some req) s).0.status ≡ 201
      → (u : Account) × Registers print_time b m req s u
          (register_handler print_time b m (some req) s)
  unfolding register_handler
  register_handler-Registers h =
      let x = Service.register b m req.username req.password (requested_role req.role) s.store in
      let (u, e) = registered-found print_time m req x s.log h in
      let (r, hash, role, new, same, kept) =
        register_inv b m req.username req.password u s.store x.1 (requested_role req.role) e in
      let v = registered_account m (trim_space req.username) hash r in
      let whole : x ≡ (found v, stored v s.store) = cc (e, same, kept) in
      (v, found-Registers x r hash role new.hashes whole)

  -- a registration of a new name with a valid password and role
  pub IsNew-Registers :
      (r : Role) (hash : String)
      → requested_role req.role ≡ some r
      → IsNew b m req.username req.password r hash s.store
      → Registers print_time b m req s
          (registered_account m (trim_space req.username) hash r)
          (register_handler print_time b m (some req) s)
  unfolding register_handler
  IsNew-Registers r hash role new =
      found-Registers _ r hash role new.hashes
        (rw role (register-IsNew b m req.username req.password r hash s.store new))

pub me_handler-known :
    (print_time : ℕ → String) (claims : TokenClaims) (u : Account) (s : Server)
    → get_user_by_id claims.user_id s.store ≡ some u
    → me_handler print_time (some claims) s ≡ reply 200 (to_public print_time u)
unfolding me_handler
me_handler-known print_time claims u s known = rw (known, me_handler) refl

module _ (print_time : ℕ → String) (j : Jwt) (b : Bcrypt) (laws : BcryptLaws b)
    (tokens : JwtLaws j) where
  -- A registration that is answered with 201 makes an account of the role that was asked for: its trimmed
  -- name and its password then sign in, where a token can be signed for that account, and for 24 hours from
  -- then a request with that token as its bearer is answered with the account that the registration
  -- showed.
  pub registered_signs_in :
      (m m' : Moment) (req : RegisterRequest) (s : Server) (now : ℕ)
      → (register_handler print_time b m (some req) s).0.status ≡ 201
      → ((u : Account)
          → u.id ≡ m.user_id
          → u.username ≡ trim_space req.username
          → requested_role req.role ≡ some u.role
          → (t : String) × (j.sign (claims_for m' u) ≡ some t))
      → now < m'.now + token_expiry
      → let x = register_handler print_time b m (some req) s in
        let again : LoginRequest = record {
          username = trim_space req.username;
          password = req.password;
        } in
        let y = login_handler j b m' (some again) x.1 in
        (u : Account) × (t : String) × (requested_role req.role ≡ some u.role)
        × (x.0
            ≡ reply_message 201 "user registered successfully" (record {
              message = "user registered successfully";
              user = to_public print_time u;
            }))
        × (y.0 ≡ reply 200 (record { token = t }))
        × (me_handler print_time (claims_at j now (some ("Bearer " +s t))) y.1
            ≡ reply 200 (to_public print_time u))
  registered_signs_in m m' req s now created signs early =
      let (u, made) = register_handler-Registers print_time b laws m req s created in
      let (t, signed) = signs u made.identity made.name made.role in
      let x = register_handler print_time b m (some req) s in
      let signed_in =
        login_handler-signed j b m' x.1 (trim_space req.username) req.password t u made.accepts
          signed in
      let claims = claims_for m' u in
      let claimed =
        claims_at-signed j tokens m' u t (some ("Bearer " +s t)) now signed
          (extract_bearer_token-bearer t (tokens.sign-ne-empty claims t signed)
            (tokens.trim_space-sign claims t signed))
          early in
      (
        u,
        t,
        made.role,
        made.answer,
        ap (λ y. y.0) signed_in,
        rw (claimed, signed_in) (me_handler-known print_time (claims_for m' u) u _ made.known),
      )
