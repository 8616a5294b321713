-- ===== src/Backend/Accounts/Reached.antt =====
-- What holds of the accounts after any calls of the handlers.
use nexus_cloud_identity_acc.Common.{
  ℕ, String, Option, none, some, List, [], ◌==◌, ◌≡◌, ◌≢◌, refl, arith, if_rule, nat_eq, not, ◌||◌,
}
use nexus_cloud_identity_acc.Common.Maps.{lookup}
use nexus_cloud_identity_acc.Types.{MfaVerifyResponse}
use nexus_cloud_identity_acc.Browser.{Response}
use nexus_cloud_identity_acc.Backend.Accounts.{Account, get_user_by_id, new_memory_user_store}
use nexus_cloud_identity_acc.Backend.Accounts.Service
use nexus_cloud_identity_acc.Backend.Accounts.Service.{
  Bcrypt, Jwt, Moment, TokenClaims, requested_role, utf8_length,
}
use nexus_cloud_identity_acc.Backend.Accounts.Handlers.{
  Server, LoginRequest, RegisterRequest, login_handler, register_handler,
}
use nexus_cloud_identity_acc.Backend.Accounts.Mfa.{mfa_verify_handler, verify_for}
use nexus_cloud_identity_acc.Backend.Totp.{verify_secret}
use nexus_cloud_identity_acc.Backend.Accounts.Seed.{SeedUser, seed_user}
use nexus_cloud_identity_acc.Backend.Accounts.Consistent.{new_memory_user_store-Consistent}
use nexus_cloud_identity_acc.Backend.Accounts.Kept.{
  Inv, seeded-Inv, register-Inv, registered-store, logged_in-store, verified-store,
}

module _ (print_time : ℕ → String) (j : Jwt) (b : Bcrypt)
    (hmac_sha1 : (key message : List ℕ) → List ℕ) where
  -- Seeding and the calls that write. A new id is not in use.
  pub data Step (s : Server) : Server → Type 0 where
    seeds :
        (m : Moment) (seed : SeedUser)
        → lookup m.user_id s.store.by_id ≡ none
        → Step s (record s { store = seed_user b m seed s.store })
    registers :
        (m : Moment) (body : Option RegisterRequest)
        → lookup m.user_id s.store.by_id ≡ none
        → Step s (register_handler print_time b m body s).1
    logs_in : (m : Moment) (body : Option LoginRequest) → Step s (login_handler j b m body s).1
    verifies :
        (m : Moment) (claims : Option TokenClaims) (body : Option String)
        → Step s (mfa_verify_handler hmac_sha1 m claims body s).1

  -- from an empty store and log
  pub data Reached : Server → Type 0 where
    started : Reached (record { store = new_memory_user_store; log = [] })
    then_step : {s t : Server} → Reached s → Step s t → Reached t

  mfa_verify_handler-store :
      (m : Moment) (claims : Option TokenClaims) (body : Option String) (s : Server)
      → (mfa_verify_handler hmac_sha1 m claims body s).1.store ≡ s.store
  unfolding mfa_verify_handler
  mfa_verify_handler-store m none body s = refl
  mfa_verify_handler-store m (some claims) none s = refl
  mfa_verify_handler-store m (some claims) (some code) s =
      if_rule same (nat_eq (utf8_length code) 6)
        (of_account (get_user_by_id claims.user_id s.store)) refl
    where
      same : Response MfaVerifyResponse × Server → Type 0
      same x = x.1.store ≡ s.store

      of_account : (o : Option Account) → (verify_for hmac_sha1 m code o s).1.store ≡ s.store
      of_account none = refl
      of_account (some u) =
          if_rule same (not u.mfa_enabled || u.mfa_secret == "") refl
            (verified-store m u (verify_secret hmac_sha1 u.mfa_secret code m.now) s)

  Step-Inv : {s t : Server} → Step s t → Inv s.store → Inv t.store
  unfolding register_handler login_handler
  Step-Inv {s} (seeds m seed fresh) inv = seeded-Inv m seed _ s.store fresh inv
  Step-Inv {s} (registers m none fresh) inv = inv
  Step-Inv {s} (registers m (some req) fresh) inv =
      rw
        (registered-store print_time m req
          (Service.register b m req.username req.password (requested_role req.role) s.store) s.log)
        (register-Inv b m req.username req.password (requested_role req.role) s.store fresh inv)
  Step-Inv {s} (logs_in m none) inv = inv
  Step-Inv {s} (logs_in m (some req)) inv =
      rw (logged_in-store m req (Service.login j b m req.username req.password s.store) s) inv
  Step-Inv {s} (verifies m claims body) inv = rw (mfa_verify_handler-store m claims body s) inv

  -- After any seeding, registrations, sign-ins and verifications from an empty server, where each new id
  -- is not yet in use, the map by id and the map by name hold the same accounts, each under its own id and
  -- name; and every account is active, with the second factor not enabled.
  pub Reached-Inv : {s : Server} → Reached s → Inv s.store
  unfolding lookup
  Reached-Inv started = record {
    consistent = new_memory_user_store-Consistent;
    plain = λ id u h. cc h;
  }
  Reached-Inv (then_step r st) = Step-Inv st (Reached-Inv r)

  -- On every server so reached, the verification of a second factor succeeds for nobody: whatever the
  -- claims and the code, the answer has not the status 200, and neither the accounts nor the log change.
  pub mfa_verify_handler-closed :
      {s : Server} (m : Moment) (claims : Option TokenClaims) (body : Option String)
      → Reached s
      → let x = mfa_verify_handler hmac_sha1 m claims body s in (x.0.status ≢ 200) × (x.1 ≡ s)
  unfolding mfa_verify_handler get_user_by_id
  mfa_verify_handler-closed {s} m none body r = (omega arith, refl)
  mfa_verify_handler-closed {s} m (some claims) none r = (omega arith, refl)
  mfa_verify_handler-closed {s} m (some claims) (some code) r =
      if_rule closed (nat_eq (utf8_length code) 6)
        (of_account (lookup claims.user_id s.store.by_id) refl) (omega arith, refl)
    where
      closed : Response MfaVerifyResponse × Server → Type 0
      closed x = (x.0.status ≢ 200) × (x.1 ≡ s)

      of_account :
          (o : Option Account)
          → lookup claims.user_id s.store.by_id ≡ o
          → closed (verify_for hmac_sha1 m code o s)
      of_account none e = (omega arith, refl)
      of_account (some u) e = rw ((Reached-Inv r).plain claims.user_id u e).1 (omega arith, refl)
