-- ===== src/Examples/Registration.antt =====
-- A network with the account handlers behind it.
use mathlib.Core.List.{Memᴰ}
use nexus_cloud_identity_acc.Common.{
  ℕ, String, true, false, Option, none, some, List, [], ◌≡◌, ◌≢◌, refl, ap, sym, ◌∙◌, ◌==◌, show,
  ◌+s◌, arith, eq_iff,
}
use nexus_cloud_identity_acc.Common.Maps.{lookup}
use nexus_cloud_identity_acc.Types.{developer, role_name}
use nexus_cloud_identity_acc.Browser.{
  Fetched, resolved, Resource, registered, auth, profile, Body, Network, Payload, credentials,
  registration, HttpRequest, Response, header, ok, thrown, error_of,
}
use nexus_cloud_identity_acc.Api.{request_for}
use nexus_cloud_identity_acc.Backend.Bearer.{trim_space}
use nexus_cloud_identity_acc.Backend.Accounts.{
  Account, new_memory_user_store, to_public, create_user, get_user_by_username,
}
use nexus_cloud_identity_acc.Backend.Accounts.Service.{claims_for, utf8_length, requested_role}
use nexus_cloud_identity_acc.Backend.Accounts.Handlers.{
  Server, LoginRequest, RegisterRequest, login_handler, register_handler, me_handler,
}
use nexus_cloud_identity_acc.Backend.Accounts.NewAccount.{registered_account, IsNew}
use nexus_cloud_identity_acc.Auth
use nexus_cloud_identity_acc.Auth.{App}
use nexus_cloud_identity_acc.Backend.Http.{reply, reply_message}
use nexus_cloud_identity_acc.Backend.Accounts.Service
use nexus_cloud_identity_acc.Backend.Accounts.Registration.{registered_signs_in}
use nexus_cloud_identity_acc.Backend.Accounts.SignIn.{
  Accepts, LoginEnds, login_handler-LoginEnds, claims_at,
}
use nexus_cloud_identity_acc.Backend.Accounts.Mfa.{mfa_verify_handler}
use nexus_cloud_identity_acc.Backend.Accounts.Reached.{
  Reached, started, then_step, registers, Reached-Inv, mfa_verify_handler-closed,
}
use nexus_cloud_identity_acc.Backend.Accounts.Kept.{Inv}
use nexus_cloud_identity_acc.Backend.Accounts.Seed.{seeds, seed_users}
use nexus_cloud_identity_acc.Backend.Accounts.Demo.{demo_account-Accepts}
use nexus_cloud_identity_acc.Backend.Accounts.EndToEnd.{register-signs_in, register-padded}
use nexus_cloud_identity_acc.Backend.Accounts.Served.{ServesAccounts, sign_in, sign_up}
use nexus_cloud_identity_acc.Pages.SignIn.{DemoAccount}
use nexus_cloud_identity_acc.Examples.{answers}
use nexus_cloud_identity_acc.Examples.Accounts.{
  bcrypt, bcrypt-BcryptLaws, moment, grace, expected, jwt, jwt-JwtLaws,
}

abbrev print_time : ℕ → String
print_time n = show n

abbrev sent_back : {T : Type 0} → Response T × Server → Fetched T × Server
sent_back (res, s) = (resolved res, s)

on_register : Option Payload → Server → Fetched (Body registered) × Server
on_register (some (registration username password role)) s =
    sent_back (register_handler print_time bcrypt moment (some (sign_up username password role)) s)
on_register _ s = sent_back (register_handler print_time bcrypt moment none s)

on_login : Option Payload → Server → Fetched (Body auth) × Server
on_login (some (credentials username password)) s =
    sent_back (login_handler jwt bcrypt moment (some (sign_in username password)) s)
on_login _ s = sent_back (login_handler jwt bcrypt moment none s)

serves_account : (r : Resource) → HttpRequest → Server → Fetched (Body r) × Server
unfolding on_register on_login
serves_account registered req s = on_register req.body s
serves_account auth req s = on_login req.body s
serves_account profile req s = (
  resolved
      (me_handler print_time (claims_at jwt moment.now (header "Authorization" req.headers)) s),
  s,
)
serves_account r req s = (answers r, s)

accounts : Network Server
accounts = record { fetch = serves_account }

accounts-ServesAccounts : ServesAccounts accounts print_time jwt bcrypt (λ s. s) (λ s. moment)
unfolding accounts serves_account on_register on_login request_for
accounts-ServesAccounts = record {
  registers = λ token username password role w. (refl, refl);
  signs_in = λ token username password w. (refl, refl, omega arith);
  shows = λ token w claims e. ap (λ o. resolved (me_handler print_time o w)) e;
}

abbrev empty_server : Server
empty_server = record { store = new_memory_user_store; log = [] }

abbrev app : App Server
app = record {
  env = record { world = empty_server; storage = none; token = none };
  session = record { user = none; token = none; is_loading = false };
}

grace-IsNew :
    (username : String)
    → trim_space username ≡ "grace"
    → IsNew bcrypt moment username "password1" developer "password1" new_memory_user_store
unfolding utf8_length lookup
grace-IsNew username e = record {
  long_enough = rw e (omega arith);
  short_enough = rw e (omega arith);
  strong = omega arith;
  hashes = refl;
  free = refl;
}

grace_bare : trim_space "grace" ≡ "grace"
unfolding trim_space
grace_bare = refl

register-signs_in_example :
    let x = Auth.register accounts "grace" "password1" (role_name developer) app in
    (x.0 ≡ ok tt)
    × (x.1.session.user ≡ some (to_public print_time grace))
    × (x.1.session.token ≡ some "signed")
register-signs_in_example =
    register-signs_in accounts print_time jwt bcrypt bcrypt-BcryptLaws jwt-JwtLaws (λ s. s)
      (λ s. moment) accounts-ServesAccounts "grace" "password1" "password1" "signed" developer app
      grace_bare (grace-IsNew "grace" grace_bare) refl

padded_trims : trim_space " grace" ≡ "grace"
unfolding trim_space
padded_trims = refl

padded : trim_space " grace" ≢ " grace"
padded e =
    let d : (" grace" == "grace") ≡ true = (eq_iff " grace" "grace").1 (sym e ∙ padded_trims) in
    cc d

unknown : get_user_by_username " grace" new_memory_user_store ≡ none
unfolding get_user_by_username lookup
unknown = refl

register-padded_example :
    let x = Auth.register accounts " grace" "password1" (role_name developer) app in
    (x.0 ≡ thrown (error_of "invalid credentials"))
    × (x.1.session ≡ app.session)
    × Accepts bcrypt
        (trim_space " grace")
        "password1"
        x.1.env.world.store
        (registered_account moment (trim_space " grace") "password1" developer)
register-padded_example =
    register-padded accounts print_time jwt bcrypt bcrypt-BcryptLaws jwt-JwtLaws (λ s. s)
      (λ s. moment) accounts-ServesAccounts " grace" "password1" "password1" developer app padded
      unknown (grace-IsNew " grace" padded_trims)

abbrev request : RegisterRequest
request = record { username = " grace"; password = "password1"; role = "Developer" }

is_created : (register_handler print_time bcrypt moment (some request) empty_server).0.status ≡ 201
unfolding register_handler Service.register requested_role trim_space utf8_length create_user lookup
is_created = refl

named : requested_role "Developer" ≡ some developer
unfolding requested_role trim_space
named = refl

signs_grace :
    (u : Account)
    → u.id ≡ "u-7"
    → u.username ≡ trim_space " grace"
    → requested_role "Developer" ≡ some u.role
    → (t : String) × (jwt.sign (claims_for moment u) ≡ some t)
signs_grace u id name role =
    let r : developer ≡ u.role = cc (named, role) in
    ("signed", rw (id, name ∙ padded_trims, sym r) refl)

registered_signs_in_example :
    let x = register_handler print_time bcrypt moment (some request) empty_server in
    let again : LoginRequest = record {
      username = trim_space request.username;
      password = request.password;
    } in
    let y = login_handler jwt bcrypt moment (some again) x.1 in
    (u : Account) × (t : String) × (requested_role request.role ≡ some u.role)
    × (x.0
        ≡ reply_message 201 "user registered successfully"
            (record { message = "user registered successfully"; user = to_public print_time u }))
    × (y.0 ≡ reply 200 (record { token = t }))
    × (me_handler print_time (claims_at jwt 1700000005 (some ("Bearer " +s t))) y.1
        ≡ reply 200 (to_public print_time u))
registered_signs_in_example =
    registered_signs_in print_time jwt bcrypt bcrypt-BcryptLaws jwt-JwtLaws moment moment request
      empty_server 1700000005 is_created signs_grace (omega arith)

abbrev wrong : LoginRequest
wrong = record { username = "grace"; password = "wrong" }

login_handler-LoginEnds_example :
    LoginEnds jwt bcrypt moment wrong empty_server
      (login_handler jwt bcrypt moment (some wrong) empty_server)
login_handler-LoginEnds_example = login_handler-LoginEnds jwt bcrypt moment wrong empty_server

abbrev no_hmac : List ℕ → List ℕ → List ℕ
no_hmac key message = []

abbrev registered_server : Server
registered_server = (register_handler print_time bcrypt moment (some request) empty_server).1

free_id : lookup moment.user_id new_memory_user_store.by_id ≡ none
unfolding lookup
free_id = refl

reached : Reached print_time jwt bcrypt no_hmac registered_server
reached = then_step started (registers moment (some request) free_id)

Reached-Inv_example : Inv registered_server.store
Reached-Inv_example = Reached-Inv print_time jwt bcrypt no_hmac reached

mfa_verify_handler-closed_example :
    let x = mfa_verify_handler no_hmac moment (some expected) (some "123456") registered_server in
    (x.0.status ≢ 200) × (x.1 ≡ registered_server)
mfa_verify_handler-closed_example =
    mfa_verify_handler-closed print_time jwt bcrypt no_hmac moment (some expected) (some "123456")
      reached

abbrev admin_demo : DemoAccount
admin_demo = record {
  label = "Admin";
  username = "admin";
  password = "AdminPassword123!";
  color = "#7c5ef6";
}

demo_account-Accepts_example :
    (u : Account) × Accepts bcrypt "admin" "AdminPassword123!"
      (seed_users bcrypt (λ seed. moment) seeds new_memory_user_store)
      u
demo_account-Accepts_example =
    demo_account-Accepts bcrypt bcrypt-BcryptLaws (λ seed. moment) (λ seed. seed.password)
      (refl, (refl, (refl, (refl, tt)))) admin_demo (Memᴰ.head refl)
