-- ===== src/Examples/Session.antt =====
-- Sign-in, load, sign-out and races at the example server.
use nexus_cloud_identity_acc.Common.{
  ℕ, true, false, none, some, List, [], ◌∷◌, ◌≡◌, refl, truthy, ◌⊎◌,
}
use nexus_cloud_identity_acc.Api
use nexus_cloud_identity_acc.Auth.{load, login, logout}
use nexus_cloud_identity_acc.Auth.Invariant.{
  Inv, Operation, signs_in, registers, signs_out, refreshes, reloads, run, run-load-Inv,
}
use nexus_cloud_identity_acc.Auth.Login.{SignIn, login-SignIn, load_settles}
use nexus_cloud_identity_acc.Auth.Races.{
  Tab, Steps, here, next, sign_in, sign_out, let_in, reading_profile, Agrees, Steps-Agrees,
  late_profile_signs_in, with_token,
}
use nexus_cloud_identity_acc.Examples.{ada, server, tab}

abbrev events : List Operation
events = signs_in "ada" "pw" ∷ refreshes ∷ reloads ∷ signs_out ∷ registers "ada" "pw" "viewer" ∷ []

run-load-Inv_example : Inv (run server (load server 0 none) events)
run-load-Inv_example = run-load-Inv server 0 events

login-SignIn_example :
    SignIn server "ada" "pw" tab (login server "ada" "pw" tab).1 (login server "ada" "pw" tab).0
login-SignIn_example = login-SignIn server "ada" "pw" tab

-- both requests succeed
signed_in : (login server "ada" "pw" tab).1.session.user ≡ some ada
unfolding login Api.login Api.request Api.get_me
signed_in = refl

load_settles_example :
    ((load server 0 (some "old")).session.is_loading ≡ false)
    × (((load server 0 (some "old")).session.user ≡ none)
        ⊎ ((truthy (some "old") ≡ true) × ((load server 0 (some "old")).env.token ≡ some "old")))
load_settles_example = load_settles server 0 (some "old")

-- a sign-in whose token comes after a sign-out
abbrev idle : Tab ℕ
idle = record { app = tab; pending = [] }

abbrev crossed : Tab ℕ
crossed = record {
  app = with_token (record { token = "new" }) (logout tab);
  pending = reading_profile ∷ [];
}

crossing : Steps idle crossed
crossing = next (next (next here sign_in) sign_out) (let_in [] [] (record { token = "new" }) refl)

Steps-Agrees_example : Agrees crossed.app
Steps-Agrees_example = Steps-Agrees crossing (refl, refl)

late_profile_signs_in_example :
    (t : Tab ℕ) × Steps idle t
    × (t.app.session.user ≡ some ada)
    × (t.app.env.token ≡ none)
    × (t.app.env.storage ≡ none)
late_profile_signs_in_example = late_profile_signs_in tab ada refl
