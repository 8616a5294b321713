-- ===== src/Backend/Postgres/Service.antt =====
-- backend/internal/auth/service.go over the Postgres store, and calls of the service one after the other over
-- either store.
pub mod Alike
use mathlib.Core.Path.{subst}
use nexus_cloud_identity_acc.Common.{
  ℕ, ◌≤◌, String, Bool, true, false, Option, none, some, List, [], ◌∷◌, ◌==◌, ◌≡◌, refl, ap, sym,
  ◌∙◌, ltb, arith, Bool-cases, inl, inr, if◌then◌else◌,
}
use nexus_cloud_identity_acc.Common.Maps.{lookup}
use nexus_cloud_identity_acc.Types.{Role}
use nexus_cloud_identity_acc.Backend.Bearer.{trim_space}
use nexus_cloud_identity_acc.Backend.Accounts
use nexus_cloud_identity_acc.Backend.Accounts.{
  Account, invalid_input, weak_password, invalid_role, other_error, invalid_credentials, Answer,
  failed, found, MemoryUserStore, stamped,
}
use nexus_cloud_identity_acc.Backend.Accounts.Service
use nexus_cloud_identity_acc.Backend.Accounts.Service.{
  Bcrypt, Jwt, Moment, utf8_length, new_account, checked_user,
}
use nexus_cloud_identity_acc.Backend.Postgres.{Database, create_user, get_user_by_username}
use nexus_cloud_identity_acc.Backend.Postgres.Fitting.{kept_instants, CanHold, new_account-CanHold}
use nexus_cloud_identity_acc.Backend.Postgres.Creation.{Agrees, create_user-Agrees, answer_of}

pub data ServiceCall : Type 0 where
  registers : Moment → (username password : String) → Option Role → ServiceCall
  signs_in : Moment → (username password : String) → ServiceCall

pub data ServiceReply : Type 0 where
  registered : Answer Account → ServiceReply
  signed_in : Answer (String × Account) → ServiceReply

abbrev pub hashed :
    (rounded : ℕ → ℕ)
    → (up : Bool) → Moment
    → (username : String) → Role
    → Option String
    → Database
    → Answer Account × Database
hashed rounded up m username role none db = (failed (other_error "password hashing failed"), db)
hashed rounded up m username role (some hash) db =
    create_user rounded up m.user_id m.now (new_account m username hash role) db

-- what `Login` makes of the store's answer: every error is a wrong name
abbrev pub after_lookup : {A : Type 0} → (Account → Answer A) → Answer Account → Answer A
after_lookup f (failed e) = failed (invalid_credentials "")
after_lookup f (found u) = f u

module _ (b : Bcrypt) where
  abbrev pub with_role :
      (rounded : ℕ → ℕ)
      → (up : Bool) → Moment
      → (username password : String) → Option Role
      → Database
      → Answer Account × Database
  with_role rounded up m username password none db = (failed invalid_role, db)
  with_role rounded up m username password (some r) db =
      hashed rounded up m username r (b.generate m.salt password) db

  -- `Register`
  unfoldable pub register :
      (rounded : ℕ → ℕ)
      → (up : Bool) → Moment
      → (username password : String) → Option Role
      → Database
      → Answer Account × Database
  register rounded up m username password role db =
      if ltb (utf8_length (trim_space username)) 3
      then (failed (invalid_input "username must be at least 3 characters"), db)
      else if ltb 50 (utf8_length (trim_space username))
      then (failed (invalid_input "username must be at most 50 characters"), db)
      else if ltb (utf8_length password) 8
      then (failed weak_password, db)
      else with_role rounded up m (trim_space username) password role db

  -- `Login`
  unfoldable pub login :
      Jwt
      → (up : Bool) → Moment
      → (username password : String) → Database
      → Answer (String × Account)
  login j up m username password db =
      after_lookup (checked_user j b m password) (get_user_by_username up username db)

  module _ (j : Jwt) where
    -- the answers to calls one after the other
    unfoldable pub serve_rows : (rounded : ℕ → ℕ) → List ServiceCall → Database → List ServiceReply
    unfolding register login
    serve_rows rounded [] db = []
    serve_rows rounded (registers m username password role ∷ cs) db =
        let (answer, db') = register rounded true m username password role db in
        registered answer ∷ serve_rows rounded cs db'
    serve_rows rounded (signs_in m username password ∷ cs) db =
        signed_in (login j true m username password db) ∷ serve_rows rounded cs db

    unfoldable pub serve_memory : List ServiceCall → MemoryUserStore → List ServiceReply
    unfolding Service.register Service.login
    serve_memory [] s = []
    serve_memory (registers m username password role ∷ cs) s =
        let (answer, s') = Service.register b m username password role s in
        registered answer ∷ serve_memory cs s'
    serve_memory (signs_in m username password ∷ cs) s =
        signed_in (Service.login j b m username password s) ∷ serve_memory cs s
