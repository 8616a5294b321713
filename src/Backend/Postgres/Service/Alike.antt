-- ===== src/Backend/Postgres/Service/Alike.antt =====
-- The service answers alike over the two stores.

use mathlib.Core.Path.{subst}
use mathlib.Core.Option
use nexus_cloud_identity_acc.Common.{
  ℕ, ◌≤◌, String, Bool, true, false, Option, none, some, List, [], ◌∷◌, ◌==◌, map, ◌≡◌, refl, ap,
  sym, ◌∙◌, ltb, arith, Bool-cases, inl, inr, if◌then◌else◌,
}
use nexus_cloud_identity_acc.Common.Maps.{lookup}
use nexus_cloud_identity_acc.Types.{Role}
use nexus_cloud_identity_acc.Backend.Bearer.{trim_space}
use nexus_cloud_identity_acc.Backend.Accounts
use nexus_cloud_identity_acc.Backend.Accounts.{
  Account, invalid_input, weak_password, invalid_role, other_error, invalid_credentials, Answer,
  failed, found, MemoryUserStore, stamped,
}
use nexus_cloud_identity_acc.Backend.Accounts.Service
use nexus_cloud_identity_acc.Backend.Accounts.Service.{
  Bcrypt, Jwt, Moment, utf8_length, new_account, checked_user, with_token, generate_jwt, is_active,
}
use nexus_cloud_identity_acc.Backend.Postgres.Columns.{char_length, has_no_null}
use nexus_cloud_identity_acc.Backend.Postgres.{Database, get_user_by_username}
use nexus_cloud_identity_acc.Backend.Postgres.Fitting.{kept_instants, CanHold, new_account-CanHold}
use nexus_cloud_identity_acc.Backend.Postgres.Creation.{Agrees, create_user-Agrees, answer_of}
use nexus_cloud_identity_acc.Backend.Postgres.Service.{
  ServiceCall, ServiceReply, registers, signs_in, registered, signed_in, hashed, after_lookup,
  with_role, register, login, serve_rows, serve_memory,
}

same_branches : {A : Type 0} (t : Bool) (x : A) → (if t then x else x) ≡ x
same_branches true x = refl
same_branches false x = refl

at_most_50 : (n : ℕ) → ltb 50 n ≡ false → n ≤ 50
at_most_50 n h = ground arith

-- a reply of the service with the instants of an account that was read as the columns keep them
module _ (rounded : ℕ → ℕ) where
  abbrev pub kept_answer : Answer (String × Account) → Answer (String × Account)
  kept_answer (failed e) = failed e
  kept_answer (found (token, u)) = found (token, kept_instants rounded u)

  abbrev pub kept_reply : ServiceReply → ServiceReply
  kept_reply (registered a) = registered a
  kept_reply (signed_in a) = signed_in (kept_answer a)

  kept-with_token :
      (j : Jwt) (u : Account) (t : Option String)
      → with_token j (kept_instants rounded u) t ≡ kept_answer (with_token j u t)
  kept-with_token j u none = refl
  kept-with_token j u (some t) = refl

  -- a check of the password reads no instant
  kept-checked_user :
      (j : Jwt) (b : Bcrypt) (m : Moment) (password : String) (u : Account)
      → checked_user j b m password (kept_instants rounded u)
        ≡ kept_answer (checked_user j b m password u)
  kept-checked_user j b m password u = elim (Bool-cases (b.compare u.password_hash password)) [
    | inr h ↦ rw h refl
    | inl h ↦ elim (Bool-cases (is_active j u)) [
      | inl a ↦ rw (h, a) (kept-with_token j u (generate_jwt j m u))
      | inr a ↦ rw (h, a) refl
    ]
  ]

  after-answer_of :
      (j : Jwt) (b : Bcrypt) (m : Moment) (password : String) (o : Option Account)
      → after_lookup
          (checked_user j b m password)
          (answer_of (Option.map (kept_instants rounded) o))
        ≡ kept_answer (elim o [
          | none ↦ failed (invalid_credentials "")
          | some u ↦ checked_user j b m password u
        ])
  after-answer_of j b m password none = refl
  after-answer_of j b m password (some u) = kept-checked_user j b m password u

-- a hash and a new id that the columns take
abbrev pub HashFits : String → Type 0
HashFits h = (char_length h ≤ 255) × (has_no_null h ≡ true)

abbrev pub IdFits : String → Type 0
IdFits id = (char_length id ≤ 64) × (has_no_null id ≡ true)

module _ (b : Bcrypt) (j : Jwt) where
  -- The id of each registration is not in use and fits its column, and no name has a character of code 0.
  abbrev pub Suits : List ServiceCall → MemoryUserStore → Type 0
  Suits [] s = Unit
  Suits (registers m username password role ∷ cs) s =
      (lookup m.user_id s.by_id ≡ none)
      × IdFits m.user_id
      × (has_no_null (trim_space username) ≡ true)
      × Suits cs (Service.register b m username password role s).1
  Suits (signs_in m username password ∷ cs) s = (has_no_null username ≡ true) × Suits cs s

module _ (rounded : ℕ → ℕ) (b : Bcrypt) where
  -- the two services do the same, and leave stores that agree
  Same : Answer Account × Database → Answer Account × MemoryUserStore → Type 0
  Same x y = (x.0 ≡ y.0) × Agrees rounded x.1 y.1

  module _ {db : Database} {s : MemoryUserStore} (a : Agrees rounded db s) where
    hashed-Same :
        (m : Moment) (username : String) (role : Role) (hash : Option String)
        → utf8_length username ≤ 50
        → has_no_null username ≡ true
        → IdFits m.user_id
        → ((h : String) → hash ≡ some h → HashFits h)
        → lookup m.user_id s.by_id ≡ none
        → Same (hashed rounded true m username role hash db) (Service.hashed m username role hash s)
    unfolding Same
    hashed-Same m username role none named plain id short fresh = (refl, a)
    hashed-Same m username role (some h) named plain id short fresh =
        let u = new_account m username h role in
        let same_id = same_branches (m.user_id == "") m.user_id in
        let room : CanHold db.organizations (stamped m.user_id m.now u) =
          subst
            (λ x.
              CanHold db.organizations
                (record u { id = x; created_at = m.now; updated_at = m.now }))
            (sym same_id)
            (new_account-CanHold m username h role db.organizations named id.0 (short h refl).0
              plain id.1 (short h refl).1) in
        let (same, agrees, _) =
          create_user-Agrees a m.user_id m.now u room
            (ap (λ x. lookup x s.by_id) same_id ∙ fresh) in
        (same, agrees)

    with_role-Same :
        (m : Moment) (username password : String) (role : Option Role)
        → utf8_length username ≤ 50
        → has_no_null username ≡ true
        → IdFits m.user_id
        → ((salt p h : String) → b.generate salt p ≡ some h → HashFits h)
        → lookup m.user_id s.by_id ≡ none
        → Same
            (with_role b rounded true m username password role db)
            (Service.with_role b m username password role s)
    unfolding Same
    with_role-Same m username password none named plain id short fresh = (refl, a)
    with_role-Same m username password (some r) named plain id short fresh =
        hashed-Same m username r (b.generate m.salt password) named plain id (short m.salt password)
          fresh

    register-Same :
        (m : Moment) (username password : String) (role : Option Role)
        → has_no_null (trim_space username) ≡ true
        → IdFits m.user_id
        → ((salt p h : String) → b.generate salt p ≡ some h → HashFits h)
        → lookup m.user_id s.by_id ≡ none
        → Same
            (register b rounded true m username password role db)
            (Service.register b m username password role s)
    unfolding Same register Service.register
    register-Same m username password role plain id short fresh =
        elim (Bool-cases (ltb (utf8_length (trim_space username)) 3)) [
          | inl h ↦ rw (h, register, Service.register) (refl, a)
          | inr h ↦ elim (Bool-cases (ltb 50 (utf8_length (trim_space username)))) [
            | inl k ↦ rw (h, k, register, Service.register) (refl, a)
            | inr k ↦ elim (Bool-cases (ltb (utf8_length password) 8)) [
              | inl l ↦ rw (h, k, l, register, Service.register) (refl, a)
              | inr l ↦
                  rw (h, k, l, register, Service.register)
                    (with_role-Same m (trim_space username) password role (at_most_50 _ k) plain id
                      short fresh)
            ]
          ]
        ]

    login-eq :
        (j : Jwt) (m : Moment) (username password : String)
        → has_no_null username ≡ true
        → login b j true m username password db
          ≡ kept_answer rounded (Service.login j b m username password s)
    unfolding login Service.login get_user_by_username
    login-eq j m username password plain =
        rw (plain, a.by_name username, login, get_user_by_username)
          (after-answer_of rounded j b m password (Accounts.get_user_by_username username s))

  module _ (j : Jwt) where
    -- Where no hash has more than 255 characters, every registration gets a new id of at most 64, and no
    -- name, id or hash has a character of code 0, the service gives to every sequence of registrations and
    -- sign-ins the same replies over the Postgres store as over the store in memory, but that the
    -- accounts in the replies to sign-ins have their instants in the precision of the columns; if the two
    -- stores agree so at first and the server answers.
    pub serve_rows-eq-serve_memory :
        ((salt p h : String) → b.generate salt p ≡ some h → HashFits h)
        → (cs : List ServiceCall) (db : Database) (s : MemoryUserStore) → Agrees rounded db s
        → Suits b j cs s
        → serve_rows b j rounded cs db ≡ map (kept_reply rounded) (serve_memory b j cs s)
    unfolding serve_rows serve_memory Same
    serve_rows-eq-serve_memory short [] db s a h = refl
    serve_rows-eq-serve_memory short (registers m username password role ∷ cs) db s a
          (new, id, plain, h) =
        let (same, a') = register-Same a m username password role plain id short new in
        let rest = serve_rows-eq-serve_memory short cs _ _ a' h in λ i. registered (same i) ∷ rest i
    serve_rows-eq-serve_memory short (signs_in m username password ∷ cs) db s a (plain, h) =
        let same = login-eq a j m username password plain in
        let rest = serve_rows-eq-serve_memory short cs db s a h in λ i. signed_in (same i) ∷ rest i
