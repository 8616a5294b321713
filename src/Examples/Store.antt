-- ===== src/Examples/Store.antt =====
-- A store with one account, which gets another name.
use nexus_cloud_identity_acc.Common.{
  ℕ, ◌+◌, ◌*◌, ◌/◌, map, String, List, [], ◌∷◌, none, some, ◌≡◌, refl, leb, arith, ◌==◌, ◌&&◌,
  Bool-cases, inl, inr, if◌then◌else◌,
}
use nexus_cloud_identity_acc.Common.Maps.{lookup, put}
use nexus_cloud_identity_acc.Backend.Accounts.{
  Account, MemoryUserStore, new_memory_user_store, create_user, update_user,
}
use nexus_cloud_identity_acc.Backend.Accounts.Consistent.{
  Consistent, new_memory_user_store-Consistent, create_user-Consistent, id_for,
}
use nexus_cloud_identity_acc.Backend.Accounts.Updated.{Updated, update_user-Updated}
use nexus_cloud_identity_acc.Backend.Postgres.{Database}
use nexus_cloud_identity_acc.Backend.Postgres.Columns.{char_length, has_no_null}
use nexus_cloud_identity_acc.Backend.Postgres.Creation.{empty-Agrees}
use nexus_cloud_identity_acc.Backend.Bearer.{trim_space, trim_left, trim_right}
use nexus_cloud_identity_acc.Backend.Accounts.Service
use nexus_cloud_identity_acc.Backend.Accounts.Service.{Bcrypt, utf8_length}
use nexus_cloud_identity_acc.Backend.Postgres.Service.{
  ServiceCall, registers, signs_in, serve_rows, serve_memory,
}
use nexus_cloud_identity_acc.Backend.Postgres.Service.Alike.{
  HashFits, Suits, kept_reply, serve_rows-eq-serve_memory,
}
use nexus_cloud_identity_acc.Types.{developer}
use mathlib.Core.Path.{subst}
use nexus_cloud_identity_acc.Examples.Accounts.{grace, moment, jwt}

abbrev one_account : MemoryUserStore
one_account = (create_user "u-7" 4 grace new_memory_user_store).1

fresh : lookup (id_for "u-7" grace) new_memory_user_store.by_id ≡ none
unfolding lookup
fresh = refl

one_account-Consistent : Consistent one_account
one_account-Consistent =
    create_user-Consistent "u-7" 4 grace new_memory_user_store new_memory_user_store-Consistent
      fresh

abbrev renamed : Account
renamed = record grace { username = "ada" }

update_user-Updated_example :
    Updated renamed
      (record renamed { updated_at = 5 })
      one_account
      (update_user 5 renamed one_account)
update_user-Updated_example = update_user-Updated 5 renamed one_account one_account-Consistent

-- a hash that is the password, which is refused where it is long or has a character of code 0
abbrev short_bcrypt : Bcrypt
short_bcrypt = record {
  generate = λ salt password.
      if leb (char_length password) 72 && has_no_null password then some password else none;
  compare = λ hash password. hash == password;
}

is_short : (salt p h : String) → short_bcrypt.generate salt p ≡ some h → HashFits h
is_short salt p h e = elim (Bool-cases (leb (char_length p) 72 && has_no_null p)) [
  | inl fits ↦
      let same : some p ≡ some h = rw fits at e in
      let alike : p ≡ h = cc in
      let bound : HashFits p = (ground arith, ground arith) in subst HashFits alike bound
  | inr long ↦ let never : none ≡ some h = rw long at e in cc
]

-- a registration, another of the same name, a sign-in
abbrev calls : List ServiceCall
calls =
    registers moment "grace" "password1" (some developer)
    ∷ registers (record moment { user_id = "u-8" }) " grace " "password2" (some developer)
    ∷ signs_in moment "grace" "password1"
    ∷ []

calls-Suits : Suits short_bcrypt jwt calls new_memory_user_store
unfolding Service.register create_user lookup put char_length utf8_length trim_space trim_left
    trim_right
calls-Suits = (refl, (omega arith, refl), refl, (refl, (omega arith, refl), refl, (refl, tt)))

abbrev empty_database : Database
empty_database = record { users = []; organizations = "org-default" ∷ [] }

-- nanoseconds, rounded to microseconds
abbrev microseconds : ℕ → ℕ
microseconds n = ((n + 500) / 1000) * 1000

serve_rows-eq-serve_memory_example :
    serve_rows short_bcrypt jwt microseconds calls empty_database
    ≡ map (kept_reply microseconds) (serve_memory short_bcrypt jwt calls new_memory_user_store)
serve_rows-eq-serve_memory_example =
    serve_rows-eq-serve_memory microseconds short_bcrypt jwt is_short calls empty_database
      new_memory_user_store (empty-Agrees microseconds ("org-default" ∷ [])) calls-Suits
