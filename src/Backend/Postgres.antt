-- ===== src/Backend/Postgres.antt =====
-- backend/internal/auth/store_postgres.go: the accounts in the table `users`, which
-- backend/internal/database/migrations/002_create_users.sql declares. PostgreSQL runs the
-- statements: a row is refused where a text has a character of code 0 or is too long for its column, where
-- its id or its name is another row's (the only refusal with the code 23505), and where its
-- organization is none of the table `organizations`. It keeps the texts as the columns cut them, and
-- an instant to the column's precision, which `rounded` is. `up` says whether the server answers. A
-- table has no order.
pub mod Columns
pub mod Fitting
pub mod Audit
pub mod Creation
pub mod Service
pub mod Order
pub mod Settled
pub mod Unlogged
use nexus_cloud_identity_acc.Common.{
  ℕ, suc, String, Bool, true, false, Option, none, some, List, [], ◌∷◌, ◌==◌, ◌&&◌, ◌||◌, not, leb,
  nat_eq, any, all, map, find, filter, or_else, includes, if◌then◌else◌,
}
use nexus_cloud_identity_acc.Types.{Role, Status}
use nexus_cloud_identity_acc.Backend.Postgres.Columns.{
  takes, takes_optional, cut, cut_optional, has_no_null,
}
use nexus_cloud_identity_acc.Backend.Accounts.{
  Account, Answer, failed, found, user_not_found, user_already_exists, other_error, stamped,
}

pub record UserRow : Type 0 where
  pub id : String
  pub username : String
  pub password_hash : String
  pub role : Role
  pub organization_id : Option String
  pub status : Status
  pub mfa_secret : Option String
  pub mfa_enabled : Bool
  pub created_at : ℕ
  pub updated_at : ℕ

pub record Database : Type 0 where
  pub users : List UserRow
  pub organizations : List String

-- `NULLIF(s, '')`
abbrev pub null_if_empty : String → Option String
null_if_empty s = if s == "" then none else some s

-- the row of the parameters
abbrev pub row_of : Account → UserRow
row_of u = record {
  id = u.id;
  username = u.username;
  password_hash = u.password_hash;
  role = u.role;
  organization_id = null_if_empty u.organization_id;
  status = u.status;
  mfa_secret = some u.mfa_secret;
  mfa_enabled = u.mfa_enabled;
  created_at = u.created_at;
  updated_at = u.updated_at;
}

-- the account of a row that was selected with `COALESCE`
abbrev pub account_of : UserRow → Account
account_of r = record {
  id = r.id;
  username = r.username;
  password_hash = r.password_hash;
  role = r.role;
  organization_id = or_else r.organization_id "";
  status = r.status;
  mfa_secret = or_else r.mfa_secret "";
  mfa_enabled = r.mfa_enabled;
  created_at = r.created_at;
  updated_at = r.updated_at;
}

-- whether the parameters of a row are texts that it takes
abbrev pub has_no_nulls : UserRow → Bool
has_no_nulls r =
    has_no_null r.id
    && has_no_null r.username
    && has_no_null r.password_hash
    && has_no_null (or_else r.organization_id "")
    && has_no_null (or_else r.mfa_secret "")

-- whether the columns take the texts; those of roles and states are short
abbrev pub takes_row : UserRow → Bool
takes_row r =
    takes 64 r.id
    && takes 64 r.username
    && takes 255 r.password_hash
    && takes_optional 64 r.organization_id
    && takes_optional 64 r.mfa_secret

-- the row as the columns keep it
abbrev pub as_kept : (rounded : ℕ → ℕ) → UserRow → UserRow
as_kept rounded r = record r {
  id = cut 64 r.id;
  username = cut 64 r.username;
  password_hash = cut 255 r.password_hash;
  organization_id = cut_optional 64 r.organization_id;
  mfa_secret = cut_optional 64 r.mfa_secret;
  created_at = rounded r.created_at;
  updated_at = rounded r.updated_at;
}

-- the reference to `organizations`
abbrev pub is_referenced : List String → Option String → Bool
is_referenced organizations none = true
is_referenced organizations (some o) = includes organizations o

pub data Executed : Type 0 where
  done : Database → Executed
  unique_violation : Executed
  other_violation : Executed

-- whether a row's id or name is that of one of these
abbrev pub collides : UserRow → List UserRow → Bool
collides r rows = any (λ q. q.id == r.id) rows || any (λ q. q.username == r.username) rows

-- the constraints of the table on a row as it would be kept
abbrev pub constrained : UserRow → Database → Executed
constrained r db =
    if collides r db.users
    then unique_violation
    else if not (is_referenced db.organizations r.organization_id)
    then other_violation
    else done (record db { users = r ∷ db.users })

-- `INSERT INTO users`
unfoldable pub insert_row : (rounded : ℕ → ℕ) → UserRow → Database → Executed
insert_row rounded r db =
    if not (has_no_nulls r)
    then other_violation
    else if not (takes_row r)
    then other_violation
    else constrained (as_kept rounded r) db

-- `UPDATE users … WHERE id = $9`, which keeps the id and the time of the creation; with whether it changed
-- a row
abbrev with_id_of : UserRow → UserRow → UserRow
with_id_of old new = record new { id = old.id; created_at = old.created_at }

abbrev pub set_row : (id : String) → UserRow → List UserRow → List UserRow
set_row id r [] = []
set_row id r (q ∷ rows) =
    let rest = set_row id r rows in if q.id == id then with_id_of q r ∷ rest else q ∷ rest

abbrev pub set_constrained : (id : String) → UserRow → Database → Executed × Bool
set_constrained id r db =
    if any (λ q. not (q.id == id) && q.username == r.username) db.users
    then (unique_violation, false)
    else if not (is_referenced db.organizations r.organization_id)
    then (other_violation, false)
    else (done (record db { users = set_row id r db.users }), true)

unfoldable pub update_row : (rounded : ℕ → ℕ) → UserRow → Database → Executed × Bool
update_row rounded r db =
    if not (has_no_nulls r)
    then (other_violation, false)
    else if not (any (λ q. q.id == r.id) db.users)
    then (done db, false)
    else if not (takes_row r)
    then (other_violation, false)
    else set_constrained r.id (as_kept rounded r) db

abbrev created : Account → Database → Executed → Answer Account × Database
created u db (done db') = (found u, db')
created u db unique_violation = (failed user_already_exists, db)
created u db other_violation = (failed (other_error "postgres create user"), db)

-- `CreateUser`: the user as it is afterwards, and the database
unfoldable pub create_user :
    (rounded : ℕ → ℕ)
    → (up : Bool) → (id : String) → (now : ℕ) → Account
    → Database
    → Answer Account × Database
unfolding insert_row
create_user rounded false id now u db = (failed (other_error "postgres create user"), db)
create_user rounded true id now u db =
    let v = stamped id now u in created v db (insert_row rounded (row_of v) db)

abbrev pub selected : Option UserRow → Answer Account
selected none = failed user_not_found
selected (some r) = found (account_of r)

unfoldable pub get_user_by_username : (up : Bool) → String → Database → Answer Account
get_user_by_username false username db = failed (other_error "postgres get user by username")
get_user_by_username true username db =
    if has_no_null username
    then selected (find (λ r. r.username == username) db.users)
    else failed (other_error "postgres get user by username")

unfoldable pub get_user_by_id : (up : Bool) → String → Database → Answer Account
get_user_by_id false id db = failed (other_error "postgres get user by id")
get_user_by_id true id db =
    if has_no_null id
    then selected (find (λ r. r.id == id) db.users)
    else failed (other_error "postgres get user by id")

-- a row among those that are sorted, the latest first; rows of one time keep some order
abbrev insert_by_time : UserRow → List UserRow → List UserRow
insert_by_time r [] = r ∷ []
insert_by_time r (q ∷ rows) =
    let rest = insert_by_time r rows in
    if leb q.created_at r.created_at then r ∷ q ∷ rows else q ∷ rest

abbrev pub latest_first : List UserRow → List UserRow
latest_first [] = []
latest_first (r ∷ rows) = insert_by_time r (latest_first rows)

unfoldable pub list_users : (up : Bool) → Database → Answer (List Account)
list_users false db = failed (other_error "postgres list users")
list_users true db = found (map account_of (latest_first db.users))

abbrev updated : Database → Executed × Bool → Answer (Unit {0}) × Database
updated db (done db', true) = (found tt, db')
updated db (done db', false) = (failed user_not_found, db')
updated db (_, _) = (failed (other_error "postgres update user"), db)

unfoldable pub update_user :
    (rounded : ℕ → ℕ) → (up : Bool) → (now : ℕ) → Account → Database → Answer (Unit {0}) × Database
unfolding update_row
update_user rounded false now u db = (failed (other_error "postgres update user"), db)
update_user rounded true now u db =
    updated db (update_row rounded (row_of (record u { updated_at = now })) db)
