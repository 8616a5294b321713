-- ===== src/Backend/Accounts.antt =====
-- backend/internal/users/model.go and the in-memory store of backend/internal/auth/store.go. A role that
-- is stored is one of `ValidRoles`; an instant is a number. A stored account is a copy that is never
-- changed in place, so that the two maps hold values.
pub mod Service
pub mod Handlers
pub mod Mfa
pub mod Consistent
pub mod Updated
pub mod Key
pub mod Seed
pub mod Kept
pub mod Reached
pub mod Demo
pub mod Passwords
pub mod SignIn
pub mod NewAccount
pub mod Registration
pub mod Served
pub mod EndToEnd
use nexus_cloud_identity_acc.Common.{
  ℕ, String, Bool, Option, none, some, List, [], ◌==◌, if◌then◌else◌,
}
use nexus_cloud_identity_acc.Common.Maps.{lookup, put, remove, values}
use nexus_cloud_identity_acc.Types.{Role, Status, User}

-- `users.User`
pub record Account : Type 0 where
  pub id : String
  pub username : String
  pub password_hash : String
  pub role : Role
  pub organization_id : String
  pub status : Status
  pub mfa_secret : String
  pub mfa_enabled : Bool
  pub created_at : ℕ
  pub updated_at : ℕ

-- `ToPublic`, and the JSON that the client reads
unfoldable pub to_public : (print_time : ℕ → String) → Account → User
to_public print_time u = record {
  id = u.id;
  username = u.username;
  role = u.role;
  organization_id = if u.organization_id == "" then none else some u.organization_id;
  status = u.status;
  mfa_enabled = u.mfa_enabled;
  created_at = print_time u.created_at;
}

-- the errors of the package; the texts are those that `%w` appends
pub data AuthError : Type 0 where
  user_not_found user_already_exists weak_password invalid_role mfa_required invalid_mfa_code :
      AuthError
  invalid_credentials invalid_input other_error : String → AuthError

pub data Answer (A : Type 0) : Type 0 where
  failed : AuthError → Answer A
  found : A → Answer A

pub record MemoryUserStore : Type 0 where
  pub by_id : List (String × Account)
  pub by_username : List (String × Account)

abbrev pub new_memory_user_store : MemoryUserStore
new_memory_user_store = record { by_id = []; by_username = [] }

-- what `CreateUser` writes to the user that it is given
abbrev pub stamped : (id : String) → (now : ℕ) → Account → Account
stamped id now u = record u {
  id = if u.id == "" then id else u.id;
  created_at = now;
  updated_at = now;
}

abbrev pub stored : Account → MemoryUserStore → MemoryUserStore
stored u s = record { by_id = put u.id u s.by_id; by_username = put u.username u s.by_username }

-- `CreateUser`: the user as it is afterwards, and the store
unfoldable pub create_user :
    (id : String) → (now : ℕ) → Account → MemoryUserStore → Answer Account × MemoryUserStore
create_user id now u s = elim (lookup u.username s.by_username) [
  | some v ↦ (failed user_already_exists, s)
  | none ↦ (found (stamped id now u), stored (stamped id now u) s)
]

unfoldable pub get_user_by_username : String → MemoryUserStore → Option Account
get_user_by_username username s = lookup username s.by_username

unfoldable pub get_user_by_id : String → MemoryUserStore → Option Account
get_user_by_id id s = lookup id s.by_id

unfoldable pub list_users : MemoryUserStore → List Account
list_users s = values s.by_id

-- `UpdateUser`: none where there is no user with the id
unfoldable pub update_user : (now : ℕ) → Account → MemoryUserStore → Option MemoryUserStore
update_user now u s = elim (lookup u.id s.by_id) [
  | none ↦ none
  | some existing ↦
      let kept = stored (record u { updated_at = now }) s in
      some (
        if existing.username == u.username
        then kept
        else record kept { by_username = remove existing.username kept.by_username })
]
