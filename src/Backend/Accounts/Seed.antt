-- ===== src/Backend/Accounts/Seed.antt =====
-- `seedDevUsers` of backend/cmd/server/main.go: each user with the moment at which it is made.
use nexus_cloud_identity_acc.Common.{String, Option, none, some, List, [], ◌∷◌, false}
use nexus_cloud_identity_acc.Types.{Role, admin, developer, viewer, security_manager, active}
use nexus_cloud_identity_acc.Backend.Accounts.{Account, MemoryUserStore, create_user}
use nexus_cloud_identity_acc.Backend.Accounts.Service.{Bcrypt, Moment}

pub record SeedUser : Type 0 where
  pub username : String
  pub password : String
  pub role : Role

abbrev pub admin_seed : SeedUser
admin_seed = record { username = "admin"; password = "AdminPassword123!"; role = admin }

abbrev pub developer_seed : SeedUser
developer_seed = record { username = "developer"; password = "DevPassword123!"; role = developer }

abbrev pub viewer_seed : SeedUser
viewer_seed = record { username = "viewer"; password = "ViewerPassword123!"; role = viewer }

abbrev pub secmgr_seed : SeedUser
secmgr_seed = record { username = "secmgr"; password = "SecPassword123!"; role = security_manager }

abbrev pub seeds : List SeedUser
seeds = admin_seed ∷ developer_seed ∷ viewer_seed ∷ secmgr_seed ∷ []

abbrev pub seed_account : (hash : String) → SeedUser → Account
seed_account hash seed = record {
  id = "";
  username = seed.username;
  password_hash = hash;
  role = seed.role;
  organization_id = "";
  status = active;
  mfa_secret = "";
  mfa_enabled = false;
  created_at = 0;
  updated_at = 0;
}

-- a round of the loop; an error is only logged
abbrev pub seeded : Moment → SeedUser → Option String → MemoryUserStore → MemoryUserStore
seeded m seed none s = s
seeded m seed (some hash) s = (create_user m.user_id m.now (seed_account hash seed) s).1

abbrev pub seed_user : Bcrypt → Moment → SeedUser → MemoryUserStore → MemoryUserStore
seed_user b m seed s = seeded m seed (b.generate m.salt seed.password) s

abbrev pub seed_users :
    Bcrypt → (SeedUser → Moment) → List SeedUser → MemoryUserStore → MemoryUserStore
seed_users b moments [] s = s
seed_users b moments (seed ∷ rest) s = seed_users b moments rest (seed_user b (moments seed) seed s)
