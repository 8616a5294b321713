-- ===== src/Backend/Accounts/Demo.antt =====
-- The demonstration accounts of the sign-in page on a server that was seeded.
use mathlib.Core.List.{Memᴰ}
use nexus_cloud_identity_acc.Common.{All, String, some, [], ◌∷◌, ◌≡◌, refl}
use nexus_cloud_identity_acc.Common.Maps.{lookup, put}
use nexus_cloud_identity_acc.Backend.Accounts.{
  Account, stamped, new_memory_user_store, create_user, get_user_by_username,
}
use nexus_cloud_identity_acc.Backend.Accounts.Service.{Bcrypt, BcryptLaws, Moment}
use nexus_cloud_identity_acc.Backend.Accounts.Seed.{
  SeedUser, seeds, seed_users, seed_account, admin_seed, developer_seed, viewer_seed, secmgr_seed,
}
use nexus_cloud_identity_acc.Backend.Accounts.SignIn.{Accepts}
use nexus_cloud_identity_acc.Pages.SignIn.{DemoAccount, demo_accounts}

module _ (b : Bcrypt) (laws : BcryptLaws b) (moments : SeedUser → Moment)
    (hash_of : SeedUser → String)
    (hashed : All
      (λ seed. b.generate (moments seed).salt seed.password ≡ some (hash_of seed))
      seeds) where
  abbrev seed_stored : SeedUser → Account
  seed_stored seed =
      stamped (moments seed).user_id (moments seed).now (seed_account (hash_of seed) seed)

  -- the four rounds of the loop
  seeded_names :
      (name : String)
      → get_user_by_username name (seed_users b moments seeds new_memory_user_store)
        ≡ lookup name (
            ("admin", seed_stored admin_seed)
            ∷ ("developer", seed_stored developer_seed)
            ∷ ("viewer", seed_stored viewer_seed)
            ∷ ("secmgr", seed_stored secmgr_seed)
            ∷ [])
  unfolding create_user get_user_by_username lookup put
  seeded_names name =
      let (first, (second, (third, (fourth, _)))) = hashed in rw (first, second, third, fourth) refl

  seed-Accepts :
      (seed : SeedUser)
      → b.generate (moments seed).salt seed.password ≡ some (hash_of seed)
      → get_user_by_username seed.username (seed_users b moments seeds new_memory_user_store)
        ≡ some (seed_stored seed)
      → Accepts b seed.username seed.password
          (seed_users b moments seeds new_memory_user_store)
          (seed_stored seed)
  seed-Accepts seed made named = record {
    named = named;
    matches = laws.compare-generate (moments seed).salt seed.password (hash_of seed) made;
    is_active = refl;
  }

  -- Where the passwords of the four seeded users can be hashed, each demonstration account that the
  -- sign-in page offers is an active account of a freshly seeded server, with the password that the page
  -- fills in.
  pub demo_account-Accepts :
      (d : DemoAccount)
      → Memᴰ d demo_accounts
      → (u : Account) × Accepts b d.username d.password
          (seed_users b moments seeds new_memory_user_store)
          u
  unfolding lookup
  demo_account-Accepts d (Memᴰ.head e) =
      rw e (_, seed-Accepts admin_seed hashed.0 (seeded_names "admin"))
  demo_account-Accepts d (Memᴰ.tail (Memᴰ.head e)) =
      rw e (_, seed-Accepts developer_seed hashed.1.0 (seeded_names "developer"))
  demo_account-Accepts d (Memᴰ.tail (Memᴰ.tail (Memᴰ.head e))) =
      rw e (_, seed-Accepts secmgr_seed hashed.1.1.1.0 (seeded_names "secmgr"))
  demo_account-Accepts d (Memᴰ.tail (Memᴰ.tail (Memᴰ.tail (Memᴰ.head e)))) =
      rw e (_, seed-Accepts viewer_seed hashed.1.1.0 (seeded_names "viewer"))
  demo_account-Accepts d (Memᴰ.tail (Memᴰ.tail (Memᴰ.tail (Memᴰ.tail m)))) = elim m [ ]
