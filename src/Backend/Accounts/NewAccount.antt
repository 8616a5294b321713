-- ===== src/Backend/Accounts/NewAccount.antt =====
-- When `Register` makes an account, and which.
use nexus_cloud_identity_acc.Common.{
  ◌≤◌, String, Option, none, some, ◌==◌, ◌≡◌, refl, arith, Option-cases, inl, inr, eq_iff,
  if◌then◌else◌,
}
use nexus_cloud_identity_acc.Common.Maps.{lookup}
use nexus_cloud_identity_acc.Types.{Role}
use nexus_cloud_identity_acc.Backend.Bearer.{trim_space}
use nexus_cloud_identity_acc.Backend.Accounts.{
  Account, found, MemoryUserStore, create_user, stamped, stored,
}
use nexus_cloud_identity_acc.Backend.Accounts.Service
use nexus_cloud_identity_acc.Backend.Accounts.Service.{
  Bcrypt, Moment, new_account, hashed, utf8_length,
}

-- the account that a registration makes
abbrev pub registered_account : Moment → (username hash : String) → Role → Account
registered_account m username hash role = stamped m.user_id m.now (new_account m username hash role)

-- why a registration succeeded
pub record IsNew (b : Bcrypt) (m : Moment) (username password : String) (role : Role)
    (hash : String) (s : MemoryUserStore) : Type 0 where
  pub long_enough : 3 ≤ utf8_length (trim_space username)
  pub short_enough : utf8_length (trim_space username) ≤ 50
  pub strong : 8 ≤ utf8_length password
  pub hashes : b.generate m.salt password ≡ some hash
  pub free : lookup (trim_space username) s.by_username ≡ none

pub hashed-free :
    (m : Moment) (username hash : String) (r : Role) (s : MemoryUserStore)
    → lookup username s.by_username ≡ none
    → let u = registered_account m username hash r in
      hashed m username r (some hash) s ≡ (found u, stored u s)
unfolding create_user
hashed-free m username hash r s free = rw (free, create_user) refl

pub register-IsNew :
    (b : Bcrypt) (m : Moment) (username password : String) (r : Role) (hash : String)
    (s : MemoryUserStore)
    → IsNew b m username password r hash s
    → let u = registered_account m (trim_space username) hash r in
      Service.register b m username password (some r) s ≡ (found u, stored u s)
unfolding Service.register
register-IsNew b m username password r hash s new = rw (new.hashes) (
    ground (
      arith,
      hashed-free m (trim_space username) hash r s new.free,
      new.long_enough,
      new.short_enough,
      new.strong,
    ))

pub hashed_inv :
    (m : Moment) (username : String) (r : Role) (o : Option String) (u : Account)
    (s s' : MemoryUserStore)
    → hashed m username r o s ≡ (found u, s')
    → (hash : String) × (o ≡ some hash)
      × (lookup username s.by_username ≡ none)
      × (u ≡ registered_account m username hash r)
      × (s' ≡ stored u s)
unfolding create_user
hashed_inv m username r none u s s' h = cc h
hashed_inv m username r (some hash) u s s' h = elim (Option-cases (lookup username s.by_username)) [
  | inl free ↦ let k = rw (free, create_user) at h in (hash, refl, free, cc k, cc k)
  | inr (v, taken) ↦ cc (rw (taken, create_user) at h)
]

module _ (b : Bcrypt) (m : Moment) (username password : String) (u : Account)
    (s s' : MemoryUserStore) where
  pub register_inv :
      (role : Option Role)
      → Service.register b m username password role s ≡ (found u, s')
      → (r : Role) × (hash : String) × (role ≡ some r)
        × IsNew b m username password r hash s
        × (u ≡ registered_account m (trim_space username) hash r)
        × (s' ≡ stored u s)
  unfolding Service.register
  register_inv none h = let x : ⊥ = ground arith in elim x [ ]
  register_inv (some r) h =
      let low : 3 ≤ utf8_length (trim_space username) = ground arith in
      let high : utf8_length (trim_space username) ≤ 50 = ground arith in
      let strong : 8 ≤ utf8_length password = ground arith in
      let rest : hashed m (trim_space username) r (b.generate m.salt password) s ≡ (found u, s') =
        ground arith in
      let (hash, made, free, same, kept) =
        hashed_inv m (trim_space username) r (b.generate m.salt password) u s s' rest in
      (
        r,
        hash,
        refl,
        record {
          long_enough = low;
          short_enough = high;
          strong = strong;
          hashes = made;
          free = free;
        },
        same,
        kept,
      )

pub same_id : (id : String) → (if id == "" then id else id) ≡ id
same_id id = ground (arith, eq_iff id "")
