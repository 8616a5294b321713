-- ===== src/Backend/Accounts/Kept.antt =====
-- What each handler keeps of the accounts.
use nexus_cloud_identity_acc.Common.{
  ℕ, String, Bool, true, false, Option, none, some, List, ◌==◌, ◌≡◌, refl, ap, sym, ◌∙◌, if_rule,
  ltb, Bool-cases, Option-cases, inl, inr,
}
use nexus_cloud_identity_acc.Common.Maps.{lookup, lookup-put}
use nexus_cloud_identity_acc.Types.{active, Role}
use nexus_cloud_identity_acc.Backend.AuditLog.{Event}
use nexus_cloud_identity_acc.Backend.Bearer.{trim_space}
use nexus_cloud_identity_acc.Backend.Accounts.{
  Account, Answer, invalid_credentials, failed, found, MemoryUserStore, stamped, create_user,
  stored,
}
use nexus_cloud_identity_acc.Backend.Accounts.Service
use nexus_cloud_identity_acc.Backend.Accounts.Service.{
  Bcrypt, Moment, with_role, hashed, new_account, utf8_length,
}
use nexus_cloud_identity_acc.Backend.Accounts.Handlers.{
  Server, LoginRequest, RegisterRequest, logged_in, registered,
}
use nexus_cloud_identity_acc.Backend.Accounts.NewAccount.{same_id}
use nexus_cloud_identity_acc.Backend.Accounts.Mfa.{verified}
use nexus_cloud_identity_acc.Backend.Accounts.Seed.{SeedUser, seeded, seed_account}
use nexus_cloud_identity_acc.Backend.Accounts.Consistent.{
  id_for, Consistent, create_user-Consistent,
}

-- The maps agree, and every account is active, with no second factor.
pub record Inv (s : MemoryUserStore) : Type 0 where
  pub consistent : Consistent s
  pub plain :
      (id : String) (u : Account)
      → lookup id s.by_id ≡ some u
      → (u.status ≡ active) × (u.mfa_enabled ≡ false)

abbrev Plain : Account → Type 0
Plain u = (u.status ≡ active) × (u.mfa_enabled ≡ false)

pub stored-Plain :
    (u : Account) (s : MemoryUserStore)
    → Inv s
    → Plain u
    → (k : String) (v : Account) → lookup k (stored u s).by_id ≡ some v
    → Plain v
stored-Plain u s inv p k v h = elim (Bool-cases (u.id == k)) [
  | inl same ↦
      let e : some u ≡ some v = rw (lookup-put u.id k u s.by_id, same) at h in
      let q : u ≡ v = cc e in
      (ap (λ w. w.status) (sym q) ∙ p.0, ap (λ w. w.mfa_enabled) (sym q) ∙ p.1)
  | inr apart ↦ inv.plain k v (rw (lookup-put u.id k u s.by_id, apart) at h)
]

pub create_user-Inv :
    (id : String) (now : ℕ) (u : Account) (s : MemoryUserStore)
    → Plain u
    → lookup (id_for id u) s.by_id ≡ none
    → Inv s
    → Inv (create_user id now u s).1
unfolding create_user
create_user-Inv id now u s p fresh inv = record {
  consistent = create_user-Consistent id now u s inv.consistent fresh;
  plain = elim (Option-cases (lookup u.username s.by_username)) [
    | inl free ↦ rw (free, create_user) (stored-Plain (stamped id now u) s inv p)
    | inr (v, taken) ↦ rw (taken, create_user) inv.plain
  ];
}

pub seeded-Inv :
    (m : Moment) (seed : SeedUser) (o : Option String) (s : MemoryUserStore)
    → lookup m.user_id s.by_id ≡ none
    → Inv s
    → Inv (seeded m seed o s)
seeded-Inv m seed none s fresh inv = inv
seeded-Inv m seed (some hash) s fresh inv =
    create_user-Inv m.user_id m.now (seed_account hash seed) s (refl, refl) fresh inv

pub hashed-Inv :
    (m : Moment) (username : String) (r : Role) (o : Option String) (s : MemoryUserStore)
    → lookup m.user_id s.by_id ≡ none
    → Inv s
    → Inv (hashed m username r o s).1
hashed-Inv m username r none s fresh inv = inv
hashed-Inv m username r (some hash) s fresh inv =
    create_user-Inv m.user_id m.now (new_account m username hash r) s (refl, refl)
      (rw (same_id m.user_id) fresh) inv

pub register-Inv :
    (b : Bcrypt) (m : Moment) (username password : String) (role : Option Role)
    (s : MemoryUserStore)
    → lookup m.user_id s.by_id ≡ none
    → Inv s
    → Inv (Service.register b m username password role s).1
unfolding Service.register
register-Inv b m username password role s fresh inv =
    if_rule kept (ltb (utf8_length (trim_space username)) 3) inv (
      if_rule kept (ltb 50 (utf8_length (trim_space username))) inv
        (if_rule kept (ltb (utf8_length password) 8) inv (by_role role)))
  where
    kept : Answer Account × MemoryUserStore → Type 0
    kept x = Inv x.1

    by_role : (o : Option Role) → Inv (with_role b m (trim_space username) password o s).1
    by_role none = inv
    by_role (some r) = hashed-Inv m (trim_space username) r (b.generate m.salt password) s fresh inv

pub registered-store :
    (print_time : ℕ → String) (m : Moment) (req : RegisterRequest)
    (x : Answer Account × MemoryUserStore) (log : List Event)
    → (registered print_time m req x log).1.store ≡ x.1
registered-store print_time m req (failed e, store) log = refl
registered-store print_time m req (found u, store) log = refl

pub logged_in-store :
    (m : Moment) (req : LoginRequest) (x : Answer (String × Account)) (s : Server)
    → (logged_in m req x s).1.store ≡ s.store
logged_in-store m req (failed (invalid_credentials why)) s = refl
logged_in-store m req (failed _) s = refl
logged_in-store m req (found (t, u)) s = refl

pub verified-store :
    (m : Moment) (u : Account) (o : Option Bool) (s : Server) → (verified m u o s).1.store ≡ s.store
verified-store m u none s = refl
verified-store m u (some false) s = refl
verified-store m u (some true) s = refl
