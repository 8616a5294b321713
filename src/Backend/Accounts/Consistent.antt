-- ===== src/Backend/Accounts/Consistent.antt =====
-- The two maps of the store agree.
use nexus_cloud_identity_acc.Common.{
  ℕ, String, none, some, List, ◌==◌, ◌≡◌, ap, sym, ◌∙◌, if◌then◌else◌, eq_iff, Bool-cases,
  Option-cases, inl, inr,
}
use nexus_cloud_identity_acc.Common.Maps.{lookup, put, lookup-put, lookup-put_same}
use nexus_cloud_identity_acc.Backend.Accounts.{
  Account, MemoryUserStore, new_memory_user_store, stored, stamped, create_user,
}

-- A map holds accounts under one of their texts, and another map holds them too, under the other text.
abbrev pub Mirrors : (own other : Account → String) → (m n : List (String × Account)) → Type 0
Mirrors own other m n =
    (k : String) (u : Account) → lookup k m ≡ some u → (own u ≡ k) × (lookup (other u) n ≡ some u)

pub record Consistent (s : MemoryUserStore) : Type 0 where
  pub by_name : Mirrors (λ u. u.username) (λ u. u.id) s.by_username s.by_id
  pub by_identity : Mirrors (λ u. u.id) (λ u. u.username) s.by_id s.by_username

pub new_memory_user_store-Consistent : Consistent new_memory_user_store
unfolding lookup
new_memory_user_store-Consistent = record {
  by_name = λ name u h. cc h;
  by_identity = λ id u h. cc h;
}

module _ (own other : Account → String) (m n : List (String × Account)) (u : Account) where
  new_entry :
      (v : Account) (k : String)
      → own u ≡ k
      → u ≡ v
      → (own v ≡ k) × (lookup (other v) (put (other u) u n) ≡ some v)
  new_entry v k e q = (
    ap own (sym q) ∙ e,
    ap (λ w. lookup (other w) (put (other u) u n)) (sym q)
        ∙ lookup-put_same (other u) u n
        ∙ ap some q,
  )

  old_entry :
      (v : Account)
      → lookup (other u) n ≡ none
      → lookup (other v) n ≡ some v
      → lookup (other v) (put (other u) u n) ≡ some v
  old_entry v free there = elim (Bool-cases (other u == other v)) [
    | inl same ↦
        let e : other u ≡ other v = (eq_iff (other u) (other v)).0 same in cc (e, free, there)
    | inr apart ↦ rw (lookup-put (other u) (other v) u n, apart) there
  ]

  put-Mirrors :
      Mirrors own other m n
      → lookup (other u) n ≡ none
      → Mirrors own other (put (own u) u m) (put (other u) u n)
  put-Mirrors c free k v h = elim (Bool-cases (own u == k)) [
    | inl same ↦
        new_entry v k ((eq_iff (own u) k).0 same)
          (let e : some u ≡ some v = rw (lookup-put (own u) k u m, same) at h in cc e)
    | inr apart ↦
        let (kept, there) = c k v (rw (lookup-put (own u) k u m, apart) at h) in
        (kept, old_entry v free there)
  ]

stored-Consistent :
    (u : Account) (s : MemoryUserStore)
    → Consistent s
    → lookup u.id s.by_id ≡ none
    → lookup u.username s.by_username ≡ none
    → Consistent (stored u s)
stored-Consistent u s c new_id new_name = record {
  by_name = put-Mirrors (λ v. v.username) (λ v. v.id) s.by_username s.by_id u c.by_name new_id;
  by_identity =
      put-Mirrors (λ v. v.id) (λ v. v.username) s.by_id s.by_username u c.by_identity new_name;
}

-- the id that an account is stored under
abbrev pub id_for : (id : String) → Account → String
id_for id u = if u.id == "" then id else u.id

pub create_user-Consistent :
    (id : String) (now : ℕ) (u : Account) (s : MemoryUserStore)
    → Consistent s
    → lookup (id_for id u) s.by_id ≡ none
    → Consistent (create_user id now u s).1
unfolding create_user
create_user-Consistent id now u s c fresh = elim (Option-cases (lookup u.username s.by_username)) [
  | inl free ↦ rw (free, create_user) (stored-Consistent (stamped id now u) s c fresh free)
  | inr (v, taken) ↦ rw (taken, create_user) c
]
