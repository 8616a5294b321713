-- ===== src/Backend/Accounts/Updated.antt =====
-- `UpdateUser` of backend/internal/auth/store.go: when the two maps still agree after it.
use nexus_cloud_identity_acc.Common.{
  ℕ, String, true, false, Option, none, some, List, ◌==◌, ◌≡◌, refl, ap, sym, ◌∙◌, ◌↔◌,
  if◌then◌else◌, eq_iff, Bool-cases, Option-cases, inl, inr, arith, ◌≢◌, eq_refl, is_some,
}
use nexus_cloud_identity_acc.Common.Maps.{lookup, put, remove, lookup-put, lookup-remove}
use nexus_cloud_identity_acc.Backend.Accounts.{Account, MemoryUserStore, stored, update_user}
use nexus_cloud_identity_acc.Backend.Accounts.Consistent.{Mirrors, Consistent}

-- no other account has the name of this one
abbrev pub OwnName : Account → MemoryUserStore → Type 0
OwnName u s = (v : Account) → lookup u.username s.by_username ≡ some v → v.id ≡ u.id

abbrev after : (now : ℕ) → Account → MemoryUserStore → Account → MemoryUserStore
after now u s existing =
    let kept = stored (record u { updated_at = now }) s in
    if existing.username == u.username
    then kept
    else record kept { by_username = remove existing.username kept.by_username }

module _ {A : Type 0} (e n k : String) (x y : Option A) where
  kept_name :
      (e == n) ≡ true
      → (if n == k then x else y) ≡ (if n == k then x else (if e == k then none else y))
  kept_name h = ground (arith, eq_iff e n, eq_iff e k, eq_iff n k)

  old_name :
      (e == n) ≡ false
      → (if e == k then none else (if n == k then x else y))
        ≡ (if n == k then x else (if e == k then none else y))
  old_name h = ground (arith, eq_iff e n, eq_iff e k, eq_iff n k)

-- what the maps lead to after the update
module _ (now : ℕ) (u : Account) (s : MemoryUserStore) (existing : Account) where
  by_id-after :
      (k : String)
      → lookup k (after now u s existing).by_id
        ≡ (if u.id == k then some (record u { updated_at = now }) else lookup k s.by_id)
  by_id-after k = elim (Bool-cases (existing.username == u.username)) [
    | inl h ↦ rw h (lookup-put u.id k (record u { updated_at = now }) s.by_id)
    | inr h ↦ rw h (lookup-put u.id k (record u { updated_at = now }) s.by_id)
  ]

  by_username-after :
      (k : String)
      → lookup k (after now u s existing).by_username ≡ (
          if u.username == k
          then some (record u { updated_at = now })
          else (if existing.username == k then none else lookup k s.by_username))
  by_username-after k =
      let u' = record u { updated_at = now } in
      elim (Bool-cases (existing.username == u.username)) [
        | inl h ↦ rw h (
            lookup-put u.username k u' s.by_username
            ∙ kept_name existing.username u.username k (some u') (lookup k s.by_username) h)
        | inr h ↦ rw h (
            lookup-remove existing.username k (put u.username u' s.by_username)
            ∙ ap (λ x. if existing.username == k then none else x)
                (lookup-put u.username k u' s.by_username)
            ∙ old_name existing.username u.username k (some u') (lookup k s.by_username) h)
      ]

-- what a map leads to after an account has taken the place of another
abbrev replaced :
    (own : Account → String) (u e : Account) → List (String × Account) → String → Option Account
replaced own u e m k = if own u == k then some u else (if own e == k then none else lookup k m)

module _ (own other : Account → String) (m n m' n' : List (String × Account)) (u e : Account)
    (in_m : (k : String) → lookup k m' ≡ replaced own u e m k)
    (in_n : (k : String) → lookup k n' ≡ replaced other u e n k)
    (there : lookup (other e) n ≡ some e)
    (free : (v : Account) → lookup (other u) n ≡ some v → v ≡ e) where
  new_entry :
      (k : String) (v : Account) → own u ≡ k → u ≡ v → (own v ≡ k) × (lookup (other v) n' ≡ some v)
  new_entry k v a q = (ap own (sym q) ∙ a, rw (← q) (in_n (other u) ∙ rw (eq_refl (other u)) refl))

  old_entry : (v : Account) → v ≢ e → lookup (other v) n ≡ some v → lookup (other v) n' ≡ some v
  old_entry v apart kept = elim (Bool-cases (other u == other v)) [
    | inl a ↦
        let h = (eq_iff (other u) (other v)).0 a in
        elim (apart (free v (ap (λ x. lookup x n) h ∙ kept))) [ ]
    | inr a ↦ elim (Bool-cases (other e == other v)) [
      | inl b ↦
          let h = (eq_iff (other e) (other v)).0 b in
          let q : some e ≡ some v = sym there ∙ ap (λ x. lookup x n) h ∙ kept in
          elim (apart (let p : e ≡ v = cc q in sym p)) [ ]
      | inr b ↦ rw (in_n (other v), a, b) kept
    ]
  ]

  replaced-Mirrors : Mirrors own other m n → Mirrors own other m' n'
  replaced-Mirrors c k v h = elim (Bool-cases (own u == k)) [
    | inl a ↦
        let q : some u ≡ some v = rw (in_m k, a) at h in
        new_entry k v ((eq_iff (own u) k).0 a) (cc q)
    | inr a ↦ elim (Bool-cases (own e == k)) [
      | inl b ↦ let q : none ≡ some v = rw (in_m k, a, b) at h in cc q
      | inr b ↦
          let (kept, old) = c k v (rw (in_m k, a, b) at h) in
          let apart : v ≢ e =
            λ q. let g = (eq_iff (own e) k).1 (ap own (sym q) ∙ kept) in cc (g, b) in
          (kept, old_entry v apart old)
    ]
  ]

module _ (now : ℕ) (u : Account) (s : MemoryUserStore) (existing : Account) (c : Consistent s)
    (there : lookup u.id s.by_id ≡ some existing) where
  same_id : existing.id ≡ u.id
  same_id = (c.by_identity u.id existing there).0

  at_name : lookup existing.username s.by_username ≡ some existing
  at_name = (c.by_identity u.id existing there).1

  at_id : lookup existing.id s.by_id ≡ some existing
  at_id = ap (λ x. lookup x s.by_id) same_id ∙ there

  is_existing : (v : Account) → some existing ≡ some v → v ≡ existing
  is_existing v q = let p : existing ≡ v = cc q in sym p

  by_id-replaced :
      (k : String)
      → lookup k (after now u s existing).by_id
        ≡ replaced (λ v. v.id) (record u { updated_at = now }) existing s.by_id k
  by_id-replaced k = elim (Bool-cases (u.id == k)) [
    | inl h ↦ rw (by_id-after now u s existing k, h) refl
    | inr h ↦ rw (by_id-after now u s existing k, same_id, h) refl
  ]

  after-Consistent : OwnName u s → Consistent (after now u s existing)
  after-Consistent own = record {
    by_name =
        replaced-Mirrors (λ v. v.username) (λ v. v.id) s.by_username s.by_id _ _
          (record u { updated_at = now }) existing (by_username-after now u s existing)
          by_id-replaced at_id (λ v h. is_existing v (sym there ∙ h)) c.by_name;
    by_identity =
        replaced-Mirrors (λ v. v.id) (λ v. v.username) s.by_id s.by_username _ _
          (record u { updated_at = now }) existing by_id-replaced
          (by_username-after now u s existing) at_name
          (λ v h.
            is_existing v (
              sym there
              ∙ ap (λ x. lookup x s.by_id) (sym (own v h))
              ∙ (c.by_name u.username v h).1))
          c.by_identity;
  }

  own_name : Consistent (after now u s existing) → OwnName u s
  own_name c' v h = elim (Bool-cases (u.id == v.id)) [
    | inl same ↦ sym ((eq_iff u.id v.id).0 same)
    | inr apart ↦
        let (name, kept) = c.by_name u.username v h in
        let in_ids : lookup v.id (after now u s existing).by_id ≡ some v =
          rw (by_id-after now u s existing v.id, apart) kept in
        let in_names = (c'.by_identity v.id v in_ids).1 in
        let found : some (record u { updated_at = now }) ≡ some v =
          rw
            (
              by_username-after now u s existing v.username,
              (eq_iff u.username v.username).1 (sym name),
            )
            at in_names in
        let same : record u { updated_at = now } ≡ v = cc found in ap (λ w. w.id) (sym same)
  ]

-- `new` is the account as it is kept.
abbrev pub Updated : (u new : Account) → MemoryUserStore → Option MemoryUserStore → Type 0
Updated u new s none = lookup u.id s.by_id ≡ none
Updated u new s (some s') =
    (is_some (lookup u.id s.by_id) ≡ true)
    × (lookup u.id s'.by_id ≡ some new)
    × (Consistent s' ↔ OwnName u s)

-- Updating an account of a store whose maps agree fails exactly when no account has its id; else the id
-- leads to the account afterwards, with the time of the update, and the maps agree exactly when its
-- name is not the name of another account, which is not checked.
pub update_user-Updated :
    (now : ℕ) (u : Account) (s : MemoryUserStore)
    → Consistent s
    → Updated u (record u { updated_at = now }) s (update_user now u s)
unfolding update_user
update_user-Updated now u s c = elim (Option-cases (lookup u.id s.by_id)) [
  | inl missing ↦ rw (missing, update_user) missing
  | inr (existing, there) ↦
      rw (there, update_user)
        (
          ap is_some there,
          by_id-after now u s existing u.id ∙ rw (eq_refl u.id) refl,
          (own_name now u s existing c there, after-Consistent now u s existing c there),
        )
]
