-- ===== src/Backend/Postgres/Creation.antt =====
-- The database and the in-memory store answer alike.

use mathlib.Core.Option
use nexus_cloud_identity_acc.Common.{
  ℕ, String, Bool, true, false, Option, none, some, List, [], ◌∷◌, ◌==◌, any, find, if◌then◌else◌,
  ◌≡◌, refl, ap, ◌∙◌, arith, Bool-cases, Option-cases, inl, inr, is_some,
}
use nexus_cloud_identity_acc.Common.Maps.{lookup, lookup-put}
use nexus_cloud_identity_acc.Backend.Accounts.{
  Account, Answer, failed, found, MemoryUserStore, stamped, stored, user_not_found,
  user_already_exists,
}
use nexus_cloud_identity_acc.Backend.Accounts
use nexus_cloud_identity_acc.Backend.Accounts.Consistent.{id_for}
use nexus_cloud_identity_acc.Backend.Postgres.Fitting.{
  kept_instants, CanHold, kept_row, as_kept-row_of, account_of-kept_row,
}
use nexus_cloud_identity_acc.Backend.Postgres.{
  UserRow, Database, row_of, constrained, insert_row, create_user, done, unique_violation, selected,
}

-- the answer for what the in-memory store finds
abbrev pub answer_of : Option Account → Answer Account
answer_of none = failed user_not_found
answer_of (some u) = found u

-- Every name and every id leads to the same account in both, but for the precision of its instants.
pub record Agrees (rounded : ℕ → ℕ) (db : Database) (s : MemoryUserStore) : Type 0 where
  pub by_name :
      (k : String)
      → selected (find (λ q. q.username == k) db.users)
        ≡ answer_of (Option.map (kept_instants rounded) (Accounts.get_user_by_username k s))
  pub by_identity :
      (k : String)
      → selected (find (λ q. q.id == k) db.users)
        ≡ answer_of (Option.map (kept_instants rounded) (Accounts.get_user_by_id k s))

any-find : (p : UserRow → Bool) (rows : List UserRow) → any p rows ≡ is_some (find p rows)
any-find p [] = refl
any-find p (r ∷ rows) = ground (arith, any-find p rows)

is_some-map : (f : Account → Account) (o : Option Account) → is_some (Option.map f o) ≡ is_some o
is_some-map f none = refl
is_some-map f (some u) = refl

-- whether a key is found, from what the answer is
found_iff :
    (o : Option UserRow) (v : Option Account) → selected o ≡ answer_of v → is_some o ≡ is_some v
found_iff none none h = refl
found_iff none (some u) h = cc
found_iff (some r) none h = cc
found_iff (some r) (some u) h = refl

module _ {rounded : ℕ → ℕ} {db : Database} {s : MemoryUserStore} (a : Agrees rounded db s) where
  names_taken :
      (k : String) → any (λ q. q.username == k) db.users ≡ is_some (lookup k s.by_username)
  unfolding Accounts.get_user_by_username
  names_taken k =
      any-find (λ q. q.username == k) db.users
      ∙ found_iff (find (λ q. q.username == k) db.users) _ (a.by_name k)
      ∙ is_some-map (kept_instants rounded) (lookup k s.by_username)

  ids_taken : (k : String) → any (λ q. q.id == k) db.users ≡ is_some (lookup k s.by_id)
  unfolding Accounts.get_user_by_id
  ids_taken k =
      any-find (λ q. q.id == k) db.users
      ∙ found_iff (find (λ q. q.id == k) db.users) _ (a.by_identity k)
      ∙ is_some-map (kept_instants rounded) (lookup k s.by_id)

  -- a row in front of the table, and an account put into the maps
  answer-cons :
      (v : Account) (test : Bool) (o : Option UserRow) (w : Option Account)
      → selected o ≡ answer_of (Option.map (kept_instants rounded) w)
      → selected (if test then some (kept_row rounded v) else o)
        ≡ answer_of (Option.map (kept_instants rounded) (if test then some v else w))
  answer-cons v true o w h = ap found (account_of-kept_row rounded v)
  answer-cons v false o w h = h

  stored-Agrees :
      (v : Account)
      → Agrees rounded (record db { users = kept_row rounded v ∷ db.users }) (stored v s)
  unfolding Accounts.get_user_by_username Accounts.get_user_by_id
  stored-Agrees v = record {
    by_name = λ k.
        rw (lookup-put v.username k v s.by_username)
          (answer-cons v (v.username == k) _ _ (a.by_name k));
    by_identity =
        λ k. rw (lookup-put v.id k v s.by_id) (answer-cons v (v.id == k) _ _ (a.by_identity k));
  }

  kept_as :
      (v : Account)
      → CanHold db.organizations v
      → insert_row rounded (row_of v) db ≡ constrained (kept_row rounded v) db
  unfolding insert_row
  kept_as v room =
      let (takes, same) = as_kept-row_of rounded db.organizations v room in
      rw (room.0, takes) (ap (λ r. constrained r db) same)

  inserted :
      (v : Account)
      → CanHold db.organizations v
      → lookup v.id s.by_id ≡ none
      → lookup v.username s.by_username ≡ none
      → insert_row rounded (row_of v) db
        ≡ done (record db { users = kept_row rounded v ∷ db.users })
  inserted v room new_id new_name =
      let (_, _, _, _, _, _, known) = room in
      kept_as v room ∙ rw (ids_taken v.id, names_taken v.username, new_id, new_name, known) refl

  refused :
      (v u : Account)
      → CanHold db.organizations v
      → lookup v.username s.by_username ≡ some u
      → insert_row rounded (row_of v) db ≡ unique_violation
  refused v u room taken =
      kept_as v room
      ∙ rw (ids_taken v.id, names_taken v.username, taken)
          (elim (Bool-cases (is_some (lookup v.id s.by_id))) [
            | inl h ↦ rw h refl
            | inr h ↦ rw h refl
          ])

  pub create_user-Agrees :
      (id : String) (now : ℕ) (u : Account)
      → CanHold db.organizations (stamped id now u)
      → lookup (id_for id u) s.by_id ≡ none
      → let x = create_user rounded true id now u db in
        let y = Accounts.create_user id now u s in
        (x.0 ≡ y.0) × Agrees rounded x.1 y.1 × (x.1.organizations ≡ db.organizations)
  unfolding create_user Accounts.create_user
  create_user-Agrees id now u room new_id = elim (Option-cases (lookup u.username s.by_username)) [
    | inl free ↦
        rw (inserted (stamped id now u) room new_id free, free, create_user, Accounts.create_user)
          (refl, stored-Agrees (stamped id now u), refl)
    | inr (v, taken) ↦
        rw (refused (stamped id now u) v room taken, taken, create_user, Accounts.create_user)
          (refl, a, refl)
  ]

-- The empty table and the empty store.
pub empty-Agrees :
    (rounded : ℕ → ℕ) (organizations : List String)
    → Agrees rounded
        (record { users = []; organizations = organizations })
        Accounts.new_memory_user_store
unfolding Accounts.get_user_by_username Accounts.get_user_by_id lookup
empty-Agrees rounded organizations = record { by_name = λ k. refl; by_identity = λ k. refl }
