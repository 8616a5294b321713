-- ===== src/Backend/Postgres/Fitting.antt =====
-- Accounts whose texts fit the columns of the table `users`: the rows that it keeps of them.

use nexus_cloud_identity_acc.Common.{
  ◌≤◌, ℕ, String, true, some, List, ◌==◌, ◌≡◌, refl, ap, sym, eq_iff, arith, Bool-cases, inl, inr,
}
use nexus_cloud_identity_acc.Types.{Role}
use nexus_cloud_identity_acc.Backend.Accounts.{Account}
use nexus_cloud_identity_acc.Backend.Accounts.Service.{Moment, utf8_length, new_account}
use nexus_cloud_identity_acc.Backend.Postgres.Columns.{
  char_length, has_no_null, takes_optional, cut_optional, takes_short, cut_short,
}
use nexus_cloud_identity_acc.Backend.Postgres.{
  UserRow, row_of, account_of, null_if_empty, has_no_nulls, takes_row, as_kept, is_referenced,
}

-- an account with its instants as the columns keep them
abbrev pub kept_instants : (rounded : ℕ → ℕ) → Account → Account
kept_instants rounded u = record u {
  created_at = rounded u.created_at;
  updated_at = rounded u.updated_at;
}

-- The database can take the account as it is: no text has a character of code 0 or is longer than its
-- column, and its organization is known.
abbrev pub CanHold : (organizations : List String) → Account → Type 0
CanHold organizations u =
    (has_no_nulls (row_of u) ≡ true)
    × (char_length u.id ≤ 64)
    × (char_length u.username ≤ 64)
    × (char_length u.password_hash ≤ 255)
    × (char_length u.organization_id ≤ 64)
    × (char_length u.mfa_secret ≤ 64)
    × (is_referenced organizations (row_of u).organization_id ≡ true)

-- the row of an account that fits
abbrev pub kept_row : (rounded : ℕ → ℕ) → Account → UserRow
kept_row rounded u = record (row_of u) {
  created_at = rounded u.created_at;
  updated_at = rounded u.updated_at;
}

organization_short :
    (o : String)
    → char_length o ≤ 64
    → (takes_optional 64 (null_if_empty o) ≡ true)
      × (cut_optional 64 (null_if_empty o) ≡ null_if_empty o)
organization_short o h = elim (Bool-cases (o == "")) [
  | inl e ↦ rw e (refl, refl)
  | inr e ↦ rw e (takes_short 64 o h, ap some (cut_short 64 o h))
]

pub as_kept-row_of :
    (rounded : ℕ → ℕ) (organizations : List String) (u : Account)
    → CanHold organizations u
    → (takes_row (row_of u) ≡ true) × (as_kept rounded (row_of u) ≡ kept_row rounded u)
as_kept-row_of rounded organizations u (texts, id, name, hash, org, mfa, known) =
    let (takes_org, cut_org) = organization_short u.organization_id org in
    (
      rw
          (
            takes_short 64 u.id id,
            takes_short 64 u.username name,
            takes_short 255 u.password_hash hash,
            takes_org,
            takes_short 64 u.mfa_secret mfa,
          )
          refl,
      λ k. record (kept_row rounded u) {
        id = cut_short 64 u.id id k;
        username = cut_short 64 u.username name k;
        password_hash = cut_short 255 u.password_hash hash k;
        organization_id = cut_org k;
        mfa_secret = some (cut_short 64 u.mfa_secret mfa k);
      },
    )

pub account_of-kept_row :
    (rounded : ℕ → ℕ) (u : Account) → account_of (kept_row rounded u) ≡ kept_instants rounded u
account_of-kept_row rounded u = elim (Bool-cases (u.organization_id == "")) [
  | inl h ↦ rw h (
      ap (λ o. record (kept_instants rounded u) { organization_id = o })
        (sym ((eq_iff u.organization_id "").0 h)))
  | inr h ↦ rw h refl
]

char_length_le : (s : String) → char_length s ≤ utf8_length s
unfolding char_length utf8_length
char_length_le String.[] = omega arith
char_length_le (String.◌∷◌ c s) = ground (arith, char_length_le s)

-- An account that `Register` makes fits where its id has at most 64 characters and its hash at most 255,
-- and no text has a character of code 0.
pub new_account-CanHold :
    (m : Moment) (username hash : String) (role : Role) (organizations : List String)
    → utf8_length username ≤ 50
    → char_length m.user_id ≤ 64
    → char_length hash ≤ 255
    → has_no_null username ≡ true
    → has_no_null m.user_id ≡ true
    → has_no_null hash ≡ true
    → CanHold organizations (new_account m username hash role)
unfolding char_length
new_account-CanHold m username hash role organizations named id hashed n i h = (
  rw (i, n, h) refl,
  id,
  omega (arith, char_length_le username),
  hashed,
  omega arith,
  omega arith,
  refl,
)
