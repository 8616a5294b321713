-- ===== src/Types/Roles.antt =====
-- The strings of the union type `Role` tell its members apart.
use mathlib.Core.List.{Memᴰ}
use nexus_cloud_identity_acc.Common.{
  String, true, Option, none, some, List, [], ◌∷◌, ◌≡◌, refl, sym, ap, ◌∙◌, ◌↔◌, inl, inr, ◌==◌,
  eq_iff, includes, map, if◌then◌else◌, Bool-cases,
}
use nexus_cloud_identity_acc.Types.{
  Role, super_admin, admin, security_manager, developer, analyst, viewer, user, role_name,
}

-- the member that a string stands for
role_of : String → Option Role
role_of s =
    if s == "super_admin"
    then some super_admin
    else if s == "admin"
    then some admin
    else if s == "security_manager"
    then some security_manager
    else if s == "developer"
    then some developer
    else if s == "analyst"
    then some analyst
    else if s == "viewer"
    then some viewer
    else if s == "user"
    then some user
    else none

role_of-role_name : (r : Role) → role_of (role_name r) ≡ some r
unfolding role_of
role_of-role_name super_admin = refl
role_of-role_name _ = refl

some_inj : {A : Type 0} {a b : A} → some a ≡ some b → a ≡ b
some_inj e = cc

pub role_name_inj : (a b : Role) → role_name a ≡ role_name b → a ≡ b
role_name_inj a b e = some_inj (sym (role_of-role_name a) ∙ (ap role_of e ∙ role_of-role_name b))

-- `a === b` on two roles
pub role_eq_iff : (a b : Role) → ((role_name a == role_name b) ≡ true) ↔ (a ≡ b)
role_eq_iff a b = (λ h. role_name_inj a b ((eq_iff _ _).0 h), λ e. (eq_iff _ _).1 (ap role_name e))

includes_sound :
    (r : Role) (roles : List Role)
    → includes (map role_name roles) (role_name r) ≡ true
    → Memᴰ r roles
includes_sound r [] h = cc
includes_sound r (q ∷ roles) h = elim (Bool-cases (role_name q == role_name r)) [
  | inl same ↦ Memᴰ.head (sym ((role_eq_iff q r).0 same))
  | inr other ↦ Memᴰ.tail (includes_sound r roles (rw other at h))
]

includes_complete :
    (r : Role) (roles : List Role)
    → Memᴰ r roles
    → includes (map role_name roles) (role_name r) ≡ true
includes_complete r [] m = elim m [ ]
includes_complete r (q ∷ roles) (Memᴰ.head e) = rw ((role_eq_iff q r).1 (sym e)) refl
includes_complete r (q ∷ roles) (Memᴰ.tail m) = elim (Bool-cases (role_name q == role_name r)) [
  | inl same ↦ rw same refl
  | inr other ↦ rw other (includes_complete r roles m)
]

-- `roles.includes(r)`
pub includes_iff :
    (r : Role) (roles : List Role)
    → (includes (map role_name roles) (role_name r) ≡ true) ↔ Memᴰ r roles
includes_iff r roles = (includes_sound r roles, includes_complete r roles)
