-- ===== src/Pages/Settings.antt =====
-- frontend/src/pages/SettingsPage.tsx: the token inspector. `atob` with `JSON.parse` is a parameter,
-- none where either throws, and so is the indented `JSON.stringify`.
pub mod Inspector
pub mod Screen
use Prim.Native.Char.{code}
use Prim.Native.String
use nexus_cloud_identity_acc.Common.{
  String, Bool, true, Option, none, some, List, [], ◌∷◌, nat_eq, truthy, or_else, push_front,
  if◌then◌else◌,
}
use nexus_cloud_identity_acc.Types.{role_name, status_name, User}

-- `s.split('.')`
unfoldable pub split_dots : String → List String
split_dots String.[] = "" ∷ []
split_dots (String.◌∷◌ c s) =
    let parts = split_dots s in if nat_eq (code c) b'.' then "" ∷ parts else push_front c parts

module _ {Claims : Type 0} (decode : String → Option Claims) where
  abbrev payload_part : List String → Option Claims
  payload_part (a ∷ b ∷ c ∷ []) = decode b
  payload_part _ = none

  unfoldable pub decoded_payload : Option String → Option Claims
  unfolding split_dots
  decoded_payload token =
      if truthy token then payload_part (split_dots (or_else token "")) else none

  unfoldable pub inspector : (Claims → String) → Option String → String × String
  unfolding decoded_payload
  inspector pretty token = (
    elim (decoded_payload token) [ none ↦ "No token present" | some claims ↦ pretty claims ],
    if truthy token then or_else token "" else "No active token",
  )

pub record Profile : Type 0 where
  pub username : String
  pub role : String
  pub status : String
  pub mfa : String
  pub id : String

-- the identity card; nothing stands in the fields without a user
unfoldable pub profile_card : Option User → Option Profile
profile_card none = none
profile_card (some u) = some (record {
  username = u.username;
  role = role_name u.role;
  status = status_name u.status;
  mfa = if u.mfa_enabled then "Enforced" else "Optional";
  id = u.id;
})
