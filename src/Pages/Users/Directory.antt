-- ===== src/Pages/Users/Directory.antt =====
-- What the directory lists and what a failed refresh leaves.
use mathlib.Core.Bool.{and-eq-true_iff}
use mathlib.Core.List.{Memᴰ}
use nexus_cloud_identity_acc.Common.{
  String, true, false, none, ◌≡◌, refl, arith, ◌&&◌, ◌↔◌, ◌⊎◌, str_includes, eq_iff, mem-filter_iff,
}
use nexus_cloud_identity_acc.Browser.{Result, ok, thrown, Network, Env, ◌>>=◌, UsersResponse}
use nexus_cloud_identity_acc.Types.{role_name, User}
use nexus_cloud_identity_acc.Api
use nexus_cloud_identity_acc.Pages.View.{message_if}
use nexus_cloud_identity_acc.Pages.Users.{
  UsersPage, fetch_users, users_started, users_ended, filtered_users, matches_role, matches_search,
}

matches_role_iff :
    (wanted : String) (u : User)
    → (matches_role wanted u ≡ true) ↔ ((wanted ≡ "all") ⊎ (wanted ≡ role_name u.role))
matches_role_iff wanted u = (
  λ h. ground (arith, eq_iff wanted "all", eq_iff (role_name u.role) wanted),
  λ h. ground (arith, eq_iff wanted "all", eq_iff (role_name u.role) wanted),
)

-- The directory lists a user exactly when it is one of those fetched, its role is the one chosen or
-- "all" is, and its name holds the search text, both in lower case.
pub mem-filtered_users_iff :
    (lower : String → String) (p : UsersPage) (u : User)
    → Memᴰ u (filtered_users lower p) ↔ (
        Memᴰ u p.users
        × ((p.filter_role ≡ "all") ⊎ (p.filter_role ≡ role_name u.role))
        × (str_includes (lower u.username) (lower p.search) ≡ true))
unfolding filtered_users
mem-filtered_users_iff lower p u = (
  λ m.
      let (listed, both) = shown.0 m in
      let (by_role, by_name) = (and-eq-true_iff _ _).0 both in
      (listed, (matches_role_iff p.filter_role u).0 by_role, by_name),
  λ (listed, by_role, by_name).
      shown.1
        (listed, (and-eq-true_iff _ _).1 ((matches_role_iff p.filter_role u).1 by_role, by_name)),
)
  where
    shown : Memᴰ u (filtered_users lower p) ↔ (
        Memᴰ u p.users × ((matches_role p.filter_role u && matches_search lower p.search u) ≡ true))
    shown = mem-filter_iff _ u p.users

-- what is shown after the server's answer to a refresh
abbrev pub Refreshed : UsersPage → Result UsersResponse → UsersPage → Type 0
Refreshed p (ok res) p' = (p'.users ≡ res.users) × (p'.error ≡ none)
Refreshed p (thrown e) p' = (p'.users ≡ p.users) × (p'.error ≡ message_if none e)

refreshed :
    (p : UsersPage) (r : Result UsersResponse) → Refreshed p r (users_ended r (users_started p))
unfolding users_ended users_started
refreshed p (ok res) = (refl, refl)
refreshed p (thrown e) = (refl, refl)

-- A refresh that succeeds shows the users that the server sent and clears the error; one that fails
-- keeps the users shown before, beside the message of the new error alone. Both end the loading state
-- and keep the filter and the search.
pub fetch_users-Refreshed :
    {W : Type 0} (net : Network W) (p : UsersPage) (env : Env W)
    → let p' = (fetch_users net p env).0 in
      Refreshed p ((Api.list_users net >>= Api.not_null) env).0 p'
      × (p'.is_loading ≡ false)
      × (p'.filter_role ≡ p.filter_role)
      × (p'.search ≡ p.search)
unfolding fetch_users
fetch_users-Refreshed net p env = (
  refreshed p ((Api.list_users net >>= Api.not_null) env).0,
  ground arith,
  ground arith,
  ground arith,
)
