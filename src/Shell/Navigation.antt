-- ===== src/Shell/Navigation.antt =====
-- The sidebar and the routes agree, and the bar's badge tells the last answer that spoke.
use mathlib.Core.List.{Memᴰ}
use mathlib.Core.Path.{subst}
use nexus_cloud_identity_acc.Common.{
  String, Bool, true, false, Option, none, some, List, [], ◌∷◌, ◌++◌, ◌≡◌, refl, ◌==◌, All, All-mem,
  sym, eq_iff,
}
use nexus_cloud_identity_acc.Types.{Role, super_admin, User}
use nexus_cloud_identity_acc.Browser.{Thrown, Result, ok, thrown, HealthResponse}
use nexus_cloud_identity_acc.Auth.{Session}
use nexus_cloud_identity_acc.Shell.Guard.{Screen, shows, render}
use nexus_cloud_identity_acc.Shell.Sidebar.{NavItem, main_nav, admin_nav, settings_nav, is_allowed}
use nexus_cloud_identity_acc.Shell.Navbar.{checking, health_arrived, checks, badge}

abbrev pub opens : Screen → Bool
opens (shows p) = true
opens _ = false

abbrev pub all_nav : List NavItem
all_nav = main_nav ++ admin_nav ++ settings_nav

Fits : Option String → User → NavItem → Type 0
Fits t u item =
    opens (render (record { user = some u; token = t; is_loading = false }) item.path)
    ≡ is_allowed (some u) item

Fits-role : (t : Option String) (u : User) (r : Role) → All (Fits t (record u { role = r })) all_nav
unfolding Fits render is_allowed
Fits-role t u super_admin = (refl, (refl, (refl, (refl, (refl, (refl, (refl, (refl, tt))))))))
Fits-role t u _ = (refl, (refl, (refl, (refl, (refl, (refl, (refl, (refl, tt))))))))

-- The sidebar offers an item to a signed-in user exactly when the item's path then opens a page: it
-- shows no link to a 403 card, and hides none that would open.
pub nav_item_opens :
    (s : Session) (u : User) (item : NavItem)
    → s.is_loading ≡ false
    → s.user ≡ some u
    → Memᴰ item all_nav
    → opens (render s item.path) ≡ is_allowed s.user item
unfolding Fits
nav_item_opens s u item loaded known m =
    subst (λ x. opens (render x item.path) ≡ is_allowed x.user item) (sym same)
      (All-mem (Fits s.token u) all_nav (Fits-role s.token u u.role) m)
  where
    same : s ≡ record { user = some u; token = s.token; is_loading = false }
    same = λ i. record { user = known i; token = s.token; is_loading = loaded i }

-- an answer that arrives and says another status than "ok"
abbrev pub IsUnhealthy : Result (Option HealthResponse) → Type 0
IsUnhealthy (ok (some res)) = (res.status == "ok") ≡ false
IsUnhealthy _ = ⊥

checks_unhealthy :
    (rs : List (Result (Option HealthResponse))) (status : String)
    → All IsUnhealthy rs
    → checks rs status ≡ status
unfolding checks
checks_unhealthy [] status h = refl
checks_unhealthy (ok (some res) ∷ rs) status h = rw h.0 (checks_unhealthy rs status h.1)
checks_unhealthy (ok none ∷ rs) status h = absurd h.0
checks_unhealthy (thrown e ∷ rs) status h = absurd h.0

checks-append :
    (rs qs : List (Result (Option HealthResponse))) (status : String)
    → checks (rs ++ qs) status ≡ checks qs (checks rs status)
unfolding checks
checks-append [] qs status = refl
checks-append (r ∷ rs) qs status = checks-append rs qs (health_arrived r status)

-- Once the badge is green, any number of answers that say another status than "ok" leave it green;
-- whatever it showed, one failed request turns it amber.
pub badge_after :
    (rs qs : List (Result (Option HealthResponse))) (res : HealthResponse) (e : Thrown)
    → res.status ≡ "ok"
    → All IsUnhealthy qs
    → (badge (checks (rs ++ ok (some res) ∷ qs) checking) ≡ "badge-green")
      × (badge (checks (rs ++ thrown e ∷ []) checking) ≡ "badge-amber")
unfolding badge checks
badge_after rs qs res e fine h = (
  rw (checks-append rs (ok (some res) ∷ qs) checking)
      (rw ((eq_iff res.status "ok").1 fine) (rw (checks_unhealthy qs "ONLINE" h))),
  rw (checks-append rs (thrown e ∷ []) checking),
)
