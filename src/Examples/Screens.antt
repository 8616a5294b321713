-- ===== src/Examples/Screens.antt =====
-- Routes, navigation and lists for the example user.
use mathlib.Core.List.{Memᴰ}
use nexus_cloud_identity_acc.Common.{
  ℕ, false, none, some, List, [], ◌∷◌, ◌≡◌, ◌≢◌, refl, ◌<◌, arith, if◌then◌else◌, nat_eq,
}
use nexus_cloud_identity_acc.Types.{admin, security_manager, super_admin, analyst, AuditEvent}
use nexus_cloud_identity_acc.Auth.{Session}
use nexus_cloud_identity_acc.Shell.Guard.{Page, shows, denied, redirect, render, settle, spinner}
use nexus_cloud_identity_acc.Shell.Guard
use nexus_cloud_identity_acc.Shell.Guard.Access.{path_of, render-may_view, settle-ne-redirect}
use nexus_cloud_identity_acc.Shell.Sidebar.{NavItem, is_allowed}
use nexus_cloud_identity_acc.Shell.Navigation.{opens, all_nav, nav_item_opens}
use nexus_cloud_identity_acc.Pages.Audit.{
  AuditPage, audit_page, logs_started, logs_ended, total_pages,
}
use nexus_cloud_identity_acc.Pages.Audit.Paging.{InRange}
use nexus_cloud_identity_acc.Pages.Audit.Races.{
  Screen, Steps, opened, here, later, answered, answer, in_order_settles, stale_page,
}
use nexus_cloud_identity_acc.Pages.Users.{UsersPage}
use nexus_cloud_identity_acc.Examples.{ada}

abbrev signed_in : Session
signed_in = record { user = some ada; token = some "t"; is_loading = false }

abbrev signed_out : Session
signed_out = record { user = none; token = none; is_loading = false }

render-may_view_example : render signed_in (path_of Guard.users) ≡ denied analyst
render-may_view_example = render-may_view signed_in ada Guard.users refl refl

settle-ne-redirect_example : settle 2 signed_out "/nowhere" ≢ redirect "/login"
settle-ne-redirect_example = settle-ne-redirect signed_out "/nowhere" "/login"

-- the item of the audit page
abbrev audit_item : NavItem
audit_item = record {
  name = "Audit Logs";
  path = "/audit";
  allowed_roles = some (admin ∷ security_manager ∷ analyst ∷ super_admin ∷ []);
}

audit_item_listed : Memᴰ audit_item all_nav
audit_item_listed = Memᴰ.tail (Memᴰ.tail (Memᴰ.tail (Memᴰ.tail (Memᴰ.tail (Memᴰ.head refl)))))

nav_item_opens_example : opens (render signed_in "/audit") ≡ is_allowed (some ada) audit_item
nav_item_opens_example = nav_item_opens signed_in ada audit_item refl refl audit_item_listed

-- the second of three pages
abbrev middle : AuditPage
middle = record audit_page { total = 41; page = 2 }

middle-InRange : InRange middle
unfolding total_pages audit_page
middle-InRange = (omega arith, omega arith)

-- each page of the log holds one event that names it
abbrev content : ℕ → List AuditEvent
content n =
    record {
      id = "e";
      user_id = none;
      action = if nat_eq n 1 then "first" else "later";
      resource = none;
      ip_address = none;
      user_agent = none;
      metadata = none;
      timestamp = "2026-01-02T03:04:05Z";
    }
    ∷ []

-- the first answer, as the page shows it
abbrev first_page : AuditPage
first_page = logs_ended (answer content 41 1) (logs_started audit_page)

in_order_settles_example : first_page.events ≡ content first_page.page
unfolding audit_page logs_ended logs_started
in_order_settles_example =
    in_order_settles content 41 {t = record { view = first_page; pending = [] }}
      (later here (answered [] [] 1 (λ e. refl) refl)) refl refl

more_than_one : 1 < total_pages 41
unfolding total_pages
more_than_one = omega arith

stale_page_example :
    (t : Screen) × Steps content 41 false (opened content 41) t
    × (t.pending ≡ [])
    × (t.view.page ≡ 2)
    × (t.view.events ≡ content 1)
    × (t.view.is_loading ≡ false)
stale_page_example = stale_page content 41 more_than_one

abbrev directory : UsersPage
directory = record {
  users = ada ∷ [];
  filter_role = "analyst";
  search = "ad";
  is_loading = false;
  error = none;
}

-- the page with one event
abbrev listing : AuditPage
listing = record audit_page { events = content 1 }

abbrev first_event : AuditEvent
first_event = record {
  id = "e";
  user_id = none;
  action = "first";
  resource = none;
  ip_address = none;
  user_agent = none;
  metadata = none;
  timestamp = "2026-01-02T03:04:05Z";
}
