-- ===== src/Pages/Audit/Controls.antt =====
-- frontend/src/pages/AuditPage.tsx: the filter's options and the line above the pagination buttons.
use mathlib.Core.List.{Memᴰ}
use nexus_cloud_identity_acc.Common.{
  String, true, List, [], ◌∷◌, ◌≡◌, ◌↔◌, ◌⊎◌, ◌==◌, ◌+s◌, show, if◌then◌else◌, mem-filter_iff,
  eq_iff, arith,
}
use nexus_cloud_identity_acc.Types.{AuditEvent}
use nexus_cloud_identity_acc.Pages.Audit.{AuditPage, filtered_events, total_pages}

-- the value and the text of each option
unfoldable pub filter_options : AuditPage → List (String × String)
filter_options p =
    ("ALL", "All Actions (" +s show p.total +s " total)")
    ∷ ("LOGIN_SUCCESS", "LOGIN_SUCCESS")
    ∷ ("LOGIN_FAILED", "LOGIN_FAILED")
    ∷ ("USER_REGISTERED", "USER_REGISTERED")
    ∷ ("ACCESS_GRANTED", "ACCESS_GRANTED")
    ∷ ("ACCESS_DENIED", "ACCESS_DENIED")
    ∷ ("MFA_SUCCESS", "MFA_SUCCESS")
    ∷ ("MFA_FAILED", "MFA_FAILED")
    ∷ ("POLICY_CREATED", "POLICY_CREATED")
    ∷ ("RATE_LIMIT_TRIGGERED", "RATE_LIMIT_TRIGGERED")
    ∷ []

unfoldable pub pick_filter : String → AuditPage → AuditPage
pick_filter s p = record p { action_filter = s }

unfoldable pub page_line : AuditPage → String
unfolding total_pages
page_line p =
    "Showing page "
    +s show p.page
    +s " of "
    +s show (total_pages p.total)
    +s " ("
    +s show p.total
    +s " events logged)"

passes_iff :
    (wanted : String) (e : AuditEvent)
    → ((if wanted == "ALL" then true else e.action == wanted) ≡ true)
      ↔ ((wanted ≡ "ALL") ⊎ (e.action ≡ wanted))
passes_iff wanted e = (
  λ h. ground (arith, eq_iff wanted "ALL", eq_iff e.action wanted),
  λ h. ground (arith, eq_iff wanted "ALL", eq_iff e.action wanted),
)

-- Once an option is picked, the table lists an event exactly when it is one of those fetched for the
-- page, and the option is ALL or the event's action.
pub mem-filtered_events_iff :
    (wanted : String) (p : AuditPage) (e : AuditEvent)
    → Memᴰ e (filtered_events (pick_filter wanted p))
      ↔ (Memᴰ e p.events × ((wanted ≡ "ALL") ⊎ (e.action ≡ wanted)))
unfolding filtered_events pick_filter
mem-filtered_events_iff wanted p e = (
  λ m. let (sent, passes) = listed.0 m in (sent, (passes_iff wanted e).0 passes),
  λ (sent, h). listed.1 (sent, (passes_iff wanted e).1 h),
)
  where
    listed :
        Memᴰ e (filtered_events (pick_filter wanted p))
        ↔ (Memᴰ e p.events × ((if wanted == "ALL" then true else e.action == wanted) ≡ true))
    listed = mem-filter_iff _ e p.events
