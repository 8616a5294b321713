-- ===== src/Pages/Audit/Screen.antt =====
-- frontend/src/pages/AuditPage.tsx: the whole page.
use nexus_cloud_identity_acc.Common.{String, Bool, Option, List, [], ◌∷◌}
use nexus_cloud_identity_acc.Pages.View.{Table, Heading, alert_of}
use nexus_cloud_identity_acc.Pages.Audit.{
  AuditPage, AuditRow, audit_table, previous_disabled, next_disabled,
}
use nexus_cloud_identity_acc.Pages.Audit.Controls.{filter_options, page_line}

-- `waiting` and `nothing` are the texts of the two rows without an event.
-- A button is its label and whether it is disabled; `refresh` calls `fetchLogs(page)`.
pub record AuditScreen : Type 0 where
  pub heading : Heading
  pub refresh : String
  pub alert : Option String
  pub filter_label : String
  pub options : List (String × String)
  pub selected : String
  pub columns : List String
  pub waiting : String
  pub nothing : String
  pub table : Table AuditRow
  pub line : String
  pub previous : String × Bool
  pub next : String × Bool

unfoldable pub audit_screen :
    (List (String × String) → String) → (String → String) → AuditPage → AuditScreen
unfolding audit_table next_disabled filter_options page_line
audit_screen stringify local_time p = record {
  heading = record {
    title = "Security Audit Trail";
    subtitle =
        "Immutable, timestamped security event stream recording authentications, authorization checks, and policy modifications";
  };
  refresh = "Refresh Stream";
  alert = alert_of p.error;
  filter_label = "Filter by Action:";
  options = filter_options p;
  selected = p.action_filter;
  columns =
      "Action" ∷ "Subject ID" ∷ "Target Resource" ∷ "IP Address" ∷ "Metadata" ∷ "Timestamp" ∷ [];
  waiting = "Reading audit log stream...";
  nothing = "No audit records match the current filter.";
  table = audit_table stringify local_time p;
  line = page_line p;
  previous = ("Previous", previous_disabled p);
  next = ("Next", next_disabled p);
}
