-- ===== src/Pages/Audit.antt =====
-- frontend/src/pages/AuditPage.tsx: the state, the filter, the pagination and the table. A fetch is cut
-- at its `await`; the effect on `page` and the buttons are events, and `Races` lets answers come in any
-- order. The local time and `JSON.stringify` are parameters.
pub mod Paging
pub mod Races
pub mod Controls
pub mod Screen
use nexus_cloud_identity_acc.Common.{
  ℕ, ◌+◌, ◌-◌, ◌/◌, String, Bool, true, false, Option, none, some, List, [], ◌∷◌, ◌==◌, ◌||◌,
  filter, leb, nat_eq, max, min, or_else, str_includes, substring, truthy, ◌+s◌, if◌then◌else◌,
}
use nexus_cloud_identity_acc.Browser.{Result, ok, thrown, Network, Env, ◌>>=◌}
use nexus_cloud_identity_acc.Types.{AuditEvent, AuditListResponse}
use nexus_cloud_identity_acc.Api
use nexus_cloud_identity_acc.Pages.View.{message_if, Table, table_of}

pub record AuditPage : Type 0 where
  pub events : List AuditEvent
  pub total : ℕ
  pub page : ℕ
  pub action_filter : String
  pub is_loading : Bool
  pub error : Option String

abbrev pub page_size : ℕ
page_size = 20

unfoldable pub audit_page : AuditPage
audit_page = record {
  events = [];
  total = 0;
  page = 1;
  action_filter = "ALL";
  is_loading = true;
  error = none;
}

unfoldable pub logs_started : AuditPage → AuditPage
logs_started p = record p { is_loading = true; error = none }

unfoldable pub logs_ended : Result AuditListResponse → AuditPage → AuditPage
logs_ended (ok res) p = record p {
  events = or_else res.events [];
  total = or_else res.total 0;
  is_loading = false;
}
logs_ended (thrown e) p = record p { error = message_if p.error e; is_loading = false }

module _ {W : Type 0} (net : Network W) where
  unfoldable pub fetch_logs : ℕ → AuditPage → Env W → AuditPage × Env W
  unfolding logs_started logs_ended
  fetch_logs n p env =
      let (r, env') = (Api.list_audit_logs net n page_size >>= Api.not_null) env in
      (logs_ended r (logs_started p), env')

-- `Math.ceil(total / pageSize) || 1`
unfoldable pub total_pages : ℕ → ℕ
total_pages total =
    let pages = (total + (page_size - 1)) / page_size in if nat_eq pages 0 then 1 else pages

-- `Math.max(1, p - 1)`: at 0 the truncated `-` gives the same maximum
unfoldable pub previous_page : AuditPage → AuditPage
previous_page p = record p { page = max 1 (p.page - 1) }

unfoldable pub next_page : AuditPage → AuditPage
unfolding total_pages
next_page p = record p { page = min (total_pages p.total) (p.page + 1) }

abbrev pub previous_disabled : AuditPage → Bool
previous_disabled p = leb p.page 1

unfoldable pub next_disabled : AuditPage → Bool
unfolding total_pages
next_disabled p = leb (total_pages p.total) p.page

unfoldable pub filtered_events : AuditPage → List AuditEvent
filtered_events p =
    filter (λ e. if p.action_filter == "ALL" then true else e.action == p.action_filter) p.events

unfoldable pub action_badge : String → String
action_badge action =
    if str_includes action "SUCCESS"
      || str_includes action "GRANTED"
      || str_includes action "REGISTERED"
    then "badge-green"
    else if str_includes action "FAILED"
        || str_includes action "DENIED"
        || str_includes action "RATE_LIMIT"
        || str_includes action "REJECTED"
    then "badge-red"
    else if str_includes action "POLICY" || str_includes action "ROLE"
    then "badge-purple"
    else "badge-blue"

pub record AuditRow : Type 0 where
  pub badge : String
  pub action : String
  pub subject : String
  pub target : String
  pub ip : String
  pub metadata : String
  pub timestamp : String

-- `s ? f(s) : other` for a text that may be missing or empty
abbrev pub text_or : Option String → (String → String) → String → String
text_or s f other = if truthy s then f (or_else s "") else other

module _ (stringify : List (String × String) → String) (local_time : String → String) where
  unfoldable pub audit_row : AuditEvent → AuditRow
  unfolding action_badge
  audit_row e = record {
    badge = action_badge e.action;
    action = e.action;
    subject = text_or e.user_id (λ s. substring 14 s +s "...") "anonymous";
    target = text_or e.resource (λ s. s) "auth-service";
    ip = text_or e.ip_address (λ s. s) "127.0.0.1";
    metadata = elim e.metadata [ none ↦ "—" | some m ↦ stringify m ];
    timestamp = local_time e.timestamp;
  }

  unfoldable pub audit_table : AuditPage → Table AuditRow
  unfolding filtered_events audit_row
  audit_table p = table_of p.is_loading audit_row (filtered_events p)
