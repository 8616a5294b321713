-- ===== src/Backend/Postgres/Audit.antt =====
-- backend/internal/audit/logger_postgres.go: the events in the table `audit_logs`, which
-- backend/internal/database/migrations/006_create_audit_logs.sql declares. `Log` starts a goroutine for
-- each row and does not wait for it; the rows that are still to be written are `pending`. PostgreSQL
-- rounds an instant to the column's precision and cuts the spaces at the end of a text that is too long by
-- them; it refuses a row that has a character of code 0, a text that is too long by more, or the id of
-- another row, and the refusal is only printed.
use mathlib.Core.List.{Pairwise, Perm}
use nexus_cloud_identity_acc.Common.{
  ℕ, ◌-◌, ◌*◌, ◌≤◌, String, Bool, Option, none, some, List, [], ◌∷◌, ◌++◌, ◌==◌, ◌&&◌, not, nat_eq,
  leb, any, all, if◌then◌else◌,
}
use nexus_cloud_identity_acc.Common.Int.{ℤ, pos, negsuc}
use nexus_cloud_identity_acc.Backend.Integers.{wrapped}
use nexus_cloud_identity_acc.Backend.AuditLog.{Event, action_name, take, drop}
use nexus_cloud_identity_acc.Backend.Postgres.Columns.{char_length, has_no_null, takes, cut}

-- whether all texts fit their columns as they are
abbrev pub fits : ℕ → String → Bool
fits limit s = leb (char_length s) limit && has_no_null s

unfoldable pub is_storable : Event → Bool
unfolding char_length
is_storable e =
    fits 64 e.id
    && fits 64 e.user_id
    && fits 64 (action_name e.action)
    && fits 128 e.resource
    && fits 64 e.ip_address
    && has_no_null e.user_agent
    && all (λ m. has_no_null m.0 && has_no_null m.1) e.metadata

-- what the columns take; the names of the actions are short
abbrev pub column : ℕ → String → Bool
column limit s = takes limit s && has_no_null s

unfoldable pub is_taken : Event → Bool
is_taken e =
    column 64 e.id
    && column 64 e.user_id
    && column 128 e.resource
    && column 64 e.ip_address
    && has_no_null e.user_agent
    && all (λ m. has_no_null m.0 && has_no_null m.1) e.metadata

-- the table's rows, in no order, and the rows whose `INSERT` is still to run
pub record AuditStore : Type 0 where
  pub table : List Event
  pub pending : List Event

abbrev pub has_id : String → List Event → Bool
has_id id rows = any (λ r. r.id == id) rows

module _ (rounded : ℕ → ℕ) where
  -- the row as the columns keep it
  abbrev pub as_kept : Event → Event
  as_kept e = record e {
    id = cut 64 e.id;
    user_id = cut 64 e.user_id;
    resource = cut 128 e.resource;
    ip_address = cut 64 e.ip_address;
    timestamp = rounded e.timestamp;
  }

  -- the `INSERT`
  unfoldable pub insert_event : Event → List Event → List Event
  unfolding is_taken
  insert_event e rows =
      if is_taken e && not (has_id (cut 64 e.id) rows) then as_kept e ∷ rows else rows

  -- a goroutine's statement, for one of the rows that wait; `up` says whether the server answers
  unfoldable pub write_event :
      Bool → (before : List Event) → Event → (after table : List Event) → AuditStore
  unfolding insert_event
  write_event up before e after table = record {
    table = if up then insert_event e table else table;
    pending = before ++ after;
  }

-- `Log`
unfoldable pub log_event : (id : String) → (now : ℕ) → Event → AuditStore → AuditStore
log_event id now e s = record s {
  pending =
      s.pending
      ++ record e {
        id = if e.id == "" then id else e.id;
        timestamp = if nat_eq e.timestamp 0 then now else e.timestamp;
      }
        ∷ [];
}

-- `ORDER BY timestamp DESC`: the rows in an order in which no instant is before one that follows
abbrev pub IsOrdered : (rows ordered : List Event) → Type 0
IsOrdered rows ordered = Perm ordered rows × Pairwise (λ a b. b.timestamp ≤ a.timestamp) ordered

abbrev window : ℕ → ℤ → List Event → Option (List Event)
window page_size (negsuc n) ordered = none
window page_size (pos offset) ordered = some (take page_size (drop offset ordered))

-- `List` on the rows as `ORDER BY` gives them: PostgreSQL refuses a negative `OFFSET`
unfoldable pub list_events : (page page_size : ℕ) → (ordered : List Event) → Option (List Event)
list_events page page_size ordered = window page_size (wrapped ((page - 1) * page_size)) ordered
