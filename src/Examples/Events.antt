-- ===== src/Examples/Events.antt =====
-- Two events, of which the later one is written first.
use mathlib.Core.List.{Pairwise, not-mem-nil}
use mathlib.Core.List.Perm
use mathlib.Core.Path.{subst}
use nexus_cloud_identity_acc.Common.{
  ℕ, ◌+s◌, String, [], ◌∷◌, ◌≡◌, refl, sym, length, arith, All, eq_iff, false, some, ◌≤◌,
}
use nexus_cloud_identity_acc.Backend.AuditLog
use nexus_cloud_identity_acc.Backend.AuditLog.{Event, login_success, access_granted}
use nexus_cloud_identity_acc.Backend.Postgres.Columns.{char_length, is_blank, beyond}
use nexus_cloud_identity_acc.Backend.Postgres.Audit.{
  AuditStore, is_storable, is_taken, insert_event, write_event, log_event, list_events, IsOrdered,
}
use nexus_cloud_identity_acc.Types.{AccessCheckRequest}
use nexus_cloud_identity_acc.Common.Int.{pos}
use nexus_cloud_identity_acc.Backend.Http.{reply}
use nexus_cloud_identity_acc.Backend.Policy.{evaluate}
use nexus_cloud_identity_acc.Backend.Policy.Defaults.{new_engine}
use nexus_cloud_identity_acc.Backend.Handler.{Claims, Entry, Server, policy_request, check_access}
use nexus_cloud_identity_acc.Backend.Postgres.Unlogged.{event_of, check_access-unlogged}
use nexus_cloud_identity_acc.Backend.Postgres.Order.{Apart, Earlier, only}
use nexus_cloud_identity_acc.Backend.Postgres.Settled.{
  Kept, Reaches, starts, logs, writes, settled-lists,
}

-- the column keeps these instants as they are
abbrev exact : ℕ → ℕ
exact n = n

abbrev sign_in : Event
sign_in = record {
  id = "e-1";
  user_id = "u-7";
  action = login_success;
  resource = "";
  ip_address = "10.0.0.1";
  user_agent = "";
  metadata = [];
  timestamp = 10;
}

abbrev launch : Event
launch = record sign_in {
  id = "e-2";
  action = access_granted;
  resource = "aws-console";
  timestamp = 20;
}

abbrev both : AuditStore
both = record { table = sign_in ∷ launch ∷ []; pending = [] }

both-Reaches : Reaches exact (sign_in ∷ launch ∷ []) both
unfolding AuditLog.log_event log_event write_event insert_event is_taken char_length
both-Reaches = writes [] sign_in [] (
    writes (sign_in ∷ []) launch [] (
      logs "e-2" 20 (record launch { id = "" })
        (logs "e-1" 10 (record sign_in { id = ""; timestamp = 0 }) starts)))

both-IsOrdered : IsOrdered both.table (launch ∷ sign_in ∷ [])
both-IsOrdered = (
  Perm.swap sign_in launch [],
  Pairwise.cons (λ e m. subst (λ d. d.timestamp ≤ 20) (sym (only e m)) (omega arith))
      (Pairwise.cons (λ e m. absurd (not-mem-nil m)) Pairwise.nil),
)

kept : All (Kept exact) (sign_in ∷ launch ∷ [])
unfolding is_storable char_length
kept = ((refl, refl), ((refl, refl), tt))

apart : Pairwise Apart (sign_in ∷ launch ∷ [])
apart =
    Pairwise.cons
      (λ e m.
        subst (λ d. Apart sign_in d) (sym (only e m))
          (λ q. let same = (eq_iff "e-1" "e-2").1 q in cc))
      (Pairwise.cons (λ e m. absurd (not-mem-nil m)) Pairwise.nil)

earlier : Pairwise Earlier (sign_in ∷ launch ∷ [])
earlier =
    Pairwise.cons (λ e m. subst (λ d. Earlier sign_in d) (sym (only e m)) (omega arith))
      (Pairwise.cons (λ e m. absurd (not-mem-nil m)) Pairwise.nil)

settled-lists_example :
    (length both.table ≡ 2)
    × (list_events 1 20 (launch ∷ sign_in ∷ []) ≡ AuditLog.list_events 1 20 (sign_in ∷ launch ∷ []))
settled-lists_example =
    settled-lists exact (sign_in ∷ launch ∷ []) (launch ∷ sign_in ∷ []) both 1 20 both-Reaches refl
      both-IsOrdered kept apart earlier (omega arith) (omega arith)

abbrev long : String
long = "0123456789012345678901234567890123456789012345678901234567890123"

abbrev request : AccessCheckRequest
request = record {
  application = long +s long +s "x";
  device_trusted = false;
  mfa_verified = false;
  risk_score = pos 90;
}

abbrev viewer_claims : Claims
viewer_claims = record { user_id = "u-7"; role = "viewer" }

abbrev started : Server
started = record { policies = new_engine "p-1" "p-2" "p-3"; log = [] }

is_long : is_blank (beyond 128 request.application) ≡ false
is_long = refl

check_access-unlogged_example :
    let x = check_access (some viewer_claims) (some request) started in
    (x.0 ≡ reply 200 (evaluate started.policies (policy_request viewer_claims request)))
    × (e : Entry) × (x.1.log ≡ e ∷ [])
    × (insert_event exact (event_of "e-3" 30 "10.0.0.1" "" e) (sign_in ∷ []) ≡ sign_in ∷ [])
check_access-unlogged_example =
    check_access-unlogged exact viewer_claims request started "e-3" 30 "10.0.0.1" "" (sign_in ∷ [])
      is_long
