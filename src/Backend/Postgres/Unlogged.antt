-- ===== src/Backend/Postgres/Unlogged.antt =====
-- An access check of backend/internal/policy/handler.go whose event the table does not take.

use nexus_cloud_identity_acc.Common.{
  ℕ, String, Bool, true, false, some, List, [], ◌∷◌, ◌++◌, ◌==◌, ◌&&◌, ◌≡◌, refl, ap, all, eq_iff,
  Bool-cases, inl, inr,
}
use nexus_cloud_identity_acc.Types.{AccessCheckRequest}
use nexus_cloud_identity_acc.Backend.Http.{reply}
use nexus_cloud_identity_acc.Backend.AuditLog.{Event}
use nexus_cloud_identity_acc.Backend.Policy.{evaluate}
use nexus_cloud_identity_acc.Backend.Handler.{Claims, Entry, Server, policy_request, check_access}
use nexus_cloud_identity_acc.Backend.Postgres.Columns.{has_no_null, is_blank, beyond}
use nexus_cloud_identity_acc.Backend.Postgres.Audit.{column, is_taken, insert_event}

-- the event of an entry of the handler's log, with what `Log` fills in and the request's address and agent
abbrev pub event_of : (id : String) → (now : ℕ) → (address agent : String) → Entry → Event
event_of id now address agent e = record {
  id = id;
  user_id = e.user_id;
  action = e.action;
  resource = e.resource;
  ip_address = address;
  user_agent = agent;
  metadata = e.metadata;
  timestamp = now;
}

false_among : (a b c d e : Bool) → b ≡ false → (a && b && c && d && e) ≡ false
false_among true b c d e h = rw h refl
false_among false b c d e h = refl

long-is_taken : (e : Event) → is_blank (beyond 128 e.resource) ≡ false → is_taken e ≡ false
unfolding is_taken
long-is_taken e h =
    false_among (column 64 e.id && column 64 e.user_id) (column 128 e.resource)
      (column 64 e.ip_address) (has_no_null e.user_agent)
      (all (λ m. has_no_null m.0 && has_no_null m.1) e.metadata) (rw h refl)

long-ne-empty : (s : String) → is_blank (beyond 128 s) ≡ false → (s == "") ≡ false
long-ne-empty s h = elim (Bool-cases (s == "")) [
  | inl e ↦ let blank = ap (λ x. is_blank (beyond 128 x)) ((eq_iff s "").0 e) in cc (h, blank)
  | inr e ↦ e
]

module _ (rounded : ℕ → ℕ) where
  dropped :
      (e : Event) (table : List Event)
      → is_blank (beyond 128 e.resource) ≡ false
      → insert_event rounded e table ≡ table
  unfolding insert_event
  dropped e table h = rw (long-is_taken e h) refl

  -- An access request whose application has a character other than a space beyond its first 128 is
  -- answered 200 with the engine's decision, and the handler logs it as one entry; but the row of that
  -- entry's event, whatever the id, the time, the address and the user agent are, leaves the table of
  -- events as it was.
  pub check_access-unlogged :
      (claims : Claims) (req : AccessCheckRequest) (s : Server) (id : String) (now : ℕ)
      (address agent : String) (table : List Event)
      → is_blank (beyond 128 req.application) ≡ false
      → let x = check_access (some claims) (some req) s in
        (x.0 ≡ reply 200 (evaluate s.policies (policy_request claims req)))
        × (e : Entry) × (x.1.log ≡ s.log ++ e ∷ [])
        × (insert_event rounded (event_of id now address agent e) table ≡ table)
  unfolding check_access
  check_access-unlogged claims req s id now address agent table long =
      rw (long-ne-empty req.application long)
        (refl, _, refl, dropped (event_of id now address agent _) table long)
