-- ===== src/Backend/AuditLog.antt =====
-- backend/internal/audit: the events, `MemoryLogger`, and the handler of `GET /api/v1/audit`. A new id
-- and the time are arguments; an instant is a number, 0 for Go's zero time, and `print_time` is its
-- form in JSON. A request that panics has no answer: `net/http` closes the connection.
pub mod Cover
pub mod Overflow
pub mod EndToEnd
use nexus_cloud_identity_acc.Common.{
  ℕ, zero, suc, ◌-◌, ◌*◌, ◌+◌, String, Bool, true, Option, none, some, List, [], ◌∷◌, ◌++◌, ◌==◌,
  length, map, nat_eq, leb, ltb, if◌then◌else◌,
}
use nexus_cloud_identity_acc.Common.Int.{ℤ, pos, negsuc}
use nexus_cloud_identity_acc.Browser.{Response}
use nexus_cloud_identity_acc.Types.{AuditEvent, AuditListResponse}
use nexus_cloud_identity_acc.Backend.Integers.{wrapped, atoi}
use nexus_cloud_identity_acc.Backend.Http.{reply}

-- `audit.Action`
pub data AuditAction : Type 0 where
  user_registered login_success login_failed mfa_success mfa_failed access_granted access_denied
        role_changed policy_created policy_updated policy_deleted token_rejected
        rate_limit_triggered :
      AuditAction

abbrev pub action_name : AuditAction → String
action_name user_registered = "USER_REGISTERED"
action_name login_success = "LOGIN_SUCCESS"
action_name login_failed = "LOGIN_FAILED"
action_name mfa_success = "MFA_SUCCESS"
action_name mfa_failed = "MFA_FAILED"
action_name access_granted = "ACCESS_GRANTED"
action_name access_denied = "ACCESS_DENIED"
action_name role_changed = "ROLE_CHANGED"
action_name policy_created = "POLICY_CREATED"
action_name policy_updated = "POLICY_UPDATED"
action_name policy_deleted = "POLICY_DELETED"
action_name token_rejected = "TOKEN_REJECTED"
action_name rate_limit_triggered = "RATE_LIMIT_TRIGGERED"

pub record Event : Type 0 where
  pub id : String
  pub user_id : String
  pub action : AuditAction
  pub resource : String
  pub ip_address : String
  pub user_agent : String
  pub metadata : List (String × String)
  pub timestamp : ℕ

-- `MemoryLogger.Log`
unfoldable pub log_event : (id : String) → (now : ℕ) → Event → List Event → List Event
log_event id now e events =
    events
    ++ record e {
      id = if e.id == "" then id else e.id;
      timestamp = if nat_eq e.timestamp 0 then now else e.timestamp;
    }
      ∷ []

abbrev pub reverse : {A : Type 0} → List A → List A
reverse [] = []
reverse (x ∷ xs) = reverse xs ++ x ∷ []

abbrev pub take : {A : Type 0} → ℕ → List A → List A
take zero xs = []
take (suc n) [] = []
take (suc n) (x ∷ xs) = x ∷ take n xs

abbrev pub drop : {A : Type 0} → ℕ → List A → List A
drop zero xs = xs
drop (suc n) [] = []
drop (suc n) (x ∷ xs) = drop n xs

-- `xs[start:end]`, which panics out of range
abbrev pub slice : {A : Type 0} → List A → ℕ → ℤ → Option (List A)
slice xs start (negsuc n) = none
slice xs start (pos end) =
    if ltb end start
    then none
    else if ltb (length xs) end
    then none
    else some (take (end - start) (drop start xs))

-- `end`, cut at the total
abbrev pub cut_end : ℕ → ℤ → ℤ
cut_end total (negsuc n) = negsuc n
cut_end total (pos end) = if ltb total end then pos total else pos end

abbrev pub slice_from : List Event → ℕ → ℤ → Option (List Event)
slice_from events page_size (negsuc n) = none
slice_from events page_size (pos start) =
    if leb (length events) start
    then some []
    else slice (reverse events) start (cut_end (length events) (wrapped (start + page_size)))

-- `MemoryLogger.List`, for a page and a size from 1: the events of the page, or a panic; the total is
-- the length of the log
unfoldable pub list_events : (page page_size : ℕ) → List Event → Option (List Event)
list_events page page_size [] = some []
list_events page page_size (e ∷ events) =
    slice_from (e ∷ events) page_size (wrapped ((page - 1) * page_size))

-- a number of the query from 1 to a limit, else the default
abbrev pub number_or : ℕ → Option ℤ → (ℕ → Bool) → ℕ
number_or default none allowed = default
number_or default (some (negsuc n)) allowed = default
number_or default (some (pos n)) allowed =
    if ltb 0 n then (if allowed n then n else default) else default

unfoldable pub page_of : String → ℕ
page_of p = if p == "" then 1 else number_or 1 (atoi p) (λ n. true)

unfoldable pub page_size_of : String → ℕ
page_size_of ps = if ps == "" then 50 else number_or 50 (atoi ps) (λ n. leb n 200)

-- a text under `omitempty`
abbrev text_field : String → Option String
text_field s = if s == "" then none else some s

abbrev map_field : List (String × String) → Option (List (String × String))
map_field [] = none
map_field (m ∷ ms) = some (m ∷ ms)

module _ (print_time : ℕ → String) where
  -- the JSON of an event, as the client's type has it
  unfoldable pub event_json : Event → AuditEvent
  event_json e = record {
    id = e.id;
    user_id = text_field e.user_id;
    action = action_name e.action;
    resource = text_field e.resource;
    ip_address = text_field e.ip_address;
    user_agent = text_field e.user_agent;
    metadata = map_field e.metadata;
    timestamp = print_time e.timestamp;
  }

  abbrev pub listed : ℕ → ℕ → ℕ → Option (List Event) → Option (Response AuditListResponse)
  listed page page_size total none = none
  listed page page_size total (some events) = some (
      reply 200 (record {
        events = some (map event_json events);
        total = some total;
        page = page;
        page_size = page_size;
      }))

  -- `Handler.List` on the two values of the query, with `MemoryLogger` behind it, which returns no error
  unfoldable pub list_handler :
      (page page_size : String) → List Event → Option (Response AuditListResponse)
  unfolding page_of page_size_of list_events
  list_handler page page_size events =
      listed (page_of page) (page_size_of page_size) (length events)
        (list_events (page_of page) (page_size_of page_size) events)
