-- ===== src/Backend/Handler.antt =====
-- backend/internal/policy/handler.go: the policy engine over HTTP. The claims are those that `RequireAuth`
-- has put in the request's context; a body is the decoded JSON, none where it does not decode. The
-- audit log is a list, with the latest entry last; addresses and the user agent are left out.
pub mod Logging
pub mod EndToEnd
pub mod Console
pub mod Fresh
use nexus_cloud_identity_acc.Common.{
  ℕ, String, Bool, true, false, Option, none, some, List, [], ◌∷◌, ◌++◌, ◌==◌, ◌||◌, length,
  if◌then◌else◌,
}
use nexus_cloud_identity_acc.Browser.{Response, PoliciesResponse, MessageResponse}
use nexus_cloud_identity_acc.Types.{
  Decision, allow, deny, require_mfa, decision_name, NewPolicy, Policy, AccessCheckRequest,
  AccessCheckResponse,
}
use nexus_cloud_identity_acc.Backend.Http.{failure, reply, reply_message}
use nexus_cloud_identity_acc.Backend.AuditLog.{
  AuditAction, access_granted, access_denied, policy_created, policy_deleted,
}
use nexus_cloud_identity_acc.Backend.Policy.{
  Request, evaluate, all_policies, create_policy, delete_policy,
}

-- the part of the token's claims that the handlers read
pub record Claims : Type 0 where
  pub user_id : String
  pub role : String

pub record Entry : Type 0 where
  pub user_id : String
  pub action : AuditAction
  pub resource : String
  pub metadata : List (String × String)

pub record Server : Type 0 where
  pub policies : List Policy
  pub log : List Entry

-- `policyReq`
abbrev pub policy_request : Claims → AccessCheckRequest → Request
policy_request claims req = record {
  role = claims.role;
  application = req.application;
  device_trusted = req.device_trusted;
  mfa_verified = req.mfa_verified;
  risk_score = req.risk_score;
}

abbrev audit_action : Decision → AuditAction
audit_action allow = access_granted
audit_action _ = access_denied

-- the rest of `CheckAccess` after `Evaluate`
abbrev checked :
    Claims
    → AccessCheckRequest
    → AccessCheckResponse
    → Server
    → Response AccessCheckResponse × Server
checked claims req result s = (
  reply 200 result,
  record s {
    log =
        s.log
        ++ record {
          user_id = claims.user_id;
          action = audit_action result.decision;
          resource = req.application;
          metadata = ("decision", decision_name result.decision) ∷ ("reason", result.reason) ∷ [];
        }
          ∷ [];
  },
)

unfoldable pub check_access :
    Option Claims → Option AccessCheckRequest → Server → Response AccessCheckResponse × Server
check_access none body s = (failure 401 "unauthorized", s)
check_access (some claims) none s = (failure 400 "invalid JSON body", s)
check_access (some claims) (some req) s =
    if req.application == ""
    then (failure 400 "application is required", s)
    else checked claims req (evaluate s.policies (policy_request claims req)) s

unfoldable pub list_policies : Server → Response PoliciesResponse
list_policies s =
    let out = all_policies s.policies in reply 200 (record { policies = out; count = length out })

abbrev created : Claims → Policy × List Policy → Server → Response Policy × Server
created claims (p, policies) s = (
  reply 201 p,
  record {
    policies = policies;
    log =
        s.log
        ++ record {
          user_id = claims.user_id;
          action = policy_created;
          resource = p.id;
          metadata = ("policy_name", p.name) ∷ [];
        }
          ∷ [];
  },
)

-- `CreatePolicy`, behind a gate that lets no request without claims through; the engine's own
-- `CreatePolicy` never fails
unfoldable pub add_policy : Claims → String → Option NewPolicy → Server → Response Policy × Server
add_policy claims id none s = (failure 400 "invalid JSON body", s)
add_policy claims id (some rule) s =
    if rule.name == "" || rule.application == ""
    then (failure 400 "name and application are required", s)
    else created claims (create_policy id rule s.policies) s

abbrev deleted : Claims → String → Option (List Policy) → Server → Response MessageResponse × Server
deleted claims id none s = (failure 404 "policy not found", s)
deleted claims id (some policies) s = (
  reply_message 200 "policy deleted" (record { message = "policy deleted" }),
  record {
    policies = policies;
    log =
        s.log
        ++ record {
          user_id = claims.user_id;
          action = policy_deleted;
          resource = id;
          metadata = [];
        }
          ∷ [];
  },
)

-- `DeletePolicy`, behind the same gate
unfoldable pub remove_policy : Claims → String → Server → Response MessageResponse × Server
remove_policy claims id s =
    if id == ""
    then (failure 400 "policy id required", s)
    else deleted claims id (delete_policy id s.policies) s
