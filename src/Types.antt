-- ===== src/Types.antt =====
-- frontend/src/types/index.ts. A union of string literals is an enumeration with the string that
-- each member stands for; an optional field is an `Option`; a `number` that the server sends as an
-- integer is a ℤ where it may be compared, a ℕ where it counts.
pub mod Roles
use nexus_cloud_identity_acc.Common.{ℕ, String, Bool, Option, List}
use nexus_cloud_identity_acc.Common.Int.{ℤ}

pub data Role : Type 0 where
  super_admin admin security_manager developer analyst viewer user : Role

-- the string of the union type
abbrev pub role_name : Role → String
role_name super_admin = "super_admin"
role_name admin = "admin"
role_name security_manager = "security_manager"
role_name developer = "developer"
role_name analyst = "analyst"
role_name viewer = "viewer"
role_name user = "user"

pub data Status : Type 0 where
  active inactive suspended : Status

abbrev pub status_name : Status → String
status_name active = "active"
status_name inactive = "inactive"
status_name suspended = "suspended"

pub record User : Type 0 where
  pub id : String
  pub username : String
  pub role : Role
  pub organization_id : Option String
  pub status : Status
  pub mfa_enabled : Bool
  pub created_at : String

pub record AuthResponse : Type 0 where
  pub token : String

pub record RegisterResponse : Type 0 where
  pub message : String
  pub user : User

pub data Decision : Type 0 where
  allow deny require_mfa : Decision

abbrev pub decision_name : Decision → String
decision_name allow = "ALLOW"
decision_name deny = "DENY"
decision_name require_mfa = "REQUIRE_MFA"

-- `Omit<Policy, 'id'>`
pub record NewPolicy : Type 0 where
  pub name : String
  pub role : String
  pub application : String
  pub require_mfa : Bool
  pub require_trusted_device : Bool
  pub max_risk_score : ℤ
  pub decision : Decision
  pub enabled : Bool

pub record Policy : Type 0 where
  pub id : String
  pub rule : NewPolicy
  pub open rule use *

pub record AccessCheckRequest : Type 0 where
  pub application : String
  pub device_trusted : Bool
  pub mfa_verified : Bool
  pub risk_score : ℤ

pub record AccessCheckResponse : Type 0 where
  pub decision : Decision
  pub reason : String
  pub policy_id : Option String

pub record AuditEvent : Type 0 where
  pub id : String
  pub user_id : Option String
  pub action : String
  pub resource : Option String
  pub ip_address : Option String
  pub user_agent : Option String
  pub metadata : Option (List (String × String))
  pub timestamp : String

pub record AuditListResponse : Type 0 where
  pub events : Option (List AuditEvent)
  pub total : Option ℕ
  pub page : ℕ
  pub page_size : ℕ

pub record MfaSetupResponse : Type 0 where
  pub secret : String
  pub totp_uri : String
  pub message : String

pub record MfaVerifyResponse : Type 0 where
  pub message : String
  pub mfa_verified : Bool
  pub user_id : String

pub record Application : Type 0 where
  pub id : String
  pub name : String
  pub slug : String
  pub description : String
  pub icon : String
  pub status : String
