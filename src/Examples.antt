-- ===== src/Examples.antt =====
-- A server and a user, on which the theorems are applied.
mod Session
mod Client
mod Screens
mod Script
mod Engine
mod Live
mod Log
mod Codes
mod Accounts
mod Registration
mod Store
mod Events
mod Edge
use nexus_cloud_identity_acc.Common.{
  ℕ, String, Bool, true, false, Option, none, some, List, [], ◌∷◌,
}
use nexus_cloud_identity_acc.Common.Int.{pos}
use nexus_cloud_identity_acc.Browser.{
  Decoded, Fetched, resolved, Resource, registered, auth, profile, demo, users, policies, policy,
  message, access, mfa_setup, mfa_verify, audit, health, Body, Network, Env,
}
use nexus_cloud_identity_acc.Types.{
  User, analyst, active, allow, NewPolicy, Policy, AccessCheckResponse, AuditEvent,
}
use nexus_cloud_identity_acc.Auth
use nexus_cloud_identity_acc.Auth.{App}

abbrev pub ada : User
ada = record {
  id = "u-1";
  username = "ada";
  role = analyst;
  organization_id = none;
  status = active;
  mfa_enabled = false;
  created_at = "2026-01-02T03:04:05Z";
}

abbrev pub console_rule : NewPolicy
console_rule = record {
  name = "Console";
  role = "analyst";
  application = "aws-console";
  require_mfa = true;
  require_trusted_device = true;
  max_risk_score = pos 70;
  decision = allow;
  enabled = true;
}

abbrev pub granted_access : AccessCheckResponse
granted_access = record { decision = allow; reason = "access granted by policy"; policy_id = none }

abbrev pub sent : {T : Type 0} → T → Fetched T
sent v =
    resolved (record {
      status = 200;
      body = some (record { value = some v; error = none; message = none });
    })

abbrev pub answers : (r : Resource) → Fetched (Body r)
answers registered = sent (record { message = "created"; user = ada })
answers auth = sent (record { token = "a.b.c" })
answers profile = sent ada
answers demo = sent (record { message = "welcome"; user = "ada"; role = "analyst" })
answers users = sent (record { users = ada ∷ []; count = some 1 })
answers policies =
    sent (record { policies = record { id = "p-1"; rule = console_rule } ∷ []; count = 1 })
answers policy = sent (record { id = "p-2"; rule = console_rule })
answers message = sent (record { message = "deleted" })
answers access = sent granted_access
answers mfa_setup = sent (record { secret = "S"; totp_uri = "otpauth://totp/S"; message = "scan" })
answers mfa_verify = sent (record { message = "verified"; mfa_verified = true; user_id = "u-1" })
answers audit = sent (record { events = some []; total = some 0; page = 1; page_size = 20 })
answers health = sent (record { status = "ok"; service = "nexus" })

-- grants everything, and counts its requests
abbrev pub server : Network ℕ
server = record { fetch = λ r req w. (answers r, ℕ.suc w) }

-- a tab that holds a token
abbrev pub env : Env ℕ
env = record { world = 0; storage = some "old"; token = some "old" }

abbrev pub tab : App ℕ
tab = record { env = env; session = record { user = none; token = some "old"; is_loading = false } }
