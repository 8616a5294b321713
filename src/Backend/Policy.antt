-- ===== src/Backend/Policy.antt =====
-- backend/internal/policy/engine.go. The map of policies is a list, with one policy for an id; Go walks
-- a map in no fixed order, so what `Evaluate` returns is stated for every order of the list. The lock
-- makes each method one step.
pub mod Verdict
pub mod Matching
pub mod Store
pub mod Defaults
use nexus_cloud_identity_acc.Common.{
  ℕ, String, Bool, true, false, Option, none, some, List, [], ◌∷◌, ◌==◌, ◌+s◌, ◌&&◌, ◌||◌, filter,
  not, find, any, if◌then◌else◌, show, is_some,
}
use nexus_cloud_identity_acc.Common.Int.{ℤ, pos, negsuc, ltb_ℤ}
use nexus_cloud_identity_acc.Types.{
  Decision, allow, deny, require_mfa, NewPolicy, Policy, AccessCheckResponse,
}

-- the fields of `Request` that `Evaluate` reads
pub record Request : Type 0 where
  pub role : String
  pub application : String
  pub device_trusted : Bool
  pub mfa_verified : Bool
  pub risk_score : ℤ

abbrev is_deny : Decision → Bool
is_deny deny = true
is_deny _ = false

abbrev show_int : ℤ → String
show_int (pos n) = show n
show_int (negsuc n) = "-" +s show (ℕ.suc n)

-- the `continue`s of the first loop
unfoldable pub matches : Request → Policy → Bool
matches req p =
    if not p.enabled
    then false
    else if not (p.role == req.role) && not (p.role == "*")
    then false
    else not (not (p.application == "*") && not (p.application == req.application))

abbrev verdict : Decision → String → Policy → Option AccessCheckResponse
verdict d reason p = some (record { decision = d; reason = reason; policy_id = some p.id })

-- one round of the second loop: none goes on
unfoldable pub check_policy : Request → Policy → Option AccessCheckResponse
check_policy req p =
    if ltb_ℤ (pos 0) p.max_risk_score && ltb_ℤ p.max_risk_score req.risk_score
    then verdict deny
        ("risk score "
          +s show_int req.risk_score
          +s " exceeds policy maximum of "
          +s show_int p.max_risk_score)
        p
    else if p.require_trusted_device && not req.device_trusted
    then verdict deny "trusted device required by policy" p
    else if p.require_mfa && not req.mfa_verified
    then verdict require_mfa "MFA verification required by policy" p
    else if is_deny p.decision
    then verdict deny ("policy '" +s p.name +s "' explicitly denies access") p
    else none

unfoldable pub first_verdict : Request → List Policy → AccessCheckResponse
first_verdict req [] = record {
  decision = allow;
  reason = "access granted by policy";
  policy_id = none;
}
first_verdict req (p ∷ ps) =
    let rest = first_verdict req ps in elim (check_policy req p) [ none ↦ rest | some res ↦ res ]

abbrev no_match : Request → AccessCheckResponse
no_match req = record {
  decision = deny;
  reason = "no policy grants role '" +s req.role +s "' access to '" +s req.application +s "'";
  policy_id = none;
}

abbrev decide_matching : Request → List Policy → AccessCheckResponse
decide_matching req [] = no_match req
decide_matching req (p ∷ ps) = first_verdict req (p ∷ ps)

unfoldable pub evaluate : List Policy → Request → AccessCheckResponse
unfolding matches first_verdict check_policy
evaluate policies req = decide_matching req (filter (matches req) policies)

unfoldable pub get_policy : String → List Policy → Option Policy
get_policy id policies = find (λ p. p.id == id) policies

replace : Policy → List Policy → List Policy
replace q [] = []
replace q (p ∷ ps) = if p.id == q.id then q ∷ ps else p ∷ replace q ps

-- `e.policies[p.ID] = p`
unfoldable pub put_policy : Policy → List Policy → List Policy
unfolding get_policy replace
put_policy p policies =
    if is_some (get_policy p.id policies) then replace p policies else p ∷ policies

-- `CreatePolicy`; `uuid.New()` is an argument
unfoldable pub create_policy : String → NewPolicy → List Policy → Policy × List Policy
unfolding put_policy
create_policy id rule policies =
    let p : Policy = record { id = id; rule = rule } in (p, put_policy p policies)

-- `ListPolicies`: the copies that it makes are the policies
abbrev pub all_policies : List Policy → List Policy
all_policies policies = policies

-- none is the error "policy not found"
unfoldable pub update_policy : Policy → List Policy → Option (List Policy)
unfolding replace get_policy
update_policy q policies =
    if is_some (get_policy q.id policies) then some (replace q policies) else none

unfoldable pub delete_policy : String → List Policy → Option (List Policy)
unfolding get_policy
delete_policy id policies =
    if is_some (get_policy id policies)
    then some (filter (λ p. not (p.id == id)) policies)
    else none
