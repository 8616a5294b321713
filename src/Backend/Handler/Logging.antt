-- ===== src/Backend/Handler/Logging.antt =====
-- What backend/internal/policy/handler.go writes to the audit log.
use nexus_cloud_identity_acc.Common.{
  ℕ, String, true, false, Option, none, some, List, [], ◌∷◌, ◌++◌, ◌≡◌, refl, ◌==◌, ◌||◌, ◌⊎◌, inl,
  inr, Bool-cases,
}
use nexus_cloud_identity_acc.Browser.{Response, is_ok}
use nexus_cloud_identity_acc.Types.{Policy, NewPolicy, AccessCheckRequest}
use nexus_cloud_identity_acc.Backend.Policy.{create_policy, delete_policy}
use nexus_cloud_identity_acc.Backend.Handler.{
  Claims, Entry, Server, check_access, add_policy, remove_policy, deleted,
}

-- what the handlers are asked for
pub data Call : Type 0 where
  checks_access : Option AccessCheckRequest → Call
  creates_policy : (id : String) → Option NewPolicy → Call
  deletes_policy : (id : String) → Call

abbrev pub status_of : {T : Type 0} → Response T × Server → ℕ × Server
status_of (res, s) = (res.status, s)

-- the status of the answer, and the server afterwards
pub serve : Claims → Call → Server → ℕ × Server
serve claims (checks_access body) s = status_of (check_access (some claims) body s)
serve claims (creates_policy id body) s = status_of (add_policy claims id body s)
serve claims (deletes_policy id) s = status_of (remove_policy claims id s)

-- A call is logged once, under its user; one that fails leaves everything as it was.
abbrev pub Audited : Claims → Server → ℕ × Server → Type 0
Audited claims s (status, s') =
    ((is_ok status ≡ true)
      × (e : Entry) × (s'.log ≡ s.log ++ e ∷ [])
      × (e.user_id ≡ claims.user_id))
    ⊎ ((is_ok status ≡ false) × (s' ≡ s))

deleted-Audited :
    (claims : Claims) (id : String) (r : Option (List Policy)) (s : Server)
    → Audited claims s (status_of (deleted claims id r s))
deleted-Audited claims id none s = inr (refl, refl)
deleted-Audited claims id (some policies) s = inl (refl, _, refl, refl)

-- Every access check, creation and deletion by a caller with claims either answers with a status
-- from 200 to 299 and appends exactly one entry, under the caller's id, to the audit log; or answers
-- with another status and changes neither the policies nor the log.
pub serve-Audited : (claims : Claims) (c : Call) (s : Server) → Audited claims s (serve claims c s)
unfolding serve check_access add_policy remove_policy
serve-Audited claims (checks_access none) s = inr (refl, refl)
serve-Audited claims (checks_access (some req)) s = elim (Bool-cases (req.application == "")) [
  | inl e ↦ rw e (inr (refl, refl))
  | inr e ↦ rw e (inl (refl, _, refl, refl))
]
serve-Audited claims (creates_policy id none) s = inr (refl, refl)
serve-Audited claims (creates_policy id (some rule)) s =
    elim (Bool-cases (rule.name == "" || rule.application == "")) [
      | inl e ↦ rw e (inr (refl, refl))
      | inr e ↦ rw e (unfold create_policy in inl (refl, _, refl, refl))
    ]
serve-Audited claims (deletes_policy id) s = elim (Bool-cases (id == "")) [
  | inl e ↦ rw e (inr (refl, refl))
  | inr e ↦ rw e (deleted-Audited claims id (delete_policy id s.policies) s)
]
