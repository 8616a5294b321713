-- ===== src/Backend/Policy/Verdict.antt =====
-- What `Evaluate` of backend/internal/policy/engine.go decides, whatever the order of the map.
use mathlib.Core.List.{Memᴰ}
use nexus_cloud_identity_acc.Common.{
  Bool, true, false, Option, none, some, List, [], ◌∷◌, ◌&&◌, ◌||◌, not, ◌≡◌, ◌≢◌, refl, ◌↔◌,
  filter, if◌then◌else◌, mem-filter_iff,
}
use nexus_cloud_identity_acc.Common.Int.{pos, ltb_ℤ}
use nexus_cloud_identity_acc.Types.{Policy, allow, deny, require_mfa, AccessCheckResponse}
use nexus_cloud_identity_acc.Backend.Policy.{
  Request, matches, check_policy, first_verdict, evaluate, is_deny, decide_matching,
}

-- A policy lets a request pass: the risk is not above a positive maximum, and the device, the second
-- factor and the policy's own decision do not stand against it.
abbrev pub accepts : Request → Policy → Bool
accepts req p =
    not (ltb_ℤ (pos 0) p.max_risk_score && ltb_ℤ p.max_risk_score req.risk_score)
    && (not p.require_trusted_device || req.device_trusted)
    && (not p.require_mfa || req.mfa_verified)
    && not (is_deny p.decision)

-- what one round of the loop tells of a policy that passes, or does not
abbrev Checked : Bool → Option AccessCheckResponse → Type 0
Checked passes none = passes ≡ true
Checked passes (some res) = (passes ≡ false) × (res.decision ≢ allow)

deny-ne-allow : deny ≢ allow
deny-ne-allow e = cc

require_mfa-ne-allow : require_mfa ≢ allow
require_mfa-ne-allow e = cc

-- the four tests of a round, over any answers that do not allow
chain-Checked :
    (risky trusts trusted asks verified denies : Bool) (w x y z : AccessCheckResponse)
    → w.decision ≢ allow
    → x.decision ≢ allow
    → y.decision ≢ allow
    → z.decision ≢ allow
    → Checked (not risky && (not trusts || trusted) && (not asks || verified) && not denies) (
        if risky
        then some w
        else if trusts && not trusted
        then some x
        else if asks && not verified
        then some y
        else if denies
        then some z
        else none)
chain-Checked true trusts trusted asks verified denies w x y z nw nx ny nz = (refl, nw)
chain-Checked false true false asks verified denies w x y z nw nx ny nz = (refl, nx)
chain-Checked false true true true false denies w x y z nw nx ny nz = (refl, ny)
chain-Checked false true true true true true w x y z nw nx ny nz = (refl, nz)
chain-Checked false true true true true false w x y z nw nx ny nz = refl
chain-Checked false true true false verified true w x y z nw nx ny nz = (refl, nz)
chain-Checked false true true false verified false w x y z nw nx ny nz = refl
chain-Checked false false trusted true false denies w x y z nw nx ny nz = (refl, ny)
chain-Checked false false trusted true true true w x y z nw nx ny nz = (refl, nz)
chain-Checked false false trusted true true false w x y z nw nx ny nz = refl
chain-Checked false false trusted false verified true w x y z nw nx ny nz = (refl, nz)
chain-Checked false false trusted false verified false w x y z nw nx ny nz = refl

check_policy-Checked : (req : Request) (p : Policy) → Checked (accepts req p) (check_policy req p)
unfolding check_policy
check_policy-Checked req p =
    chain-Checked (ltb_ℤ (pos 0) p.max_risk_score && ltb_ℤ p.max_risk_score req.risk_score)
      p.require_trusted_device req.device_trusted p.require_mfa req.mfa_verified
      (is_deny p.decision) _ _ _ _ deny-ne-allow deny-ne-allow require_mfa-ne-allow deny-ne-allow

abbrev AllAccept : Request → List Policy → Type 0
AllAccept req ps = (p : Policy) → Memᴰ p ps → accepts req p ≡ true

-- one round and the rest of the loop
go_on :
    (req : Request) (p : Policy) (ps : List Policy) (checked : Option AccessCheckResponse)
    → check_policy req p ≡ checked
    → Checked (accepts req p) checked
    → (((first_verdict req ps).decision ≡ allow) ↔ AllAccept req ps)
    → ((first_verdict req (p ∷ ps)).decision ≡ allow) ↔ AllAccept req (p ∷ ps)
unfolding first_verdict
go_on req p ps none e h ih =
    rw (e, first_verdict)
      (
        λ allowed q m. elim m [ Memᴰ.head same ↦ rw same h | Memᴰ.tail m' ↦ ih.0 allowed q m' ],
        λ every. ih.1 (λ q m. every q (Memᴰ.tail m)),
      )
go_on req p ps (some res) e h ih =
    rw (e, first_verdict)
      (λ allowed q m. elim (h.1 allowed) [ ], λ every. absurd (every p (Memᴰ.head refl)))
  where
    absurd : accepts req p ≡ true → res.decision ≡ allow
    absurd accepted = cc

first_verdict_iff :
    (req : Request) (ps : List Policy)
    → ((first_verdict req ps).decision ≡ allow) ↔ AllAccept req ps
unfolding first_verdict
first_verdict_iff req [] = (λ _ p m. elim m [ ], λ _. refl)
first_verdict_iff req (p ∷ ps) =
    go_on req p ps (check_policy req p) refl (check_policy-Checked req p) (first_verdict_iff req ps)

decide_iff :
    (req : Request) (ps : List Policy)
    → ((decide_matching req ps).decision ≡ allow) ↔ (((p : Policy) × Memᴰ p ps) × AllAccept req ps)
decide_iff req [] = (λ e. elim (deny-ne-allow e) [ ], λ ((p, m), _). elim m [ ])
decide_iff req (p ∷ ps) = (
  λ e. ((p, Memᴰ.head refl), (first_verdict_iff req (p ∷ ps)).0 e),
  λ (_, every). (first_verdict_iff req (p ∷ ps)).1 every,
)

-- The engine allows a request exactly when some policy matches it and every policy that matches it lets
-- it pass. With no matching policy it does not.
pub evaluate-allow_iff :
    (policies : List Policy) (req : Request)
    → ((evaluate policies req).decision ≡ allow) ↔ (
        ((p : Policy) × Memᴰ p policies × (matches req p ≡ true))
        × ((p : Policy) → Memᴰ p policies → matches req p ≡ true → accepts req p ≡ true))
unfolding evaluate
evaluate-allow_iff policies req = (
  λ e.
      let h = (decide_iff req (filter (matches req) policies)).0 e in
      (
        let r = (mem-filter_iff (matches req) h.0.0 policies).0 h.0.1 in (h.0.0, r.0, r.1),
        λ p m k. h.1 p ((mem-filter_iff (matches req) p policies).1 (m, k)),
      ),
  λ ((p, m, k), every). (decide_iff req (filter (matches req) policies)).1 (
    (p, (mem-filter_iff (matches req) p policies).1 (m, k)),
    λ q n. let r = (mem-filter_iff (matches req) q policies).0 n in every q r.0 r.1,
  ),
)

-- A policy that alone matches decides.
pub sole_match_iff :
    (policies : List Policy) (req : Request) (p : Policy)
    → filter (matches req) policies ≡ p ∷ []
    → ((evaluate policies req).decision ≡ allow) ↔ (accepts req p ≡ true)
unfolding evaluate
sole_match_iff policies req p e =
    let h = first_verdict_iff req (p ∷ []) in
    rw e (
      λ allowed. h.0 allowed p (Memᴰ.head refl),
      λ accepted.
          h.1 (λ q m. elim m [ Memᴰ.head same ↦ rw same accepted | Memᴰ.tail n ↦ elim n [ ] ]),
    )

abbrev pub Allowed : List Policy → Request → Type 0
Allowed policies req =
    ((p : Policy) × Memᴰ p policies × (matches req p ≡ true))
    × ((p : Policy) → Memᴰ p policies → matches req p ≡ true → accepts req p ≡ true)

carry :
    (xs ys : List Policy) (req : Request)
    → ((p : Policy) → Memᴰ p xs ↔ Memᴰ p ys)
    → Allowed xs req
    → Allowed ys req
carry xs ys req same ((p, m, k), every) = ((p, (same p).0 m, k), λ q n. every q ((same q).1 n))

-- Whether the engine allows a request does not depend on the order in which the map is walked: two lists
-- with the same policies allow the same requests.
pub evaluate-allow_order :
    (xs ys : List Policy) (req : Request)
    → ((p : Policy) → Memᴰ p xs ↔ Memᴰ p ys)
    → ((evaluate xs req).decision ≡ allow) ↔ ((evaluate ys req).decision ≡ allow)
evaluate-allow_order xs ys req same = (
  λ e. (evaluate-allow_iff ys req).1 (carry xs ys req same ((evaluate-allow_iff xs req).0 e)),
  λ e.
      (evaluate-allow_iff xs req).1
        (carry ys xs req (λ p. ((same p).1, (same p).0)) ((evaluate-allow_iff ys req).0 e)),
)

-- Of two matching policies, one that only lacks the second factor and one whose maximum the
-- request's risk exceeds, the engine answers by the one that the map yields first: REQUIRE_MFA in
-- one order, DENY in the other.
pub evaluate-first :
    (p q : Policy) (req : Request)
    → matches req p ≡ true
    → matches req q ≡ true
    → (ltb_ℤ (pos 0) p.max_risk_score && ltb_ℤ p.max_risk_score req.risk_score) ≡ false
    → (p.require_trusted_device && not req.device_trusted) ≡ false
    → (p.require_mfa && not req.mfa_verified) ≡ true
    → (ltb_ℤ (pos 0) q.max_risk_score && ltb_ℤ q.max_risk_score req.risk_score) ≡ true
    → ((evaluate (p ∷ q ∷ []) req).decision ≡ require_mfa)
      × ((evaluate (q ∷ p ∷ []) req).decision ≡ deny)
unfolding evaluate first_verdict check_policy
evaluate-first p q req mp mq low device factor high =
    rw (mp, mq, first_verdict, check_policy, low, device, factor, high) (refl, refl)
