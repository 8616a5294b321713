-- ===== src/Backend/Policy/Defaults.antt =====
-- `NewEngine` and `seedDefaults` of backend/internal/policy/engine.go: the policies that a server starts
-- with, and what they allow.
use nexus_cloud_identity_acc.Common.{
  String, Bool, true, false, List, [], ◌∷◌, ◌==◌, ◌&&◌, ◌||◌, not, ◌≡◌, refl, sym, ◌↔◌, Bool-cases,
  filter, ◌∙◌, eq_iff, inl, inr,
}
use nexus_cloud_identity_acc.Common.Int.{ℤ, pos, ltb_ℤ}
use nexus_cloud_identity_acc.Types.{allow, NewPolicy, Policy}
use nexus_cloud_identity_acc.Backend.Policy.Verdict.{sole_match_iff}
use nexus_cloud_identity_acc.Backend.Policy.{
  Request, matches, check_policy, first_verdict, evaluate, get_policy, put_policy,
}

abbrev pub developer_default : NewPolicy
developer_default = record {
  name = "Developer AWS Console Access";
  role = "developer";
  application = "aws-console";
  require_mfa = true;
  require_trusted_device = true;
  max_risk_score = pos 70;
  decision = allow;
  enabled = true;
}

abbrev pub admin_default : NewPolicy
admin_default = record {
  name = "Admin Full Access";
  role = "admin";
  application = "*";
  require_mfa = true;
  require_trusted_device = false;
  max_risk_score = pos 50;
  decision = allow;
  enabled = true;
}

abbrev pub viewer_default : NewPolicy
viewer_default = record {
  name = "Viewer Read-Only";
  role = "viewer";
  application = "*";
  require_mfa = false;
  require_trusted_device = false;
  max_risk_score = pos 0;
  decision = allow;
  enabled = true;
}

-- the three results of `uuid.New()` are arguments
unfoldable pub new_engine : (first second third : String) → List Policy
unfolding put_policy
new_engine first second third =
    put_policy (record { id = third; rule = viewer_default })
      (put_policy (record { id = second; rule = admin_default })
        (put_policy (record { id = first; rule = developer_default }) []))

-- ids that differ
abbrev pub Differ : (first second third : String) → Type 0
Differ first second third =
    ((first == second) ≡ false) × ((second == third) ≡ false) × ((first == third) ≡ false)

abbrev pub defaults : (first second third : String) → List Policy
defaults first second third =
    record { id = third; rule = viewer_default }
    ∷ record { id = second; rule = admin_default }
    ∷ record { id = first; rule = developer_default }
    ∷ []

pub new_engine-defaults :
    (first second third : String)
    → Differ first second third
    → new_engine first second third ≡ defaults first second third
unfolding new_engine put_policy get_policy
new_engine-defaults first second third (a, b, c) = rw (a, b, c) refl

-- what the default policies let pass
abbrev pub default_allows : Request → Bool
default_allows req =
    req.role == "viewer"
    || (req.role == "admin" && req.mfa_verified && not (ltb_ℤ (pos 50) req.risk_score))
    || (req.role == "developer"
        && req.application == "aws-console"
        && req.device_trusted
        && req.mfa_verified
        && not (ltb_ℤ (pos 70) req.risk_score))

abbrev pub asks : (role app : String) (trusted mfa : Bool) (risk : ℤ) → Request
asks role app trusted mfa risk = record {
  role = role;
  application = app;
  device_trusted = trusted;
  mfa_verified = mfa;
  risk_score = risk;
}

abbrev pub Decides : (first second third : String) → Request → Type 0
Decides first second third req =
    ((evaluate (defaults first second third) req).decision ≡ allow) ↔ (default_allows req ≡ true)

flip_false : (a b : String) → (a == b) ≡ false → (b == a) ≡ false
flip_false a b h = elim (Bool-cases (b == a)) [
  | inl k ↦ let e = (eq_iff a b).1 (sym ((eq_iff b a).0 k)) in cc
  | inr k ↦ k
]

carry : {P : Type 0} {a b : Bool} → P ↔ (a ≡ true) → a ≡ b → P ↔ (b ≡ true)
carry h e = (λ x. sym e ∙ h.0 x, λ y. h.1 (e ∙ y))

admin_tests :
    (mfa risky : Bool) → (not risky && true && mfa && true) ≡ ((mfa && not risky) || false)
admin_tests true true = refl
admin_tests true false = refl
admin_tests false true = refl
admin_tests false false = refl

developer_tests :
    (trusted mfa risky : Bool)
    → (not risky && trusted && mfa && true) ≡ (trusted && mfa && not risky)
developer_tests true true true = refl
developer_tests true true false = refl
developer_tests true false true = refl
developer_tests true false false = refl
developer_tests false _ true = refl
developer_tests false _ false = refl

module _ (first second third app : String) (risk : ℤ) (trusted mfa : Bool) where
  viewer_case : Decides first second third (asks "viewer" app trusted mfa risk)
  unfolding evaluate matches first_verdict check_policy
  viewer_case = (λ h. refl, λ h. refl)

  admin_case : Decides first second third (asks "admin" app trusted mfa risk)
  unfolding matches
  admin_case =
      carry
        (sole_match_iff (defaults first second third) (asks "admin" app trusted mfa risk)
          (record { id = second; rule = admin_default }) refl)
        (admin_tests mfa (ltb_ℤ (pos 50) risk))

  developer_match :
      (app == "aws-console") ≡ true
      → filter (matches (asks "developer" app trusted mfa risk)) (defaults first second third)
        ≡ record { id = first; rule = developer_default } ∷ []
  unfolding matches
  developer_match h = rw ((eq_iff app "aws-console").0 h) refl

  developer_case : Decides first second third (asks "developer" app trusted mfa risk)
  developer_case = elim (Bool-cases (app == "aws-console")) [
    | inl h ↦
        carry
          (sole_match_iff (defaults first second third) (asks "developer" app trusted mfa risk)
            (record { id = first; rule = developer_default }) (developer_match h))
          (rw h (developer_tests trusted mfa (ltb_ℤ (pos 70) risk)))
    | inr h ↦ (unfold evaluate matches in rw (flip_false app _ h, h) (λ e. cc, λ e. cc))
  ]

  other_case :
      (role : String)
      → (role == "viewer") ≡ false
      → (role == "admin") ≡ false
      → (role == "developer") ≡ false
      → Decides first second third (asks role app trusted mfa risk)
  unfolding evaluate matches
  other_case role v a d =
      rw (flip_false role _ v, flip_false role _ a, flip_false role _ d, v, a, d) (λ h. cc, λ h. cc)

  pub default_case : (role : String) → Decides first second third (asks role app trusted mfa risk)
  default_case role = elim (Bool-cases (role == "viewer")) [
    | inl v ↦ rw ((eq_iff role "viewer").0 v) viewer_case
    | inr v ↦ elim (Bool-cases (role == "admin")) [
      | inl a ↦ rw ((eq_iff role "admin").0 a) admin_case
      | inr a ↦ elim (Bool-cases (role == "developer")) [
        | inl d ↦ rw ((eq_iff role "developer").0 d) developer_case
        | inr d ↦ other_case role v a d
      ]
    ]
  ]

-- A new engine, whose three ids differ, allows exactly these requests: every one of a viewer; those of an
-- admin with the second factor verified, at a risk of at most 50; and those of a developer for
-- `aws-console` from a trusted device with the second factor verified, at a risk of at most 70.
pub evaluate-new_engine_iff :
    (first second third : String) (req : Request)
    → Differ first second third
    → ((evaluate (new_engine first second third) req).decision ≡ allow)
      ↔ (default_allows req ≡ true)
evaluate-new_engine_iff first second third req differ =
    rw (new_engine-defaults first second third differ) (
      default_case first second third req.application req.risk_score req.device_trusted
        req.mfa_verified req.role)
