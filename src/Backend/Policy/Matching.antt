-- ===== src/Backend/Policy/Matching.antt =====
-- Which policies of backend/internal/policy/engine.go a request matches.
use nexus_cloud_identity_acc.Common.{
  Bool, true, false, ◌==◌, ◌||◌, ◌&&◌, not, ◌≡◌, refl, ◌⊎◌, inl, inr, ◌↔◌, eq_iff, if◌then◌else◌,
}
use nexus_cloud_identity_acc.Types.{Policy}
use nexus_cloud_identity_acc.Backend.Policy.{Request, matches}

-- the three tests, as one answer
passed :
    (enabled own any_role any_application named : Bool)
    → (if not enabled
        then false
        else if not own && not any_role
        then false
        else not (not any_application && not named))
      ≡ (enabled && (own || any_role) && (any_application || named))
passed false own any_role any_application named = refl
passed true true any_role true named = refl
passed true true any_role false true = refl
passed true true any_role false false = refl
passed true false true true named = refl
passed true false true false true = refl
passed true false true false false = refl
passed true false false any_application named = refl

and_iff : (a b : Bool) → ((a && b) ≡ true) ↔ ((a ≡ true) × (b ≡ true))
and_iff true b = (λ h. (refl, h), λ h. h.1)
and_iff false b = (λ h. cc h, λ h. cc h.0)

or_iff : (a b : Bool) → ((a || b) ≡ true) ↔ ((a ≡ true) ⊎ (b ≡ true))
or_iff true b = (λ h. inl refl, λ h. refl)
or_iff false b = (λ h. inr h, λ h. elim h [ inl e ↦ cc e | inr e ↦ e ])

-- A policy matches a request exactly when it is enabled, its role is the request's or `*`, and its
-- application is `*` or the request's.
pub matches_iff :
    (req : Request) (p : Policy)
    → (matches req p ≡ true) ↔ (
        (p.enabled ≡ true)
        × ((p.role ≡ req.role) ⊎ (p.role ≡ "*"))
        × ((p.application ≡ "*") ⊎ (p.application ≡ req.application)))
unfolding matches
matches_iff req p =
    let role = or_iff (p.role == req.role) (p.role == "*") in
    let application = or_iff (p.application == "*") (p.application == req.application) in
    rw
      (passed p.enabled (p.role == req.role) (p.role == "*") (p.application == "*")
        (p.application == req.application))
      (
        λ h.
            let (front, apps) = (and_iff _ _).0 h in
            let (on, roles) = (and_iff _ _).0 front in
            (
              on,
              elim (role.0 roles) [
                | inl e ↦ inl ((eq_iff _ _).0 e)
                | inr e ↦ inr ((eq_iff _ _).0 e)
              ],
              elim (application.0 apps) [
                | inl e ↦ inl ((eq_iff _ _).0 e)
                | inr e ↦ inr ((eq_iff _ _).0 e)
              ],
            ),
        λ (on, roles, apps). (and_iff _ _).1 (
          (and_iff _ _).1 (
            on,
            role.1 (elim roles [ inl e ↦ inl ((eq_iff _ _).1 e) | inr e ↦ inr ((eq_iff _ _).1 e) ]),
          ),
          application.1
              (elim apps [ inl e ↦ inl ((eq_iff _ _).1 e) | inr e ↦ inr ((eq_iff _ _).1 e) ]),
        ),
      )
