-- ===== src/Pages/Security/Card.antt =====
-- frontend/src/pages/SecurityPage.tsx: the enrolment card.
use nexus_cloud_identity_acc.Common.{
  String, Bool, true, false, Option, none, some, ◌≡◌, arith, ◌↔◌, truthy, or_else, utf16_length,
  not, if◌then◌else◌,
}
use nexus_cloud_identity_acc.Types.{User}
use nexus_cloud_identity_acc.Pages.Security.{
  SecurityPage, VerifyStatus, shows_form, submit_disabled, type_code, only_digits,
}
use nexus_cloud_identity_acc.Pages.Security.Enrolment.{HasDigits, type_code-HasDigits}

-- the button that asks for a secret, or the secret with the form for a code
pub data Enrolment : Type 0 where
  generate : (disabled : Bool) (label : String) → Enrolment
  code_form : (secret uri code : String) (disabled : Bool) (label : String) → Enrolment

unfoldable pub enrolment : SecurityPage → Enrolment
unfolding shows_form submit_disabled
enrolment p =
    if not (shows_form p)
    then generate p.is_loading
        (if p.is_loading then "Generating Secret..." else "Generate New TOTP Secret")
    else code_form (or_else p.secret "") (or_else p.totp_uri "") p.verify_code (submit_disabled p)
        (if p.is_loading then "Verifying..." else "Verify & Enable MFA")

abbrev is_enrolled : Option User → Bool
is_enrolled none = false
is_enrolled (some u) = u.mfa_enabled

-- the badge of the card, and the alert below the form
unfoldable pub mfa_badge : Option User → String × String
mfa_badge u = if is_enrolled u then ("badge-green", "Enforced") else ("badge-amber", "Not Enrolled")

unfoldable pub status_alert : VerifyStatus → String × String
status_alert v = (if v.success then "alert-success" else "alert-danger", v.message)

-- whether the card has a button that sends a code, and it is enabled
abbrev pub can_verify : Enrolment → Bool
can_verify (generate disabled label) = false
can_verify (code_form secret uri code disabled label) = not disabled

-- After a text is typed into the code field, the button that sends the code is there and enabled
-- exactly when a secret is shown, no request is in flight and the digits of the text are six in
-- number; and the field holds digits alone.
pub can_verify_iff :
    (s : String) (p : SecurityPage)
    → ((can_verify (enrolment (type_code s p)) ≡ true)
        ↔ ((truthy p.secret ≡ true) × (p.is_loading ≡ false) × (utf16_length (only_digits s) ≡ 6)))
      × HasDigits (type_code s p).verify_code
unfolding enrolment type_code
can_verify_iff s p = ((λ h. ground arith, λ h. ground arith), (type_code-HasDigits s p).0)
