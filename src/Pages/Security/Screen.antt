-- ===== src/Pages/Security/Screen.antt =====
-- frontend/src/pages/SecurityPage.tsx: the whole page.
use nexus_cloud_identity_acc.Common.{String, Option, none, some, List, [], ◌∷◌}
use nexus_cloud_identity_acc.Types.{User}
use nexus_cloud_identity_acc.Pages.View.{Heading, Note}
use nexus_cloud_identity_acc.Pages.Security.{SecurityPage, VerifyStatus}
use nexus_cloud_identity_acc.Pages.Security.Card.{Enrolment, enrolment, mfa_badge, status_alert}

-- the controls that the page says are in force
abbrev pub defenses : List Note
defenses =
    record {
      title = "Redis Login Rate Limiter";
      badge = "Sliding Window";
      text =
          "5 failed consecutive authentication attempts from an IP address triggers an automatic 15-minute lockout and fires an audit alert.";
    }
    ∷ record {
      title = "Bcrypt Password Hashing";
      badge = "Work Factor 12";
      text =
          "Adaptive hashing with 4096 rounds prevents offline dictionary attacks. Passwords are never logged or stored in plaintext.";
    }
    ∷ record {
      title = "AWS Secrets Manager Integration";
      badge = "HS256 Key Vault";
      text =
          "JWT signing secrets loaded dynamically from AWS Secrets Manager with zero secrets committed to version control.";
    }
    ∷ []

abbrev alert_for : Option VerifyStatus → Option (String × String)
alert_for none = none
alert_for (some v) = some (status_alert v)

-- A badge is its class and its text.
pub record SecurityScreen : Type 0 where
  pub heading : Heading
  pub card : String
  pub badge : String × String
  pub text : String
  pub enrolment : Enrolment
  pub alert : Option (String × String)
  pub controls : String
  pub operational : String
  pub notes : List Note

unfoldable pub security_screen : Option User → SecurityPage → SecurityScreen
unfolding enrolment mfa_badge status_alert
security_screen u p = record {
  heading = record {
    title = "Multi-Factor Authentication & Security Controls";
    subtitle =
        "RFC 6238 TOTP enrollment, dynamic token verification, and Redis brute-force protection";
  };
  card = "RFC 6238 TOTP Multi-Factor Authentication";
  badge = mfa_badge u;
  text =
      "NEXUS implements standard RFC 6238 Time-based One-Time Passwords using HMAC-SHA1 and dynamic 30-second time steps.";
  enrolment = enrolment p;
  alert = alert_for p.verify_status;
  controls = "Active Defense Controls";
  operational = "Operational";
  notes = defenses;
}
