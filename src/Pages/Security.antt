-- ===== src/Pages/Security.antt =====
-- frontend/src/pages/SecurityPage.tsx: enrolment in multi-factor authentication.
pub mod Enrolment
pub mod Card
pub mod Screen
use Prim.Native.Char.{code}
use Prim.Native.String
use nexus_cloud_identity_acc.Common.{
  ℕ, String, Bool, true, false, Option, none, some, leb, nat_eq, ◌&&◌, ◌||◌, not, utf16_length,
  truthy, if◌then◌else◌,
}
use nexus_cloud_identity_acc.Browser.{
  Thrown, error_of, other_value, Result, ok, thrown, Network, Env, ◌>>=◌,
}
use nexus_cloud_identity_acc.Types.{MfaSetupResponse, MfaVerifyResponse, User}
use nexus_cloud_identity_acc.Api
use nexus_cloud_identity_acc.Auth.{App, call, refresh_profile}

pub record VerifyStatus : Type 0 where
  pub success : Bool
  pub message : String

pub record SecurityPage : Type 0 where
  pub secret : Option String
  pub totp_uri : Option String
  pub verify_code : String
  pub verify_status : Option VerifyStatus
  pub is_loading : Bool

unfoldable pub security_page : SecurityPage
security_page = record {
  secret = none;
  totp_uri = none;
  verify_code = "";
  verify_status = none;
  is_loading = false;
}

abbrev pub failed : Thrown → Option VerifyStatus → Option VerifyStatus
failed (error_of m) old = some (record { success = false; message = m })
failed other_value old = old

unfoldable pub mfa_started : SecurityPage → SecurityPage
mfa_started p = record p { is_loading = true; verify_status = none }

unfoldable pub setup_ended : Result MfaSetupResponse → SecurityPage → SecurityPage
setup_ended (ok res) p = record p {
  secret = some res.secret;
  totp_uri = some res.totp_uri;
  is_loading = false;
}
setup_ended (thrown e) p = record p { verify_status = failed e p.verify_status; is_loading = false }

unfoldable pub verify_ended : Result MfaVerifyResponse → SecurityPage → SecurityPage
verify_ended (ok res) p = record p {
  verify_status = some (record { success = true; message = res.message });
  verify_code = "";
  is_loading = false;
}
verify_ended (thrown e) p = record p {
  verify_status = failed e p.verify_status;
  is_loading = false;
}

-- `s.replace(/\D/g, '')`
unfoldable pub only_digits : String → String
only_digits String.[] = String.[]
only_digits (String.◌∷◌ c s) =
    let rest = only_digits s in
    if leb b'0' (code c) && leb (code c) b'9' then String.◌∷◌ c rest else rest

unfoldable pub type_code : String → SecurityPage → SecurityPage
unfolding only_digits
type_code s p = record p { verify_code = only_digits s }

-- the button of the code form
unfoldable pub submit_disabled : SecurityPage → Bool
submit_disabled p = p.is_loading || not (nat_eq (utf16_length p.verify_code) 6)

-- what stands on the card: the button that asks for a secret, or the secret with the code form
unfoldable pub shows_form : SecurityPage → Bool
shows_form p = truthy p.secret

module _ {W : Type 0} (net : Network W) where
  unfoldable pub setup_mfa : SecurityPage → App W → SecurityPage × App W
  unfolding mfa_started setup_ended
  setup_mfa p a =
      let (r, env) = (Api.setup_mfa net >>= Api.not_null) a.env in
      (setup_ended r (mfa_started p), record a { env = env })

  -- `await refreshProfile()` stands under the `try`, and never throws
  abbrev refresh_if : Result MfaVerifyResponse → App W → App W
  refresh_if (ok res) a = refresh_profile net a
  refresh_if (thrown e) a = a

  unfoldable pub verify_mfa : SecurityPage → App W → SecurityPage × App W
  unfolding mfa_started verify_ended
  verify_mfa p a =
      let (r, env) = (Api.verify_mfa net p.verify_code >>= Api.not_null) a.env in
      (verify_ended r (mfa_started p), refresh_if r (record a { env = env }))
