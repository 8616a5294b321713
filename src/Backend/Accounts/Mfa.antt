-- ===== src/Backend/Accounts/Mfa.antt =====
-- backend/internal/auth/mfa_handler.go. The random bytes are an argument.
use nexus_cloud_identity_acc.Common.{
  ℕ, String, Bool, true, false, Option, none, some, List, [], ◌==◌, ◌||◌, not, nat_eq, ◌+s◌,
  if◌then◌else◌,
}
use nexus_cloud_identity_acc.Types.{MfaSetupResponse, MfaVerifyResponse}
use nexus_cloud_identity_acc.Browser.{Response}
use nexus_cloud_identity_acc.Backend.Http.{failure, reply_message}
use nexus_cloud_identity_acc.Backend.AuditLog.{mfa_success, mfa_failed}
use nexus_cloud_identity_acc.Backend.Totp.{verify_secret}
use nexus_cloud_identity_acc.Backend.Base32.{encode_to_string}
use nexus_cloud_identity_acc.Backend.Accounts.{Account, get_user_by_id}
use nexus_cloud_identity_acc.Backend.Accounts.Service.{Moment, TokenClaims, utf8_length}
use nexus_cloud_identity_acc.Backend.Accounts.Handlers.{Server, logged}

abbrev totp_uri : (username secret : String) → String
totp_uri username secret =
    "otpauth://totp/NEXUS:" +s username +s "?secret=" +s secret
    +s "&issuer=NEXUS&algorithm=SHA1&digits=6&period=30"

-- `generateMFASecret` on what the random generator gave, none where it fails
unfoldable pub generate_mfa_secret : (random : Option (List ℕ)) → Option String
unfolding encode_to_string
generate_mfa_secret none = none
generate_mfa_secret (some bytes) = some (encode_to_string bytes)

-- `MFASetup`, which writes nothing; `secret` is what `generateMFASecret` gave
unfoldable pub mfa_setup_handler :
    Option TokenClaims → (secret : Option String) → Response MfaSetupResponse
mfa_setup_handler none secret = failure 401 "unauthorized"
mfa_setup_handler (some claims) none = failure 500 "failed to generate MFA secret"
mfa_setup_handler (some claims) (some secret) =
    reply_message 200 "Scan the QR code or enter the secret into your authenticator app" (record {
      secret = secret;
      totp_uri = totp_uri claims.username secret;
      message = "Scan the QR code or enter the secret into your authenticator app";
    })

abbrev pub verified : Moment → Account → Option Bool → Server → Response MfaVerifyResponse × Server
verified m u none s = (failure 500 "MFA verification error", s)
verified m u (some false) s = (
  failure 401 "invalid or expired MFA code",
  record s { log = logged m u.id mfa_failed [] s.log },
)
verified m u (some true) s = (
  reply_message 200 "MFA verified successfully"
      (record { message = "MFA verified successfully"; mfa_verified = true; user_id = u.id }),
  record s { log = logged m u.id mfa_success [] s.log },
)

module _ (hmac_sha1 : (key message : List ℕ) → List ℕ) where
  abbrev pub verify_for :
      Moment → (code : String) → Option Account → Server → Response MfaVerifyResponse × Server
  verify_for m code none s = (failure 404 "user not found", s)
  verify_for m code (some u) s =
      if not u.mfa_enabled || u.mfa_secret == ""
      then (failure 400 "MFA is not enabled for this user", s)
      else verified m u (verify_secret hmac_sha1 u.mfa_secret code m.now) s

  -- `MFAVerify`
  unfoldable pub mfa_verify_handler :
      Moment → Option TokenClaims → Option String → Server → Response MfaVerifyResponse × Server
  unfolding utf8_length verify_secret
  mfa_verify_handler m none body s = (failure 401 "unauthorized", s)
  mfa_verify_handler m (some claims) none s = (failure 400 "invalid JSON body", s)
  mfa_verify_handler m (some claims) (some code) s =
      if nat_eq (utf8_length code) 6
      then verify_for m code (get_user_by_id claims.user_id s.store) s
      else (failure 400 "MFA code must be 6 digits", s)
