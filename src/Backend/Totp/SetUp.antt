-- ===== src/Backend/Totp/SetUp.antt =====
-- From the secret of `MFASetup` to a code that `VerifyTOTP` accepts.
use Prim.Native.String
use nexus_cloud_identity_acc.Common.{ℕ, ◌+◌, ◌≤◌, ◌<◌, String, true, some, List, length, ◌≡◌, All}
use nexus_cloud_identity_acc.Backend.Base32.{encode_to_string}
use nexus_cloud_identity_acc.Backend.Base32.RoundTrip.{IsByte}
use nexus_cloud_identity_acc.Backend.Base32.Secret.{base32_decode-encode_to_string}
use nexus_cloud_identity_acc.Backend.Totp.{generate_for, verify_secret, word}
use nexus_cloud_identity_acc.Backend.Totp.Drift.{generate_totp-verify_totp}

-- `sha1.Size` is 20.
module _ (hmac_sha1 : (key message : List ℕ) → List ℕ)
    (size : (key message : List ℕ) → length (hmac_sha1 key message) ≡ 20) where
  -- From whatever random bytes the secret was encoded, a code is generated from the secret's text at every
  -- time; it has six digits, and is accepted for that text at any time up to 30 seconds earlier or
  -- later.
  pub generate_for-verify_secret :
      (bytes : List ℕ) (at at' : ℕ)
      → All IsByte bytes
      → at ≤ at' + 30
      → at' ≤ at + 30
      → at + 30 < word
      → (code : String) × (generate_for hmac_sha1 (encode_to_string bytes) at ≡ some code)
        × (String.len code ≡ 6)
        × (verify_secret hmac_sha1 (encode_to_string bytes) code at' ≡ some true)
  unfolding generate_for verify_secret
  generate_for-verify_secret bytes at at' are_bytes early late small =
      rw (base32_decode-encode_to_string bytes are_bytes, generate_for, verify_secret)
        (generate_totp-verify_totp hmac_sha1 size bytes at at' early late small)
