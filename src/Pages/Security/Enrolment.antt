-- ===== src/Pages/Security/Enrolment.antt =====
-- What enrolment leaves behind.
use Prim.Native.Char.{code}
use mathlib.Core.Path.{subst}
use nexus_cloud_identity_acc.Common.{◌≤◌, String, true, false, none, some, ◌≡◌, refl, arith, ◌↔◌}
use nexus_cloud_identity_acc.Browser.{Result, ok, thrown, Network, ◌>>=◌}
use nexus_cloud_identity_acc.Types.{MfaVerifyResponse}
use nexus_cloud_identity_acc.Api
use nexus_cloud_identity_acc.Auth.{App, fetch_profile, refresh_profile}
use nexus_cloud_identity_acc.Pages.Security.{
  SecurityPage, only_digits, type_code, verify_mfa, failed, verify_ended, mfa_started, refresh_if,
}

abbrev pub HasDigits : String → Type 0
HasDigits String.[] = Unit
HasDigits (String.◌∷◌ c s) = (b'0' ≤ code c) × (code c ≤ b'9') × HasDigits s

only_digits-HasDigits : (s : String) → HasDigits (only_digits s)
unfolding only_digits
only_digits-HasDigits String.[] = tt
only_digits-HasDigits (String.◌∷◌ c s) = ground (arith, only_digits-HasDigits s)

only_digits_of_HasDigits : (s : String) → HasDigits s → only_digits s ≡ s
unfolding only_digits
only_digits_of_HasDigits String.[] h = refl
only_digits_of_HasDigits (String.◌∷◌ c s) (lo, hi, h) = ground (arith, only_digits_of_HasDigits s h)

-- Whatever is typed, the code field holds digits alone, and it holds the text as typed exactly when
-- that is of digits alone.
pub type_code-HasDigits :
    (s : String) (p : SecurityPage)
    → HasDigits (type_code s p).verify_code × (HasDigits s ↔ ((type_code s p).verify_code ≡ s))
unfolding type_code
type_code-HasDigits s p = (
  only_digits-HasDigits s,
  (only_digits_of_HasDigits s, λ e. subst HasDigits e (only_digits-HasDigits s)),
)

module _ {W : Type 0} (net : Network W) where
  -- what the card says after the server's answer to a code
  abbrev pub Verified :
      SecurityPage → App W → Result MfaVerifyResponse → SecurityPage × App W → Type 0
  Verified p b (ok res) (p', a') =
      (p'.verify_status ≡ some (record { success = true; message = res.message }))
      × (p'.verify_code ≡ "")
      × (a' ≡ fetch_profile net b)
  Verified p b (thrown e) (p', a') =
      (p'.verify_status ≡ failed e none) × (p'.verify_code ≡ p.verify_code) × (a' ≡ b)

  verified :
      (p : SecurityPage) (b : App W) (r : Result MfaVerifyResponse)
      → Verified p b r (verify_ended r (mfa_started p), refresh_if net r b)
  unfolding verify_ended mfa_started refresh_profile
  verified p b (ok res) = (refl, refl, refl)
  verified p b (thrown e) = (refl, refl, refl)

  -- A code that the server takes is shown as a success, is cleared, and the profile is fetched anew; one
  -- that it refuses stays in the field, and the session is as it was. The secret is kept, and the card
  -- is no longer waiting.
  pub verify_mfa-Verified :
      (p : SecurityPage) (a : App W)
      → let (r, env) = (Api.verify_mfa net p.verify_code >>= Api.not_null) a.env in
        let x = verify_mfa net p a in
        Verified p (record a { env = env }) r x × (x.0.secret ≡ p.secret) × (x.0.is_loading ≡ false)
  unfolding verify_mfa
  verify_mfa-Verified p a =
      let (r, env) = (Api.verify_mfa net p.verify_code >>= Api.not_null) a.env in
      (verified p (record a { env = env }) r, ground arith, ground arith)
