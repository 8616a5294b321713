-- ===== src/TotpScript/Agreement.antt =====
-- The script beside backend/internal/auth/totp.go, and the codes of other lengths that it takes.

use nexus_cloud_identity_acc.Common.{
  ℕ, suc, ◌+◌, ◌-◌, ◌/◌, ◌%◌, ◌<◌, ◌≤◌, String, Bool, true, Option, none, some, List, [], ◌∷◌, ◌==◌,
  ltb, length, all, map, arith, ◌≡◌, refl, ap, ◌∙◌, sym, All, if◌then◌else◌, eq_refl,
}
use nexus_cloud_identity_acc.Backend.Base32.{codes, encode_to_string}
use nexus_cloud_identity_acc.Backend.Base32.RoundTrip.{IsByte}
use nexus_cloud_identity_acc.Backend.Base32.Secret
use nexus_cloud_identity_acc.Backend.Totp.{
  big_endian, last_or, uint32_at, code_of, truncated, window, word, generate_for, verify_secret,
}
use nexus_cloud_identity_acc.Backend.Totp
use nexus_cloud_identity_acc.TotpScript.{
  otp_of, otp, is_ascii, counters, compared, hotp, verify_from, generate_totp, verify_totp,
}
use nexus_cloud_identity_acc.TotpScript.Decoding.{base32_decode-encode_to_string}
use nexus_cloud_identity_acc.TotpScript.Digits.{otp_total}

otp_of-code_of : (o : Option ℕ) → otp_of 6 o ≡ code_of 6 o
otp_of-code_of none = refl
otp_of-code_of (some n) = refl

otp-truncated : (h : List ℕ) → otp 6 h ≡ truncated 6 h
otp-truncated [] = refl
otp-truncated (x ∷ xs) = otp_of-code_of (uint32_at (last_or x xs % 16) (x ∷ xs))

-- the counters of the window, where none is negative or too large
counters-window : (n : ℕ) → 1 ≤ n → n + 1 < word → counters 1 n 0 3 ≡ map some (window n)
counters-window n l small = ground arith

compared-ascii :
    (code : String) (o : Option String) (rest : Option Bool)
    → all is_ascii (codes code) ≡ true
    → compared code o rest
      ≡ elim o [ none ↦ none | some expected ↦ if expected == code then some true else rest ]
compared-ascii code none rest h = refl
compared-ascii code (some expected) rest h = rw h refl

module _ (hmac_sha1 : (key message : List ℕ) → List ℕ) where
  hotp-eq :
      (key : List ℕ) (c : ℕ)
      → c < word
      → hotp hmac_sha1 key (some c) 6 ≡ Totp.hotp hmac_sha1 key c 6
  unfolding hotp Totp.hotp
  hotp-eq key c l =
      let fits : ltb c word ≡ true = ground arith in
      rw fits (otp-truncated (hmac_sha1 key (big_endian 8 c)))

  verify_from-eq :
      (key : List ℕ) (code : String) (cs : List ℕ)
      → all is_ascii (codes code) ≡ true
      → length (codes code) ≡ 6
      → All (λ c. c < word) cs
      → verify_from hmac_sha1 key code (map some cs) ≡ Totp.verify_from hmac_sha1 key code cs
  unfolding verify_from Totp.verify_from
  verify_from-eq key code [] ascii six h = refl
  verify_from-eq key code (c ∷ cs) ascii six (l, h) =
      ap
        (λ n.
          compared code (hotp hmac_sha1 key (some c) n)
            (verify_from hmac_sha1 key code (map some cs)))
        six
      ∙ ap (λ o. compared code o (verify_from hmac_sha1 key code (map some cs))) (hotp-eq key c l)
      ∙ ap (compared code (Totp.hotp hmac_sha1 key c 6)) (verify_from-eq key code cs ascii six h)
      ∙ compared-ascii code (Totp.hotp hmac_sha1 key c 6) (Totp.verify_from hmac_sha1 key code cs)
          ascii

module _ (hmac_sha1 : (key message : List ℕ) → List ℕ) where
  -- where the key is read, the answer is that of the loop
  verify_secret-key :
      (bytes : List ℕ) (code : String) (at : ℕ)
      → All IsByte bytes
      → verify_secret hmac_sha1 (encode_to_string bytes) code at
        ≡ Totp.verify_from hmac_sha1 bytes code (window (at / 30))
  unfolding verify_secret Totp.verify_totp
  verify_secret-key bytes code at h =
      rw (Secret.base32_decode-encode_to_string bytes h, verify_secret) refl

  module _ (upper : List ℕ → List ℕ)
      (upper_stays : (cs : List ℕ) → All (λ c. c < 97) cs → upper cs ≡ cs) where
    verify_totp-key :
        (b : ℕ) (bytes : List ℕ) (code : String) (at : ℕ)
        → All IsByte (b ∷ bytes)
        → 30 ≤ at
        → at + 30 < word
        → verify_totp upper hmac_sha1 (encode_to_string (b ∷ bytes)) code 30 1 at
          ≡ verify_from hmac_sha1 (b ∷ bytes) code (map some (window (at / 30)))
    unfolding verify_totp
    verify_totp-key b bytes code at h late small =
        rw (base32_decode-encode_to_string upper upper_stays b bytes h, verify_totp)
          (ap (verify_from hmac_sha1 (b ∷ bytes) code)
            (counters-window (at / 30) (omega arith) (omega arith)))

    generate_totp-eq-generate_for :
        (b : ℕ) (bytes : List ℕ) (at : ℕ)
        → All IsByte (b ∷ bytes)
        → at + 30 < word
        → generate_totp upper hmac_sha1 (encode_to_string (b ∷ bytes)) 30 6 at
          ≡ generate_for hmac_sha1 (encode_to_string (b ∷ bytes)) at
    unfolding generate_totp generate_for Totp.generate_totp
    generate_totp-eq-generate_for b bytes at h small =
        rw
          (
            base32_decode-encode_to_string upper upper_stays b bytes h,
            generate_totp,
            Secret.base32_decode-encode_to_string (b ∷ bytes) h,
            generate_for,
          )
          (hotp-eq hmac_sha1 (b ∷ bytes) (at / 30) (omega arith))

    -- On a secret that was encoded from at least one byte, the script with its defaults generates the code
    -- of `GenerateTOTP`, and its verification of a code of six characters of ASCII answers what
    -- `VerifyTOTP` answers, from second 30 on.
    pub answers_as_service :
        (b : ℕ) (bytes : List ℕ) (code : String) (at : ℕ)
        → All IsByte (b ∷ bytes)
        → all is_ascii (codes code) ≡ true
        → length (codes code) ≡ 6
        → 30 ≤ at
        → at + 30 < word
        → (generate_totp upper hmac_sha1 (encode_to_string (b ∷ bytes)) 30 6 at
            ≡ generate_for hmac_sha1 (encode_to_string (b ∷ bytes)) at)
          × (verify_totp upper hmac_sha1 (encode_to_string (b ∷ bytes)) code 30 1 at
              ≡ verify_secret hmac_sha1 (encode_to_string (b ∷ bytes)) code at)
    answers_as_service b bytes code at h ascii six late small =
        let fit : All (λ c. c < word) (window (at / 30)) =
          (omega arith, (omega arith, (omega arith, tt))) in
        (
          generate_totp-eq-generate_for b bytes at h small,
          verify_totp-key b bytes code at h late small
              ∙ verify_from-eq hmac_sha1 (b ∷ bytes) code (window (at / 30)) ascii six fit
              ∙ sym (verify_secret-key (b ∷ bytes) code at h),
        )

    -- On a secret that was encoded from at least one byte, the script's verification with its defaults
    -- accepts, from second 30 on, some code of each length from one character on.
    pub short_code_accepted :
        ((key message : List ℕ) → length (hmac_sha1 key message) ≡ 20)
        → (d b : ℕ) (bytes : List ℕ) (at : ℕ) → All IsByte (b ∷ bytes)
        → 30 ≤ at
        → at + 30 < word
        → (code : String) × (length (codes code) ≡ suc d)
          × (verify_totp upper hmac_sha1 (encode_to_string (b ∷ bytes)) code 30 1 at ≡ some true)
    unfolding verify_from hotp
    short_code_accepted size d b bytes at h late small =
        let c = (at / 30 + (word - 1)) % word in
        let (code, made, digits, ascii) =
          otp_total d (hmac_sha1 (b ∷ bytes) (big_endian 8 c)) (size _ _) in
        let fits : ltb c word ≡ true = ground arith in
        (
          code,
          digits,
          verify_totp-key b bytes code at h late small
              ∙ rw (digits, fits, made, ascii, eq_refl code) refl,
        )
