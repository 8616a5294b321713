-- ===== src/Examples/Script.antt =====
-- The script, on a secret of three bytes and a hash.
use nexus_cloud_identity_acc.Common.{
  ℕ, String, true, none, some, List, [], ◌∷◌, length, ◌≡◌, refl, arith,
}
use nexus_cloud_identity_acc.Backend.Base32.{codes, value_of, encode_to_string}
use nexus_cloud_identity_acc.Backend.Totp.{generate_for, verify_secret, zero_padded}
use nexus_cloud_identity_acc.TotpScript.{
  base32_decode, quanta, hotp, verify_from, verify_totp, generate_totp,
}
use nexus_cloud_identity_acc.TotpScript.Agreement.{answers_as_service, short_code_accepted}
use nexus_cloud_identity_acc.Examples.Codes.{hmac}

-- `str.upper` on texts without small letters
abbrev upper : List ℕ → List ℕ
upper cs = cs

answers_as_service_example :
    (generate_totp upper hmac (encode_to_string (7 ∷ 200 ∷ 31 ∷ [])) 30 6 1000
      ≡ generate_for hmac (encode_to_string (7 ∷ 200 ∷ 31 ∷ [])) 1000)
    × (verify_totp upper hmac (encode_to_string (7 ∷ 200 ∷ 31 ∷ [])) "872921" 30 1 1000
        ≡ verify_secret hmac (encode_to_string (7 ∷ 200 ∷ 31 ∷ [])) "872921" 1000)
answers_as_service_example =
    answers_as_service hmac upper (λ cs h. refl) 7 (200 ∷ 31 ∷ []) "872921" 1000
      (omega arith, (omega arith, (omega arith, tt))) refl refl (omega arith) (omega arith)

short_code_accepted_example :
    (code : String) × (length (codes code) ≡ 1)
    × (verify_totp upper hmac (encode_to_string (7 ∷ 200 ∷ 31 ∷ [])) code 30 1 1000 ≡ some true)
short_code_accepted_example =
    short_code_accepted hmac upper (λ cs h. refl) (λ key message. refl) 0 7 (200 ∷ 31 ∷ []) 1000
      (omega arith, (omega arith, (omega arith, tt))) (omega arith) (omega arith)

-- the last digit of the code alone
one_digit : verify_totp upper hmac " MZXQ\n" "1" 30 1 1000 ≡ some true
unfolding verify_totp verify_from hotp base32_decode quanta value_of zero_padded
one_digit = refl

no_secret : base32_decode upper " \t" ≡ none
unfolding base32_decode
no_secret = refl

-- the first window starts below 0
too_early : verify_totp upper hmac "MZXQ" "872921" 30 1 29 ≡ none
unfolding verify_totp verify_from hotp base32_decode quanta value_of zero_padded
too_early = refl
