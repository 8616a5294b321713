-- ===== src/Backend/Totp.antt =====
-- backend/internal/auth/totp.go. HMAC-SHA1 is a parameter; a byte is a number, and
-- the time is the seconds since 1970.
pub mod Drift
pub mod SetUp
use nexus_cloud_identity_acc.Common.{
  ℕ, zero, suc, ◌+◌, ◌-◌, ◌*◌, ◌/◌, ◌%◌, String, Bool, true, false, Option, none, some, List, [],
  ◌∷◌, ◌++◌, ◌==◌, digit, ◌+s◌, if◌then◌else◌,
}
use nexus_cloud_identity_acc.Backend.Base32.{base32_decode}

abbrev pub totp_time_step : ℕ
totp_time_step = 30

-- 2 ^ 64
abbrev pub word : ℕ
word = 18446744073709551616

-- the last `n` bytes of a number, the highest first: `PutUint64` for 8
abbrev pub big_endian : ℕ → ℕ → List ℕ
big_endian zero c = []
big_endian (suc n) c = big_endian n (c / 256) ++ c % 256 ∷ []

abbrev pub last_or : ℕ → List ℕ → ℕ
last_or x [] = x
last_or x (y ∷ ys) = last_or y ys

-- `binary.BigEndian.Uint32(h[offset : offset+4])`: none is a panic
abbrev pub uint32_at : ℕ → List ℕ → Option ℕ
uint32_at zero (a ∷ b ∷ c ∷ d ∷ rest) = some (((a * 256 + b) * 256 + c) * 256 + d)
uint32_at zero _ = none
uint32_at (suc n) [] = none
uint32_at (suc n) (x ∷ xs) = uint32_at n xs

-- `%0*d` for a number of at most so many digits
unfoldable pub zero_padded : ℕ → ℕ → String
zero_padded zero n = ""
zero_padded (suc d) n = zero_padded d (n / 10) +s digit (n % 10)

-- `uint32(math.Pow10(digits))`, for at most 9 digits
abbrev pub power_of_10 : ℕ → ℕ
power_of_10 zero = 1
power_of_10 (suc n) = 10 * power_of_10 n

-- the code of the masked 31 bits
abbrev pub code_of : ℕ → Option ℕ → Option String
code_of digits none = none
code_of digits (some n) = some (zero_padded digits (n % 2147483648 % power_of_10 digits))

-- the code of a hash: the offset is the low nibble of its last byte
abbrev pub truncated : ℕ → List ℕ → Option String
truncated digits [] = none
truncated digits (x ∷ xs) = code_of digits (uint32_at (last_or x xs % 16) (x ∷ xs))

-- `uint64(counter + delta)` for the deltas -1, 0 and 1
abbrev pub window : ℕ → List ℕ
window counter = (counter + (word - 1)) % word ∷ counter % word ∷ (counter + 1) % word ∷ []

module _ (hmac_sha1 : (key message : List ℕ) → List ℕ) where
  -- `hotp`
  unfoldable pub hotp : (key : List ℕ) → (counter digits : ℕ) → Option String
  unfolding zero_padded
  hotp key counter digits = truncated digits (hmac_sha1 key (big_endian 8 counter))

  -- `GenerateTOTP`
  unfoldable pub generate_totp : (key : List ℕ) → (at : ℕ) → Option String
  unfolding hotp
  generate_totp key at = hotp key (at / totp_time_step) 6

  -- the loop over the window: none is a panic
  unfoldable pub verify_from : (key : List ℕ) → (code : String) → List ℕ → Option Bool
  unfolding hotp
  verify_from key code [] = some false
  verify_from key code (c ∷ cs) =
      let rest = verify_from key code cs in
      elim (hotp key c 6) [
        | none ↦ none
        | some expected ↦ if expected == code then some true else rest
      ]

  -- `VerifyTOTP`
  unfoldable pub verify_totp : (key : List ℕ) → (code : String) → (at : ℕ) → Option Bool
  unfolding verify_from
  verify_totp key code at = verify_from key code (window (at / totp_time_step))

  -- `GenerateTOTP` and `VerifyTOTP` on a secret's text: none is an error or a panic
  unfoldable pub generate_for : (secret : String) → (at : ℕ) → Option String
  unfolding generate_totp
  generate_for secret at = elim (base32_decode secret) [
    | none ↦ none
    | some key ↦ generate_totp key at
  ]

  unfoldable pub verify_secret : (secret code : String) → (at : ℕ) → Option Bool
  unfolding verify_totp
  verify_secret secret code at = elim (base32_decode secret) [
    | none ↦ none
    | some key ↦ verify_totp key code at
  ]
