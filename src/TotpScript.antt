-- ===== src/TotpScript.antt =====
-- security/totp_verify.py, the standalone Python copy of the second factor. HMAC-SHA1 and `str.upper`,
-- on the codes of the characters, are parameters; the time is the whole seconds since 1970, and none is
-- an exception.
pub mod Decoding
pub mod Digits
pub mod Agreement
use nexus_cloud_identity_acc.Common.{
  ℕ, zero, suc, ◌+◌, ◌-◌, ◌*◌, ◌/◌, ◌%◌, String, Bool, true, false, Option, none, some, List, [],
  ◌∷◌, ◌++◌, ◌==◌, ◌&&◌, ◌||◌, nat_eq, leb, ltb, length, all, show, if◌then◌else◌,
}
use nexus_cloud_identity_acc.Backend.Bearer.{is_space}
use nexus_cloud_identity_acc.Backend.Base32.{value_of, take, padding, codes}
use nexus_cloud_identity_acc.Backend.Totp.{
  big_endian, last_or, uint32_at, zero_padded, power_of_10, word,
}

-- `str.isspace` of a character
abbrev pub is_white : ℕ → Bool
is_white c = is_space c || (leb 28 c && leb c 31)

abbrev pub is_padding : ℕ → Bool
is_padding c = nat_eq c b'='

abbrev pub strip_left : (ℕ → Bool) → List ℕ → List ℕ
strip_left p [] = []
strip_left p (c ∷ cs) = let rest = strip_left p cs in if p c then rest else c ∷ cs

abbrev pub keep : Bool → ℕ → List ℕ → List ℕ
keep true c [] = []
keep _ c rest = c ∷ rest

abbrev pub strip_right : (ℕ → Bool) → List ℕ → List ℕ
strip_right p [] = []
strip_right p (c ∷ cs) = keep (p c) c (strip_right p cs)

abbrev pub strip : List ℕ → List ℕ
strip cs = strip_right is_white (strip_left is_white cs)

abbrev pub add : Option ℕ → Option (List ℕ) → Option (List ℕ)
add (some v) (some vs) = some (v ∷ vs)
add _ _ = none

-- the values of the symbols: none where one is not in the alphabet
abbrev pub values : List ℕ → Option (List ℕ)
values [] = some []
values (c ∷ cs) = add (value_of c) (values cs)

-- `acc` of a quantum
abbrev pub number_from : ℕ → List ℕ → ℕ
number_from acc [] = acc
number_from acc (v ∷ vs) = number_from (acc * 32 + v) vs

-- `acc <<= 5 * padchars`
abbrev pub shifted : ℕ → ℕ → ℕ
shifted zero acc = acc
shifted (suc n) acc = shifted n (acc * 32)

-- the bytes of the quanta, of which the last may be partial
unfoldable pub quanta : (padchars : ℕ) → List ℕ → List ℕ
quanta padchars [] = []
quanta padchars (a ∷ b ∷ c ∷ d ∷ e ∷ f ∷ g ∷ h ∷ rest) =
    big_endian 5 (number_from 0 (a ∷ b ∷ c ∷ d ∷ e ∷ f ∷ g ∷ h ∷ [])) ++ quanta padchars rest
quanta padchars vs =
    take ((43 - 5 * padchars) / 8) (big_endian 5 (shifted padchars (number_from 0 vs)))

-- the numbers of `=` that can stand at the end
abbrev pub is_fill : ℕ → Bool
is_fill n = nat_eq n 0 || nat_eq n 1 || nat_eq n 3 || nat_eq n 4 || nat_eq n 6

abbrev pub bytes_of : (padchars : ℕ) → Option (List ℕ) → Option (List ℕ)
bytes_of padchars none = none
bytes_of padchars (some vs) = if is_fill padchars then some (quanta padchars vs) else none

-- `base64.b32decode` of a text: a character outside ASCII is none of the alphabet's
abbrev pub b32decode : List ℕ → Option (List ℕ)
b32decode cs =
    let symbols = strip_right is_padding cs in
    if nat_eq (length cs % 8) 0
    then bytes_of (length cs - length symbols) (values symbols)
    else none

-- `clean`, filled up with `=` to a multiple of 8
abbrev pub filled_up : List ℕ → List ℕ
filled_up cs = cs ++ padding (length cs)

-- `str(n).zfill(digits)` for an `n` below `10 ** digits`
abbrev pub zfill : ℕ → ℕ → String
zfill zero n = show n
zfill (suc d) n = zero_padded (suc d) n

-- the code of the masked 31 bits
abbrev pub otp_of : ℕ → Option ℕ → Option String
otp_of digits none = none
otp_of digits (some n) = some (zfill digits (n % 2147483648 % power_of_10 digits))

abbrev pub otp : ℕ → List ℕ → Option String
otp digits [] = none
otp digits (x ∷ xs) = otp_of digits (uint32_at (last_or x xs % 16) (x ∷ xs))

abbrev pub is_ascii : ℕ → Bool
is_ascii c = ltb c 128

-- `counter + delta` where it is not negative, for `n` values of `delta` of which the first is `k - window`
abbrev pub counters : (window counter k n : ℕ) → List (Option ℕ)
counters window counter k zero = []
counters window counter k (suc n) =
    (if ltb (counter + k) window then none else some (counter + k - window))
    ∷ counters window counter (suc k) n

module _ (upper : List ℕ → List ℕ) where
  -- `_base32_decode`
  unfoldable pub base32_decode : String → Option (List ℕ)
  base32_decode secret =
      if nat_eq (length (strip (codes secret))) 0
      then none
      else b32decode (filled_up (strip (upper (codes secret))))

-- `hmac.compare_digest`, which takes texts of ASCII alone, and what follows
abbrev pub compared : (code : String) → Option String → Option Bool → Option Bool
compared code none rest = none
compared code (some expected) rest =
    if all is_ascii (codes code) then (if expected == code then some true else rest) else none

module _ (hmac_sha1 : (key message : List ℕ) → List ℕ) where
  -- `_hotp`: `struct.pack` refuses a counter that is negative or does not fit in 64 bits
  unfoldable pub hotp : (key : List ℕ) → (counter : Option ℕ) → (digits : ℕ) → Option String
  hotp key none digits = none
  hotp key (some counter) digits =
      if ltb counter word then otp digits (hmac_sha1 key (big_endian 8 counter)) else none

  -- the loop over the window
  unfoldable pub verify_from : (key : List ℕ) → (code : String) → List (Option ℕ) → Option Bool
  verify_from key code [] = some false
  verify_from key code (c ∷ cs) =
      compared code (hotp key c (length (codes code))) (verify_from key code cs)

module _ (upper : List ℕ → List ℕ) (hmac_sha1 : (key message : List ℕ) → List ℕ) where
  -- `verify_totp`: a time step of 0 divides by zero
  unfoldable pub verify_totp : (secret code : String) → (time_step window at : ℕ) → Option Bool
  verify_totp secret code time_step window at =
      if nat_eq time_step 0 then none else elim (base32_decode upper secret) [
        | none ↦ none
        | some key ↦
            verify_from hmac_sha1 key code (counters window (at / time_step) 0 (2 * window + 1))
      ]

  -- `generate_totp`
  unfoldable pub generate_totp : (secret : String) → (time_step digits at : ℕ) → Option String
  generate_totp secret time_step digits at =
      if nat_eq time_step 0 then none else elim (base32_decode upper secret) [
        | none ↦ none
        | some key ↦ hotp hmac_sha1 key (some (at / time_step)) digits
      ]
