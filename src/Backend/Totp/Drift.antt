-- ===== src/Backend/Totp/Drift.antt =====
-- Which codes are accepted, and how far the two clocks may be apart.
use Prim.Native.String
use text.Mathlib.TextPositions.{len-append}
use mathlib.Core.List.{Memᴰ}
use nexus_cloud_identity_acc.Common.{
  ℕ, zero, suc, ◌+◌, ◌/◌, ◌%◌, ◌≤◌, ◌<◌, String, true, some, List, [], ◌∷◌, ◌==◌, ◌≡◌, refl, ap,
  sym, ◌∙◌, ◌↔◌, ◌⊎◌, inl, inr, length, arith, digit, if◌then◌else◌, eq_iff, eq_refl, Bool-cases,
}
use nexus_cloud_identity_acc.Backend.Totp.{
  hotp, generate_totp, verify_totp, verify_from, window, zero_padded, uint32_at, last_or, truncated,
  word, code_of, big_endian, totp_time_step,
}
use nexus_cloud_identity_acc.Backend.Integers.{len-digit}

len-zero_padded : (d n : ℕ) → String.len (zero_padded d n) ≡ d
unfolding zero_padded
len-zero_padded zero n = refl
len-zero_padded (suc d) n = omega (
  arith,
  len-append (zero_padded d (n / 10)) (digit (n % 10)),
  len-digit (n % 10),
  len-zero_padded d (n / 10),
)

pub uint32_at_total :
    (offset : ℕ) (h : List ℕ) → offset + 4 ≤ length h → (v : ℕ) × (uint32_at offset h ≡ some v)
uint32_at_total zero (a ∷ b ∷ c ∷ d ∷ rest) l = (_, refl)
uint32_at_total zero [] l = let x : ⊥ = omega arith in elim x [ ]
uint32_at_total zero (a ∷ []) l = let x : ⊥ = omega arith in elim x [ ]
uint32_at_total zero (a ∷ b ∷ []) l = let x : ⊥ = omega arith in elim x [ ]
uint32_at_total zero (a ∷ b ∷ c ∷ []) l = let x : ⊥ = omega arith in elim x [ ]
uint32_at_total (suc n) [] l = let x : ⊥ = omega arith in elim x [ ]
uint32_at_total (suc n) (x ∷ xs) l = uint32_at_total n xs (omega arith)

truncated_total :
    (h : List ℕ)
    → length h ≡ 20
    → (code : String) × (truncated 6 h ≡ some code) × (String.len code ≡ 6)
truncated_total [] l = let x : ⊥ = omega arith in elim x [ ]
truncated_total (x ∷ xs) l =
    let (v, e) = uint32_at_total (last_or x xs % 16) (x ∷ xs) (omega arith) in
    (_, ap (code_of 6) e, len-zero_padded 6 _)

-- `sha1.Size` is 20.
module _ (hmac_sha1 : (key message : List ℕ) → List ℕ)
    (size : (key message : List ℕ) → length (hmac_sha1 key message) ≡ 20) where
  -- The hash is long enough for every offset, and a code has six digits.
  pub hotp_total :
      (key : List ℕ) (counter : ℕ)
      → (code : String) × (hotp hmac_sha1 key counter 6 ≡ some code) × (String.len code ≡ 6)
  unfolding hotp
  hotp_total key counter =
      truncated_total (hmac_sha1 key (big_endian 8 counter)) (size key (big_endian 8 counter))

  -- the loop accepts a code of one of the counters
  verify_from_sound :
      (key : List ℕ) (code : String) (cs : List ℕ)
      → verify_from hmac_sha1 key code cs ≡ some true
      → (c : ℕ) × Memᴰ c cs × (hotp hmac_sha1 key c 6 ≡ some code)
  unfolding verify_from
  verify_from_sound key code [] h = cc h
  verify_from_sound key code (c ∷ cs) h =
      let (expected, made, six) = hotp_total key c in
      let k : (if expected == code then some true else verify_from hmac_sha1 key code cs)
          ≡ some true =
        rw (made, verify_from) at h in
      elim (Bool-cases (expected == code)) [
        | inl same ↦ (c, Memᴰ.head refl, made ∙ ap some ((eq_iff expected code).0 same))
        | inr other ↦
            let (d, there, e) = verify_from_sound key code cs (rw other at k) in
            (d, Memᴰ.tail there, e)
      ]

  verify_from_complete :
      (key : List ℕ) (code : String) (c : ℕ) (cs : List ℕ)
      → Memᴰ c cs
      → hotp hmac_sha1 key c 6 ≡ some code
      → verify_from hmac_sha1 key code cs ≡ some true
  unfolding verify_from
  verify_from_complete key code c [] m e = elim m [ ]
  verify_from_complete key code c (d ∷ cs) (Memᴰ.head q) e =
      rw (ap (λ k. hotp hmac_sha1 key k 6) (sym q) ∙ e, verify_from) (rw (eq_refl code) refl)
  verify_from_complete key code c (d ∷ cs) (Memᴰ.tail m) e =
      let (expected, made, six) = hotp_total key d in
      rw (made, verify_from) (ground (arith, verify_from_complete key code c cs m e))

  -- Verification never panics, and accepts a code exactly when it is the code of the current time step, of
  -- the one before, or of the one after, with the counter computed modulo 2 ^ 64.
  pub verify_totp_iff :
      (key : List ℕ) (code : String) (at : ℕ)
      → (verify_totp hmac_sha1 key code at ≡ some true)
        ↔ ((c : ℕ) × Memᴰ c (window (at / totp_time_step)) × (hotp hmac_sha1 key c 6 ≡ some code))
  unfolding verify_totp
  verify_totp_iff key code at = (
    verify_from_sound key code (window (at / totp_time_step)),
    λ (c, m, e). verify_from_complete key code c (window (at / totp_time_step)) m e,
  )

  in_window : (c d : ℕ) → c < word → d < word → c ≤ d + 1 → d ≤ c + 1 → Memᴰ c (window d)
  in_window c d cw dw l h = elim (three c d l h) [
    | inl before ↦ Memᴰ.head (omega arith)
    | inr (inl same) ↦ Memᴰ.tail (Memᴰ.head (omega arith))
    | inr (inr after) ↦ Memᴰ.tail (Memᴰ.tail (Memᴰ.head (omega arith)))
  ]
    where
      three : (c d : ℕ) → c ≤ d + 1 → d ≤ c + 1 → (d ≡ c + 1) ⊎ ((c ≡ d) ⊎ (c ≡ d + 1))
      three c d l h = ground arith

  -- Every code that is generated has six digits, and is accepted at any time up to 30 seconds earlier or
  -- later.
  pub generate_totp-verify_totp :
      (key : List ℕ) (at at' : ℕ)
      → at ≤ at' + 30
      → at' ≤ at + 30
      → at + 30 < word
      → (code : String) × (generate_totp hmac_sha1 key at ≡ some code)
        × (String.len code ≡ 6)
        × (verify_totp hmac_sha1 key code at' ≡ some true)
  unfolding generate_totp
  generate_totp-verify_totp key at at' early late small =
      let (code, made, six) = hotp_total key (at / totp_time_step) in
      (
        code,
        made,
        six,
        (verify_totp_iff key code at').1 (
          at / totp_time_step,
          in_window (at / totp_time_step) (at' / totp_time_step) (omega arith) (omega arith)
              (omega arith) (omega arith),
          made,
        ),
      )
