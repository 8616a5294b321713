-- ===== src/TotpScript/Digits.antt =====
-- The codes of the script as texts: their characters and their number.

use Prim.Native.Char
use text.Mathlib.TextLemmas.{nil-append, cons-append}
use nexus_cloud_identity_acc.Common.{
  ℕ, zero, suc, ◌/◌, ◌%◌, String, Bool, true, some, List, [], ◌∷◌, ◌++◌, length, all, digit, ◌+s◌,
  arith, ◌≡◌, refl, ap, ◌∙◌, length-append,
}
use nexus_cloud_identity_acc.Backend.Base32.{codes}
use nexus_cloud_identity_acc.Backend.Totp.{last_or, zero_padded, power_of_10}
use nexus_cloud_identity_acc.Backend.Totp.Drift.{uint32_at_total}
use nexus_cloud_identity_acc.TotpScript.{otp_of, otp, is_ascii}

codes-append : (s t : String) → codes (s +s t) ≡ codes s ++ codes t
codes-append String.[] t = ap codes (nil-append t)
codes-append (String.◌∷◌ c s) t =
    ap codes (cons-append c s t) ∙ ap (◌∷◌ (Char.code c)) (codes-append s t)

codes-digit : (n : ℕ) → (c : ℕ) × (codes (digit n) ≡ c ∷ []) × (is_ascii c ≡ true)
codes-digit zero = (48, refl, refl)
codes-digit (suc zero) = (49, refl, refl)
codes-digit (suc (suc zero)) = (50, refl, refl)
codes-digit (suc (suc (suc zero))) = (51, refl, refl)
codes-digit (suc (suc (suc (suc zero)))) = (52, refl, refl)
codes-digit (suc (suc (suc (suc (suc zero))))) = (53, refl, refl)
codes-digit (suc (suc (suc (suc (suc (suc zero)))))) = (54, refl, refl)
codes-digit (suc (suc (suc (suc (suc (suc (suc zero))))))) = (55, refl, refl)
codes-digit (suc (suc (suc (suc (suc (suc (suc (suc zero)))))))) = (56, refl, refl)
codes-digit (suc (suc (suc (suc (suc (suc (suc (suc (suc d))))))))) = (57, refl, refl)

all-snoc :
    (p : ℕ → Bool) (xs : List ℕ) (c : ℕ)
    → all p xs ≡ true
    → p c ≡ true
    → all p (xs ++ c ∷ []) ≡ true
all-snoc p [] c h k = rw k refl
all-snoc p (x ∷ xs) c h k = ground (arith, all-snoc p xs c)

-- a code of so many digits
codes-zero_padded :
    (d n : ℕ)
    → (length (codes (zero_padded d n)) ≡ d) × (all is_ascii (codes (zero_padded d n)) ≡ true)
unfolding zero_padded
codes-zero_padded zero n = (refl, refl)
codes-zero_padded (suc d) n =
    let (c, one, ascii) = codes-digit (n % 10) in
    let (size, all_ascii) = codes-zero_padded d (n / 10) in
    let joined : codes (zero_padded (suc d) n) ≡ codes (zero_padded d (n / 10)) ++ c ∷ [] =
      codes-append (zero_padded d (n / 10)) (digit (n % 10))
      ∙ ap (λ cs. codes (zero_padded d (n / 10)) ++ cs) one in
    (
      ap length joined
          ∙ omega (arith, size, length-append (codes (zero_padded d (n / 10))) (c ∷ [])),
      ap (all is_ascii) joined
          ∙ all-snoc is_ascii (codes (zero_padded d (n / 10))) c all_ascii ascii,
    )

-- a hash of 20 bytes gives a code of any number of digits
pub otp_total :
    (d : ℕ) (h : List ℕ)
    → length h ≡ 20
    → (code : String) × (otp (suc d) h ≡ some code)
      × (length (codes code) ≡ suc d)
      × (all is_ascii (codes code) ≡ true)
otp_total d [] l = let x : ⊥ = omega arith in elim x [ ]
otp_total d (x ∷ xs) l =
    let (v, e) = uint32_at_total (last_or x xs % 16) (x ∷ xs) (omega arith) in
    let (digits, ascii) = codes-zero_padded (suc d) (v % 2147483648 % power_of_10 (suc d)) in
    (_, ap (otp_of (suc d)) e, digits, ascii)
