-- ===== src/Backend/Integers.antt =====
-- Go's `int` of 64 bits, and `strconv.Atoi`, as the backend uses them.
use Prim.Native.Char.{code}
use Prim.Native.String
use text.Mathlib.TextPositions.{len-append}
use text.Mathlib.TextLemmas.{nil-append, cons-append}
use nexus_cloud_identity_acc.Common.{
  eq_iff, digit, ◌/◌, ◌≤◌, ◌∙◌, ◌⊎◌, show_from, Bool-cases, inl, inr, ap, ℕ, ◌+◌, ◌-◌, ◌*◌, ◌%◌,
  ◌<◌, suc, zero, String, Bool, true, false, Option, none, some, ◌&&◌, ◌==◌, leb, ltb, nat_eq,
  if◌then◌else◌, ◌≡◌, refl, arith, show, ◌+s◌,
}
use nexus_cloud_identity_acc.Common.Int.{ℤ, pos, negsuc}

-- 2 ^ 63
abbrev pub int_bound : ℕ
int_bound = 9223372036854775808

-- the signed reading of a sum or product that is computed modulo 2 ^ 64
unfoldable pub wrapped : ℕ → ℤ
wrapped n =
    let m = n % 18446744073709551616 in
    if ltb m int_bound then pos m else negsuc (18446744073709551615 - m)

abbrev pub is_digit : ℕ → Bool
is_digit n = leb b'0' n && leb n b'9'

-- the number that a text of digits stands for, after `acc`
unfoldable pub digits_value : ℕ → String → Option ℕ
digits_value acc String.[] = some acc
digits_value acc (String.◌∷◌ c s) =
    let rest = digits_value (acc * 10 + (code c - b'0')) s in
    if is_digit (code c) then rest else none

abbrev in_range : Bool → Option ℕ → Option ℤ
in_range minus none = none
in_range false (some n) = if ltb n int_bound then some (pos n) else none
in_range true (some zero) = some (pos 0)
in_range true (some (suc n)) = if ltb n int_bound then some (negsuc n) else none

abbrev magnitude : String → Option ℕ
magnitude String.[] = none
magnitude (String.◌∷◌ c s) = digits_value 0 (String.◌∷◌ c s)

-- `strconv.Atoi`: none is an error, of the syntax or of the range
unfoldable pub atoi : String → Option ℤ
unfolding digits_value
atoi String.[] = none
atoi (String.◌∷◌ c s) =
    if nat_eq (code c) b'-'
    then in_range true (magnitude s)
    else if nat_eq (code c) b'+'
    then in_range false (magnitude s)
    else in_range false (magnitude (String.◌∷◌ c s))

abbrev then_digits : Option ℕ → String → Option ℕ
then_digits none t = none
then_digits (some a) t = digits_value a t

digits_value-append :
    (acc : ℕ) (s t : String) → digits_value acc (s +s t) ≡ then_digits (digits_value acc s) t
unfolding digits_value
digits_value-append acc String.[] t = ap (digits_value acc) (nil-append t)
digits_value-append acc (String.◌∷◌ c s) t = elim (Bool-cases (is_digit (code c))) [
  | inl e ↦
      rw (cons-append c s t, digits_value, e) (digits_value-append (acc * 10 + (code c - b'0')) s t)
  | inr e ↦ rw (cons-append c s t, digits_value, e) refl
]

digits_value-digit : (acc d : ℕ) → d < 10 → digits_value acc (digit d) ≡ some (acc * 10 + d)
unfolding digits_value
digits_value-digit acc zero h = refl
digits_value-digit acc (suc zero) h = refl
digits_value-digit acc (suc (suc zero)) h = refl
digits_value-digit acc (suc (suc (suc zero))) h = refl
digits_value-digit acc (suc (suc (suc (suc zero)))) h = refl
digits_value-digit acc (suc (suc (suc (suc (suc zero))))) h = refl
digits_value-digit acc (suc (suc (suc (suc (suc (suc zero)))))) h = refl
digits_value-digit acc (suc (suc (suc (suc (suc (suc (suc zero))))))) h = refl
digits_value-digit acc (suc (suc (suc (suc (suc (suc (suc (suc zero)))))))) h = refl
digits_value-digit acc (suc (suc (suc (suc (suc (suc (suc (suc (suc zero))))))))) h = refl
digits_value-digit acc (suc (suc (suc (suc (suc (suc (suc (suc (suc (suc d)))))))))) h =
    let x : ⊥ = omega arith in elim x [ ]

lt_or_le : (n m : ℕ) → (n < m) ⊎ (m ≤ n)
lt_or_le n m = ground arith

-- the last digit of a number after the others
last_digit :
    (f n : ℕ)
    → digits_value 0 (show_from f (n / 10)) ≡ some (n / 10)
    → digits_value 0 (show_from f (n / 10) +s digit (n % 10)) ≡ some n
last_digit f n h =
    digits_value-append 0 (show_from f (n / 10)) (digit (n % 10))
    ∙ rw h (digits_value-digit (n / 10) (n % 10) (omega arith) ∙ ap some (omega arith))

digits_value-show_from : (f n : ℕ) → n < f → digits_value 0 (show_from f n) ≡ some n
unfolding show_from
digits_value-show_from zero n h = let x : ⊥ = omega arith in elim x [ ]
digits_value-show_from (suc f) n h = elim (lt_or_le n 10) [
  | inl small ↦ ground (arith, digits_value-digit 0 n small)
  | inr large ↦ ground (arith, last_digit f n (digits_value-show_from f (n / 10) (omega arith)))
]

pub len-digit : (d : ℕ) → String.len (digit d) ≡ 1
len-digit zero = refl
len-digit (suc zero) = refl
len-digit (suc (suc zero)) = refl
len-digit (suc (suc (suc zero))) = refl
len-digit (suc (suc (suc (suc zero)))) = refl
len-digit (suc (suc (suc (suc (suc zero))))) = refl
len-digit (suc (suc (suc (suc (suc (suc zero)))))) = refl
len-digit (suc (suc (suc (suc (suc (suc (suc zero))))))) = refl
len-digit (suc (suc (suc (suc (suc (suc (suc (suc zero)))))))) = refl
len-digit (suc (suc (suc (suc (suc (suc (suc (suc (suc d))))))))) = refl

len-show_from : (f n : ℕ) → 1 ≤ String.len (show_from (suc f) n)
unfolding show_from
len-show_from f n =
    ground
      (arith, len-digit n, len-digit (n % 10), len-append (show_from f (n / 10)) (digit (n % 10)))

pub digits_value-show : (n : ℕ) → digits_value 0 (show n) ≡ some n
unfolding show
digits_value-show n = digits_value-show_from (suc n) n (omega arith)

atoi_digits :
    (s : String) (n : ℕ)
    → digits_value 0 s ≡ some n
    → 1 ≤ String.len s
    → n < int_bound
    → atoi s ≡ some (pos n)
unfolding atoi digits_value
atoi_digits String.[] n h l b = let x : ⊥ = omega arith in elim x [ ]
atoi_digits (String.◌∷◌ c s) n h l b = ground arith

-- `strconv.Atoi` reads back the decimal digits of every number that an `int` holds.
pub atoi-show : (n : ℕ) → n < int_bound → atoi (show n) ≡ some (pos n)
unfolding show
atoi-show n b = atoi_digits (show n) n (digits_value-show n) (len-show_from n n) b

pub show-ne-empty : (n : ℕ) → (show n == "") ≡ false
unfolding show
show-ne-empty n = elim (Bool-cases (show n == "")) [
  | inl e ↦
      let nothing : String.len (show n) ≡ 0 = ap String.len ((eq_iff (show n) "").0 e) in
      let x : ⊥ = omega (arith, len-show_from n n, nothing) in elim x [ ]
  | inr e ↦ e
]
