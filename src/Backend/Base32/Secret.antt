-- ===== src/Backend/Base32/Secret.antt =====
-- A secret that was encoded, as `base32Decode` reads it.

use nexus_cloud_identity_acc.Common.{
  ℕ, zero, suc, ◌-◌, ◌%◌, ◌<◌, Bool, true, false, some, List, [], ◌∷◌, ◌++◌, ◌&&◌, not, nat_eq,
  length, map, filter, arith, ◌≡◌, refl, ap, ◌∙◌, All, if_rule,
}
use nexus_cloud_identity_acc.Backend.Bearer.{is_space, trim_left, trim_right, trim_space}
use nexus_cloud_identity_acc.Backend.Base32.{
  encode, symbol, text_of, codes, upper_code, utf8_size, byte_length, padding, replicate, padded,
  is_newline, decode_from, decode_string, base32_decode, encode_to_string,
}
use nexus_cloud_identity_acc.Backend.Base32.Blocks.{code_of, holds_below, holds_below_sound}
use nexus_cloud_identity_acc.Backend.Base32.RoundTrip.{IsByte, IsValue, decode_from-encode}

abbrev is_plain : ℕ → Bool
is_plain c =
    not (is_space c) && nat_eq (upper_code c) c && nat_eq (utf8_size c) 1 && not (is_newline c)

symbols_plain : holds_below (λ v. is_plain (code_of v)) 32 ≡ true
unfolding symbol
symbols_plain = refl

plain : (v : ℕ) → v < 32 → is_plain (code_of v) ≡ true
plain v l = holds_below_sound (λ w. is_plain (code_of w)) 32 v symbols_plain l

split_plain :
    (a b c d : Bool)
    → (not a && b && c && not d) ≡ true
    → (a ≡ false) × (b ≡ true) × (c ≡ true) × (d ≡ false)
split_plain false true true false h = (refl, refl, refl, refl)
split_plain _ _ _ _ h = cc

same_number : (m n : ℕ) → nat_eq m n ≡ true → m ≡ n
same_number m n h = ground arith

pub symbol_facts :
    (v : ℕ)
    → v < 32
    → (is_space (code_of v) ≡ false)
      × (upper_code (code_of v) ≡ code_of v)
      × (utf8_size (code_of v) ≡ 1)
      × (is_newline (code_of v) ≡ false)
symbol_facts v l =
    let (space, up, one, line) =
      split_plain (is_space (code_of v)) (nat_eq (upper_code (code_of v)) (code_of v))
        (nat_eq (utf8_size (code_of v)) 1) (is_newline (code_of v)) (plain v l) in
    (space, same_number _ _ up, same_number _ _ one, line)

pub codes-text_of : (vs : List ℕ) → codes (text_of vs) ≡ map code_of vs
codes-text_of [] = refl
codes-text_of (v ∷ vs) = ap (◌∷◌ (code_of v)) (codes-text_of vs)

trim_left-text_of : (vs : List ℕ) → All IsValue vs → trim_left (text_of vs) ≡ text_of vs
unfolding trim_left
trim_left-text_of [] h = refl
trim_left-text_of (v ∷ vs) (l, h) = rw ((symbol_facts v l).0) refl

trim_right-text_of : (vs : List ℕ) → All IsValue vs → trim_right (text_of vs) ≡ text_of vs
unfolding trim_right
trim_right-text_of [] h = refl
trim_right-text_of (v ∷ vs) (l, h) = rw ((symbol_facts v l).0, trim_right-text_of vs h) refl

upper : (vs : List ℕ) → All IsValue vs → map upper_code (map code_of vs) ≡ map code_of vs
upper [] h = refl
upper (v ∷ vs) (l, h) = rw ((symbol_facts v l).1, upper vs h) refl

byte_length-codes : (vs : List ℕ) → All IsValue vs → byte_length (map code_of vs) ≡ length vs
byte_length-codes [] h = refl
byte_length-codes (v ∷ vs) (l, h) = omega (arith, (symbol_facts v l).2, byte_length-codes vs h)

-- no newline among the symbols and what fills them up
filter-symbols :
    (vs more : List ℕ)
    → All IsValue vs
    → filter (λ c. not (is_newline c)) more ≡ more
    → filter (λ c. not (is_newline c)) (map code_of vs ++ more) ≡ map code_of vs ++ more
filter-symbols [] more h e = e
filter-symbols (v ∷ vs) more (l, h) e = rw ((symbol_facts v l).3, filter-symbols vs more h e) refl

filter-replicate : (n : ℕ) → filter (λ c. not (is_newline c)) (replicate n b'=') ≡ replicate n b'='
filter-replicate zero = refl
filter-replicate (suc n) = ap (◌∷◌ b'=') (filter-replicate n)

filter-padding : (n : ℕ) → filter (λ c. not (is_newline c)) (padding n) ≡ padding n
filter-padding n =
    if_rule (λ xs. filter (λ c. not (is_newline c)) xs ≡ xs) (nat_eq (n % 8) 0) refl
      (filter-replicate (8 - n % 8))

pub encode-IsValue : (bytes : List ℕ) → All IsByte bytes → All IsValue (encode bytes)
unfolding encode
encode-IsValue [] h = tt
encode-IsValue (a ∷ []) (ha, _) = (omega arith, (omega arith, tt))
encode-IsValue (a ∷ b ∷ []) (ha, (hb, _)) =
    (omega arith, (omega arith, (omega arith, (omega arith, tt))))
encode-IsValue (a ∷ b ∷ c ∷ []) (ha, (hb, (hc, _))) =
    (omega arith, (omega arith, (omega arith, (omega arith, (omega arith, tt)))))
encode-IsValue (a ∷ b ∷ c ∷ d ∷ []) (ha, (hb, (hc, (hd, _)))) = (
  omega arith,
  (omega arith, (omega arith, (omega arith, (omega arith, (omega arith, (omega arith, tt)))))),
)
encode-IsValue (a ∷ b ∷ c ∷ d ∷ e ∷ rest) (ha, (hb, (hc, (hd, (he, h))))) = (
  omega arith,
  (
    omega arith,
    (
      omega arith,
      (
        omega arith,
        (omega arith, (omega arith, (omega arith, (omega arith, encode-IsValue rest h)))),
      ),
    ),
  ),
)

trim_space-text_of : (vs : List ℕ) → All IsValue vs → trim_space (text_of vs) ≡ text_of vs
unfolding trim_space
trim_space-text_of vs h = ap trim_right (trim_left-text_of vs h) ∙ trim_right-text_of vs h

-- the codes that are decoded
read_text :
    (vs : List ℕ)
    → All IsValue vs
    → padded (map upper_code (codes (trim_space (text_of vs))))
      ≡ map code_of vs ++ padding (length vs)
read_text vs h =
    rw (trim_space-text_of vs h, codes-text_of vs, upper vs h, byte_length-codes vs h) refl

-- Every list of bytes is read back from its encoding, which has neither padding nor white space.
pub base32_decode-encode_to_string :
    (bytes : List ℕ) → All IsByte bytes → base32_decode (encode_to_string bytes) ≡ some bytes
unfolding base32_decode encode_to_string
base32_decode-encode_to_string bytes h =
    let vs = encode bytes in
    let values = encode-IsValue bytes h in
    ap decode_string (read_text vs values)
    ∙ ap (decode_from [])
        (filter-symbols vs (padding (length vs)) values (filter-padding (length vs)))
    ∙ decode_from-encode bytes h
