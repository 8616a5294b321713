-- ===== src/TotpScript/Decoding.antt =====
-- The script's decoding of an encoded secret.
use nexus_cloud_identity_acc.Common.{
  ℕ, zero, suc, ◌+◌, ◌-◌, ◌*◌, ◌/◌, ◌%◌, ◌<◌, Bool, true, false, some, List, [], ◌∷◌, ◌++◌, not,
  nat_eq, ltb, length, map, arith, ◌≡◌, refl, ap, ◌∙◌, sym, All, if_rule, length-append,
}
use mathlib.Core.List.{append-nil}
use nexus_cloud_identity_acc.Backend.Base32.{
  encode, symbol, take, padding, replicate, encode_to_string,
}
use nexus_cloud_identity_acc.Backend.Base32.Blocks.{
  code_of, holds_below, holds_below_sound, value_of-code_of, code_of-ne-padding,
}
use nexus_cloud_identity_acc.Backend.Base32.RoundTrip.{IsByte, IsValue, padding-add}
use nexus_cloud_identity_acc.Backend.Base32.Secret.{codes-text_of, encode-IsValue}
use nexus_cloud_identity_acc.Backend.Totp.{big_endian}
use nexus_cloud_identity_acc.TotpScript.{
  is_white, is_padding, strip, strip_left, strip_right, values, number_from, quanta, is_fill,
  b32decode, filled_up, base32_decode,
}

no_white : holds_below (λ v. not (is_white (code_of v))) 32 ≡ true
unfolding symbol
no_white = refl

no_small : holds_below (λ v. ltb (code_of v) 97) 32 ≡ true
unfolding symbol
no_small = refl

code_of-ne-white : (v : ℕ) → v < 32 → is_white (code_of v) ≡ false
code_of-ne-white v l =
    from_not (is_white (code_of v))
      (holds_below_sound (λ w. not (is_white (code_of w))) 32 v no_white l)
  where
    from_not : (b : Bool) → not b ≡ true → b ≡ false
    from_not false h = refl
    from_not true h = cc

code_of-lt : (v : ℕ) → v < 32 → code_of v < 97
code_of-lt v l = below (code_of v) (holds_below_sound (λ w. ltb (code_of w) 97) 32 v no_small l)
  where
    below : (n : ℕ) → ltb n 97 ≡ true → n < 97
    below n h = ground arith

-- what stands at the end is taken off symbols that stay
strip_right-symbols :
    (p : ℕ → Bool)
    → ((v : ℕ) → v < 32 → p (code_of v) ≡ false)
    → (vs ys : List ℕ) → All IsValue vs
    → strip_right p ys ≡ []
    → strip_right p (map code_of vs ++ ys) ≡ map code_of vs
strip_right-symbols p stays [] ys h e = e
strip_right-symbols p stays (v ∷ vs) ys (l, h) e =
    rw (stays v l, strip_right-symbols p stays vs ys h e) refl

strip_right-replicate : (n : ℕ) → strip_right is_padding (replicate n b'=') ≡ []
strip_right-replicate zero = refl
strip_right-replicate (suc n) = rw (strip_right-replicate n) refl

strip_left-symbols :
    (vs : List ℕ) → All IsValue vs → strip_left is_white (map code_of vs) ≡ map code_of vs
strip_left-symbols [] h = refl
strip_left-symbols (v ∷ vs) (l, h) = rw (code_of-ne-white v l) refl

strip-symbols : (vs : List ℕ) → All IsValue vs → strip (map code_of vs) ≡ map code_of vs
strip-symbols vs h =
    ap (strip_right is_white) (strip_left-symbols vs h ∙ sym (append-nil (map code_of vs)))
    ∙ strip_right-symbols is_white code_of-ne-white vs [] h refl

values-symbols : (vs : List ℕ) → All IsValue vs → values (map code_of vs) ≡ some vs
values-symbols [] h = refl
values-symbols (v ∷ vs) (l, h) = rw (value_of-code_of v l, values-symbols vs h) refl

big_endian-add : (k m e : ℕ) → e < 256 → big_endian (suc k) (m * 256 + e) ≡ big_endian k m ++ e ∷ []
big_endian-add k m e l =
    let high : (m * 256 + e) / 256 ≡ m = omega arith in
    let low : (m * 256 + e) % 256 ≡ e = omega arith in
    ap (λ x. big_endian k x ++ (m * 256 + e) % 256 ∷ []) high
    ∙ ap (λ x. big_endian k m ++ x ∷ []) low

-- a quantum that is worth five bytes
worth :
    (n a b c d e : ℕ)
    → All IsByte (a ∷ b ∷ c ∷ d ∷ e ∷ [])
    → n ≡ (((a * 256 + b) * 256 + c) * 256 + d) * 256 + e
    → big_endian 5 n ≡ a ∷ b ∷ c ∷ d ∷ e ∷ []
worth n a b c d e (ha, (hb, (hc, (hd, (he, _))))) q =
    let first : a % 256 ≡ a = omega arith in
    ap (big_endian 5) q
    ∙ big_endian-add 4 (((a * 256 + b) * 256 + c) * 256 + d) e he
    ∙ ap (λ xs. xs ++ e ∷ []) (big_endian-add 3 ((a * 256 + b) * 256 + c) d hd)
    ∙ ap (λ xs. (xs ++ d ∷ []) ++ e ∷ []) (big_endian-add 2 (a * 256 + b) c hc)
    ∙ ap (λ xs. ((xs ++ c ∷ []) ++ d ∷ []) ++ e ∷ []) (big_endian-add 1 a b hb)
    ∙ ap (λ x. x ∷ b ∷ c ∷ d ∷ e ∷ []) first

abbrev zero_byte : IsByte 0
zero_byte = omega arith

quanta-encode :
    (bytes : List ℕ)
    → All IsByte bytes
    → quanta (length (padding (length (encode bytes)))) (encode bytes) ≡ bytes
unfolding quanta encode
quanta-encode [] h = refl
quanta-encode (a ∷ []) (ha, _) =
    ap (take 1)
      (worth _ a 0 0 0 0 (ha, (zero_byte, (zero_byte, (zero_byte, (zero_byte, tt))))) (omega arith))
quanta-encode (a ∷ b ∷ []) (ha, (hb, _)) =
    ap (take 2)
      (worth _ a b 0 0 0 (ha, (hb, (zero_byte, (zero_byte, (zero_byte, tt))))) (omega arith))
quanta-encode (a ∷ b ∷ c ∷ []) (ha, (hb, (hc, _))) =
    ap (take 3) (worth _ a b c 0 0 (ha, (hb, (hc, (zero_byte, (zero_byte, tt))))) (omega arith))
quanta-encode (a ∷ b ∷ c ∷ d ∷ []) (ha, (hb, (hc, (hd, _)))) =
    ap (take 4) (worth _ a b c d 0 (ha, (hb, (hc, (hd, (zero_byte, tt))))) (omega arith))
quanta-encode (a ∷ b ∷ c ∷ d ∷ e ∷ rest) (ha, (hb, (hc, (hd, (he, h))))) =
    ap (λ fill. quanta (length fill) (encode (a ∷ b ∷ c ∷ d ∷ e ∷ rest)))
      (padding-add (length (encode rest)))
    ∙ ap (λ xs. xs ++ quanta (length (padding (length (encode rest)))) (encode rest))
        (worth
          (number_from 0 (
            a / 8
            ∷ (a * 4 % 32 + b / 64)
            ∷ b / 2 % 32
            ∷ (b * 16 % 32 + c / 16)
            ∷ (c * 2 % 32 + d / 128)
            ∷ d / 4 % 32
            ∷ (d * 8 % 32 + e / 32)
            ∷ e % 32
            ∷ []))
          a b c d e (ha, (hb, (hc, (hd, (he, tt))))) (omega arith))
    ∙ ap (λ xs. a ∷ b ∷ c ∷ d ∷ e ∷ xs) (quanta-encode rest h)

fill-encode : (bytes : List ℕ) → is_fill (length (padding (length (encode bytes)))) ≡ true
unfolding encode
fill-encode [] = refl
fill-encode (a ∷ []) = refl
fill-encode (a ∷ b ∷ []) = refl
fill-encode (a ∷ b ∷ c ∷ []) = refl
fill-encode (a ∷ b ∷ c ∷ d ∷ []) = refl
fill-encode (a ∷ b ∷ c ∷ d ∷ e ∷ rest) =
    ap (λ fill. is_fill (length fill)) (padding-add (length (encode rest))) ∙ fill-encode rest

length-replicate : (n c : ℕ) → length (replicate n c) ≡ n
length-replicate zero c = refl
length-replicate (suc n) c = omega (arith, length-replicate n c)

filled-length : (n : ℕ) → (n + length (padding n)) % 8 ≡ 0
filled-length n = ground (arith, length-replicate (8 - n % 8) b'=')

strip_right-padding : (n : ℕ) → strip_right is_padding (padding n) ≡ []
strip_right-padding n =
    if_rule (λ xs. strip_right is_padding xs ≡ []) (nat_eq (n % 8) 0) refl
      (strip_right-replicate (8 - n % 8))

length-map : (vs : List ℕ) → length (map code_of vs) ≡ length vs
length-map [] = refl
length-map (v ∷ vs) = omega (arith, length-map vs)

b32decode-encode :
    (bytes : List ℕ)
    → All IsByte bytes
    → b32decode (filled_up (map code_of (encode bytes))) ≡ some bytes
b32decode-encode bytes h =
    let vs = encode bytes in
    let fits = encode-IsValue bytes h in
    let fill = padding (length vs) in
    let symbols =
      strip_right-symbols is_padding code_of-ne-padding vs fill fits
        (strip_right-padding (length vs)) in
    let total = length-append (map code_of vs) fill in
    let whole : length (map code_of vs ++ fill) % 8 ≡ 0 =
      omega (arith, total, length-map vs, filled-length (length vs)) in
    let ends : length (map code_of vs ++ fill) - length (map code_of vs) ≡ length fill =
      omega (arith, total) in
    rw
      (
        length-map vs,
        symbols,
        ends,
        whole,
        values-symbols vs fits,
        fill-encode bytes,
        quanta-encode bytes h,
      )
      refl

not_empty : (b : ℕ) (bytes : List ℕ) → nat_eq (length (encode (b ∷ bytes))) 0 ≡ false
unfolding encode
not_empty a [] = refl
not_empty a (b ∷ []) = refl
not_empty a (b ∷ c ∷ []) = refl
not_empty a (b ∷ c ∷ d ∷ []) = refl
not_empty a (b ∷ c ∷ d ∷ e ∷ rest) = ground arith

small : (vs : List ℕ) → All IsValue vs → All (λ c. c < 97) (map code_of vs)
small [] h = tt
small (v ∷ vs) (l, h) = (code_of-lt v l, small vs h)

module _ (upper : List ℕ → List ℕ)
    (upper_stays : (cs : List ℕ) → All (λ c. c < 97) cs → upper cs ≡ cs) where
  -- The script reads every list of bytes but the empty one back from its encoding.
  pub base32_decode-encode_to_string :
      (b : ℕ) (bytes : List ℕ)
      → All IsByte (b ∷ bytes)
      → base32_decode upper (encode_to_string (b ∷ bytes)) ≡ some (b ∷ bytes)
  unfolding base32_decode encode_to_string
  base32_decode-encode_to_string b bytes h =
      let vs = encode (b ∷ bytes) in
      let fits = encode-IsValue (b ∷ bytes) h in
      rw
        (
          codes-text_of vs,
          strip-symbols vs fits,
          length-map vs,
          not_empty b bytes,
          upper_stays (map code_of vs) (small vs fits),
          strip-symbols vs fits,
        )
        (b32decode-encode (b ∷ bytes) h)
