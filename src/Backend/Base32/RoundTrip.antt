-- ===== src/Backend/Base32/RoundTrip.antt =====
-- What the decoding makes of an encoding.
use nexus_cloud_identity_acc.Common.{
  ℕ, suc, ◌+◌, ◌*◌, ◌/◌, ◌%◌, ◌<◌, some, List, [], ◌∷◌, ◌++◌, length, map, arith, ◌≡◌, refl, ap,
  ◌∙◌, sym, All, length-append,
}
use nexus_cloud_identity_acc.Backend.Base32.{
  encode, pack, prepend, decode_from, padded_end, padding,
}
use nexus_cloud_identity_acc.Backend.Base32.Blocks.{code_of, inner_value, last_value}
use mathlib.Core.List.{append_assoc, append-nil}

abbrev pub IsByte : ℕ → Type 0
IsByte b = b < 256

abbrev pub IsValue : ℕ → Type 0
IsValue v = v < 32

pub padding-add : (n : ℕ) → padding (suc (suc (suc (suc (suc (suc (suc (suc n)))))))) ≡ padding n
padding-add n =
    let e : suc (suc (suc (suc (suc (suc (suc (suc n))))))) % 8 ≡ n % 8 = omega arith in rw e refl

-- some values of a block
read_values :
    (vs block src : List ℕ)
    → All IsValue vs
    → length block + length vs < 8
    → decode_from block (map code_of vs ++ src) ≡ decode_from (block ++ vs) src
read_values [] block src h short = ap (λ x. decode_from x src) (sym (append-nil block))
read_values (v ∷ vs) block src (l, h) short =
    inner_value block (map code_of vs ++ src) v l (omega arith)
    ∙ read_values vs (block ++ v ∷ []) src h (omega (arith, length-append block (v ∷ [])))
    ∙ ap (λ x. decode_from x src) (append_assoc block (v ∷ []) vs)

-- a whole block
read_block :
    (vs src : List ℕ) (w : ℕ)
    → All IsValue vs
    → IsValue w
    → length vs ≡ 7
    → decode_from [] (map code_of vs ++ code_of w ∷ src)
      ≡ prepend (pack (vs ++ w ∷ [])) (decode_from [] src)
read_block vs src w h l seven =
    read_values vs [] (code_of w ∷ src) h (omega arith) ∙ last_value vs src w l seven

-- the block at the end
read_end :
    (vs bytes : List ℕ)
    → All IsValue vs
    → length vs < 8
    → decode_from vs (padding (length vs)) ≡ some bytes
    → decode_from [] (map code_of vs ++ padding (length vs)) ≡ some bytes
read_end vs bytes h short e = read_values vs [] (padding (length vs)) h (omega arith) ∙ e

-- the first byte, and the ones after it, from their values
byte_1 : (a b : ℕ) → IsByte a → IsByte b → a / 8 * 8 + (a * 4 % 32 + b / 64) / 4 ≡ a
byte_1 a b ha hb = omega arith

byte_2 :
    (a b c : ℕ)
    → IsByte b
    → IsByte c
    → (a * 4 % 32 + b / 64) * 64 % 256 + b / 2 % 32 * 2 + (b * 16 % 32 + c / 16) / 16 ≡ b
byte_2 a b c hb hc = omega arith

byte_3 :
    (b c d : ℕ)
    → IsByte c
    → IsByte d
    → (b * 16 % 32 + c / 16) * 16 % 256 + (c * 2 % 32 + d / 128) / 2 ≡ c
byte_3 b c d hc hd = omega arith

byte_4 :
    (c d e : ℕ)
    → IsByte d
    → IsByte e
    → (c * 2 % 32 + d / 128) * 128 % 256 + d / 4 % 32 * 4 + (d * 8 % 32 + e / 32) / 8 ≡ d
byte_4 c d e hd he = omega arith

byte_5 : (d e : ℕ) → IsByte e → (d * 8 % 32 + e / 32) * 32 % 256 + e % 32 ≡ e
byte_5 d e he = omega arith

abbrev pub Decodes : List ℕ → Type 0
Decodes bytes =
    decode_from [] (map code_of (encode bytes) ++ padding (length (encode bytes))) ≡ some bytes

decode_one : (a : ℕ) → IsByte a → Decodes (a ∷ [])
unfolding encode
decode_one a ha =
    read_end (a / 8 ∷ a * 4 % 32 ∷ []) (a ∷ []) (omega arith, (omega arith, tt)) (omega arith)
      (unfold decode_from padded_end pack in ap (λ x. some (x ∷ [])) (omega arith))

decode_two : (a b : ℕ) → IsByte a → IsByte b → Decodes (a ∷ b ∷ [])
unfolding encode
decode_two a b ha hb =
    read_end (a / 8 ∷ (a * 4 % 32 + b / 64) ∷ b / 2 % 32 ∷ b * 16 % 32 ∷ []) (a ∷ b ∷ [])
      (omega arith, (omega arith, (omega arith, (omega arith, tt)))) (omega arith)
      (unfold decode_from padded_end pack in
        rw (byte_1 a b ha hb) (ap (λ x. some (a ∷ x ∷ [])) (omega arith)))

decode_three : (a b c : ℕ) → IsByte a → IsByte b → IsByte c → Decodes (a ∷ b ∷ c ∷ [])
unfolding encode
decode_three a b c ha hb hc =
    read_end (a / 8 ∷ (a * 4 % 32 + b / 64) ∷ b / 2 % 32 ∷ (b * 16 % 32 + c / 16) ∷ c * 2 % 32 ∷ [])
      (a ∷ b ∷ c ∷ []) (omega arith, (omega arith, (omega arith, (omega arith, (omega arith, tt)))))
      (omega arith)
      (unfold decode_from padded_end pack in
        rw (byte_1 a b ha hb, byte_2 a b c hb hc) (ap (λ x. some (a ∷ b ∷ x ∷ [])) (omega arith)))

decode_four :
    (a b c d : ℕ) → IsByte a → IsByte b → IsByte c → IsByte d → Decodes (a ∷ b ∷ c ∷ d ∷ [])
unfolding encode
decode_four a b c d ha hb hc hd =
    read_end
      (a / 8
        ∷ (a * 4 % 32 + b / 64)
        ∷ b / 2 % 32
        ∷ (b * 16 % 32 + c / 16)
        ∷ (c * 2 % 32 + d / 128)
        ∷ d / 4 % 32
        ∷ d * 8 % 32
        ∷ [])
      (a ∷ b ∷ c ∷ d ∷ [])
      (
        omega arith,
        (
          omega arith,
          (omega arith, (omega arith, (omega arith, (omega arith, (omega arith, tt))))),
        ),
      )
      (omega arith)
      (unfold decode_from padded_end pack in
        rw (byte_1 a b ha hb, byte_2 a b c hb hc, byte_3 b c d hc hd)
          (ap (λ x. some (a ∷ b ∷ c ∷ x ∷ [])) (omega arith)))

decode_five :
    (a b c d e : ℕ) (rest : List ℕ)
    → IsByte a
    → IsByte b
    → IsByte c
    → IsByte d
    → IsByte e
    → Decodes rest
    → Decodes (a ∷ b ∷ c ∷ d ∷ e ∷ rest)
unfolding encode
decode_five a b c d e rest ha hb hc hd he ih = rw (padding-add (length (encode rest))) (
    read_block
      (a / 8
        ∷ (a * 4 % 32 + b / 64)
        ∷ b / 2 % 32
        ∷ (b * 16 % 32 + c / 16)
        ∷ (c * 2 % 32 + d / 128)
        ∷ d / 4 % 32
        ∷ (d * 8 % 32 + e / 32)
        ∷ [])
      (map code_of (encode rest) ++ padding (length (encode rest))) (e % 32)
      (
        omega arith,
        (
          omega arith,
          (omega arith, (omega arith, (omega arith, (omega arith, (omega arith, tt))))),
        ),
      )
      (omega arith) (omega arith)
    ∙ rw ih (
        unfold pack in
        rw
          (
            byte_1 a b ha hb,
            byte_2 a b c hb hc,
            byte_3 b c d hc hd,
            byte_4 c d e hd he,
            byte_5 d e he,
          )
          refl))

-- What was encoded, with what is missing to a multiple of 8 symbols filled up, decodes to the same bytes.
pub decode_from-encode : (bytes : List ℕ) → All IsByte bytes → Decodes bytes
decode_from-encode [] h = unfold encode decode_from in refl
decode_from-encode (a ∷ []) (ha, _) = decode_one a ha
decode_from-encode (a ∷ b ∷ []) (ha, (hb, _)) = decode_two a b ha hb
decode_from-encode (a ∷ b ∷ c ∷ []) (ha, (hb, (hc, _))) = decode_three a b c ha hb hc
decode_from-encode (a ∷ b ∷ c ∷ d ∷ []) (ha, (hb, (hc, (hd, _)))) = decode_four a b c d ha hb hc hd
decode_from-encode (a ∷ b ∷ c ∷ d ∷ e ∷ rest) (ha, (hb, (hc, (hd, (he, h))))) =
    decode_five a b c d e rest ha hb hc hd he (decode_from-encode rest h)
