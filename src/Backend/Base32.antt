-- ===== src/Backend/Base32.antt =====
-- Go's `encoding/base32` with the standard alphabet, as `base32Decode` of backend/internal/auth/totp.go
-- and `generateMFASecret` of backend/internal/auth/mfa_handler.go use it. A byte and the code of a
-- character are numbers.
pub mod Blocks
pub mod RoundTrip
pub mod Secret
use Prim.Native.Char.{Char, code}
use Prim.Native.String
use nexus_cloud_identity_acc.Common.{
  ℕ, zero, suc, ◌+◌, ◌-◌, ◌*◌, ◌/◌, ◌%◌, String, Bool, true, false, Option, none, some, List, [],
  ◌∷◌, ◌++◌, ◌&&◌, ◌||◌, not, nat_eq, leb, ltb, length, filter, all, map, if◌then◌else◌,
}
use nexus_cloud_identity_acc.Backend.Bearer.{trim_space}

-- the value of a code under the alphabet `A` to `Z`, `2` to `7`
unfoldable pub value_of : ℕ → Option ℕ
value_of c =
    if leb 65 c && leb c 90
    then some (c - 65)
    else if leb 50 c && leb c 55
    then some (c - 24)
    else none

-- the character of a value below 32
abbrev nth : ℕ → String → Char
nth k String.[] = "="
nth zero (String.◌∷◌ c s) = c
nth (suc k) (String.◌∷◌ c s) = nth k s

unfoldable pub symbol : ℕ → Char
symbol n = nth n "ABCDEFGHIJKLMNOPQRSTUVWXYZ234567"

-- five bytes as eight values, and fewer at the end: `EncodeToString` without padding
unfoldable pub encode : List ℕ → List ℕ
encode [] = []
encode (a ∷ []) = a / 8 ∷ a * 4 % 32 ∷ []
encode (a ∷ b ∷ []) = a / 8 ∷ (a * 4 % 32 + b / 64) ∷ b / 2 % 32 ∷ b * 16 % 32 ∷ []
encode (a ∷ b ∷ c ∷ []) =
    a / 8 ∷ (a * 4 % 32 + b / 64) ∷ b / 2 % 32 ∷ (b * 16 % 32 + c / 16) ∷ c * 2 % 32 ∷ []
encode (a ∷ b ∷ c ∷ d ∷ []) =
    a / 8
    ∷ (a * 4 % 32 + b / 64)
    ∷ b / 2 % 32
    ∷ (b * 16 % 32 + c / 16)
    ∷ (c * 2 % 32 + d / 128)
    ∷ d / 4 % 32
    ∷ d * 8 % 32
    ∷ []
encode (a ∷ b ∷ c ∷ d ∷ e ∷ rest) =
    a / 8
    ∷ (a * 4 % 32 + b / 64)
    ∷ b / 2 % 32
    ∷ (b * 16 % 32 + c / 16)
    ∷ (c * 2 % 32 + d / 128)
    ∷ d / 4 % 32
    ∷ (d * 8 % 32 + e / 32)
    ∷ e % 32
    ∷ encode rest

-- the bytes of a block of 2, 4, 5, 7 or 8 values
unfoldable pub pack : List ℕ → List ℕ
pack (p ∷ q ∷ []) = (p * 8 + q / 4) ∷ []
pack (p ∷ q ∷ r ∷ s ∷ []) = (p * 8 + q / 4) ∷ (q * 64 % 256 + r * 2 + s / 16) ∷ []
pack (p ∷ q ∷ r ∷ s ∷ t ∷ []) =
    (p * 8 + q / 4) ∷ (q * 64 % 256 + r * 2 + s / 16) ∷ (s * 16 % 256 + t / 2) ∷ []
pack (p ∷ q ∷ r ∷ s ∷ t ∷ u ∷ v ∷ []) =
    (p * 8 + q / 4)
    ∷ (q * 64 % 256 + r * 2 + s / 16)
    ∷ (s * 16 % 256 + t / 2)
    ∷ (t * 128 % 256 + u * 4 + v / 8)
    ∷ []
pack (p ∷ q ∷ r ∷ s ∷ t ∷ u ∷ v ∷ w ∷ []) =
    (p * 8 + q / 4)
    ∷ (q * 64 % 256 + r * 2 + s / 16)
    ∷ (s * 16 % 256 + t / 2)
    ∷ (t * 128 % 256 + u * 4 + v / 8)
    ∷ (v * 32 % 256 + w)
    ∷ []
pack _ = []

abbrev pub take : ℕ → List ℕ → List ℕ
take zero xs = []
take (suc n) [] = []
take (suc n) (x ∷ xs) = x ∷ take n xs

-- the end of the input at its first `=`: `block` is what was read of the last block, and `rest` is
-- what follows the `=`
unfoldable pub padded_end : (block rest : List ℕ) → Option (List ℕ)
padded_end block rest =
    let j = length block in
    if ltb (length rest + j) 7
    then none
    else if not (all (λ c. nat_eq c b'=') (take (7 - j) rest))
    then none
    else if nat_eq j 3 || nat_eq j 6
    then none
    else some (pack block)

abbrev pub prepend : List ℕ → Option (List ℕ) → Option (List ℕ)
prepend bytes none = none
prepend bytes (some more) = some (bytes ++ more)

-- `decode`: `block` is what was read of the current block; none is a `CorruptInputError`
unfoldable pub decode_from : (block src : List ℕ) → Option (List ℕ)
decode_from [] [] = some []
decode_from (b ∷ block) [] = none
decode_from block (c ∷ src) =
    if nat_eq c b'=' && leb 2 (length block) && ltb (length src) 8
    then padded_end block src
    else elim (value_of c) [
      | none ↦ none
      | some v ↦ elim (nat_eq (length block) 7) [
        | true ↦ prepend (pack (block ++ v ∷ [])) (decode_from [] src)
        | false ↦ decode_from (block ++ v ∷ []) src
      ]
    ]

abbrev pub is_newline : ℕ → Bool
is_newline c = nat_eq c 10 || nat_eq c 13

-- `DecodeString`
abbrev pub decode_string : List ℕ → Option (List ℕ)
decode_string src = decode_from [] (filter (λ c. not (is_newline c)) src)

abbrev pub replicate : ℕ → ℕ → List ℕ
replicate zero c = []
replicate (suc n) c = c ∷ replicate n c

-- `=` up to a multiple of 8, after so many bytes
abbrev pub padding : ℕ → List ℕ
padding n = if nat_eq (n % 8) 0 then [] else replicate (8 - n % 8) b'='

-- the capital letter of a character if that is in ASCII, else its own code, which no decoding takes
abbrev pub upper_code : ℕ → ℕ
upper_code c =
    if leb 97 c && leb c 122
    then c - 32
    else if nat_eq c 305
    then 73
    else if nat_eq c 383
    then 83
    else c

-- the bytes of a character in UTF-8
abbrev pub utf8_size : ℕ → ℕ
utf8_size c = if ltb c 128 then 1 else if ltb c 2048 then 2 else if ltb c 65536 then 3 else 4

abbrev pub byte_length : List ℕ → ℕ
byte_length [] = 0
byte_length (c ∷ cs) = utf8_size c + byte_length cs

abbrev pub codes : String → List ℕ
codes String.[] = []
codes (String.◌∷◌ c s) = code c ∷ codes s

abbrev pub text_of : List ℕ → String
text_of [] = String.[]
text_of (v ∷ vs) = String.◌∷◌ (symbol v) (text_of vs)

abbrev pub padded : List ℕ → List ℕ
padded cs = cs ++ padding (byte_length cs)

-- `base32Decode`: none is an error
unfoldable pub base32_decode : String → Option (List ℕ)
unfolding trim_space decode_from
base32_decode secret = decode_string (padded (map upper_code (codes (trim_space secret))))

-- `EncodeToString` without padding
unfoldable pub encode_to_string : List ℕ → String
unfolding encode symbol
encode_to_string bytes = text_of (encode bytes)
