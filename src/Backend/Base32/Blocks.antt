-- ===== src/Backend/Base32/Blocks.antt =====
-- The symbols of the alphabet, and the decoding of one block.
use Prim.Native.Char.{code}
use nexus_cloud_identity_acc.Common.{
  ℕ, zero, suc, ◌<◌, Bool, true, false, Option, none, some, List, [], ◌∷◌, ◌++◌, ◌&&◌, not, nat_eq,
  length, arith, ◌≡◌, refl, ap,
}
use nexus_cloud_identity_acc.Backend.Base32.{value_of, symbol, pack, prepend, decode_from}

abbrev pub code_of : ℕ → ℕ
code_of v = code (symbol v)

-- a test that holds of all numbers below a bound
abbrev pub holds_below : (ℕ → Bool) → ℕ → Bool
holds_below p zero = true
holds_below p (suc n) = p n && holds_below p n

pub holds_below_sound : (p : ℕ → Bool) (n v : ℕ) → holds_below p n ≡ true → v < n → p v ≡ true
holds_below_sound p zero v h l = let x : ⊥ = omega arith in elim x [ ]
holds_below_sound p (suc n) v h l = ground (arith, holds_below_sound p n v)

abbrev is_value : ℕ → Bool
is_value v = elim (value_of (code_of v)) [ none ↦ false | some w ↦ nat_eq w v ]

values_fit : holds_below is_value 32 ≡ true
unfolding symbol value_of
values_fit = refl

no_padding : holds_below (λ v. not (nat_eq (code_of v) b'=')) 32 ≡ true
unfolding symbol
no_padding = refl

from_test :
    (o : Option ℕ) (v : ℕ) → elim o [ none ↦ false | some w ↦ nat_eq w v ] ≡ true → o ≡ some v
from_test none v h = cc
from_test (some w) v h = ap some (ground arith)

pub value_of-code_of : (v : ℕ) → v < 32 → value_of (code_of v) ≡ some v
value_of-code_of v l =
    from_test (value_of (code_of v)) v (holds_below_sound is_value 32 v values_fit l)

pub code_of-ne-padding : (v : ℕ) → v < 32 → nat_eq (code_of v) b'=' ≡ false
code_of-ne-padding v l =
    let h = holds_below_sound (λ w. not (nat_eq (code_of w) b'=')) 32 v no_padding l in ground arith

-- one value of a block
pub inner_value :
    (block src : List ℕ) (v : ℕ)
    → v < 32
    → length block < 7
    → decode_from block (code_of v ∷ src) ≡ decode_from (block ++ v ∷ []) src
unfolding decode_from
inner_value [] src v l short = ground (arith, code_of-ne-padding v l, value_of-code_of v l)
inner_value (b ∷ block) src v l short = ground (arith, code_of-ne-padding v l, value_of-code_of v l)

pub last_value :
    (block src : List ℕ) (v : ℕ)
    → v < 32
    → length block ≡ 7
    → decode_from block (code_of v ∷ src) ≡ prepend (pack (block ++ v ∷ [])) (decode_from [] src)
unfolding decode_from
last_value [] src v l full = ground (arith, code_of-ne-padding v l, value_of-code_of v l)
last_value (b ∷ block) src v l full = ground (arith, code_of-ne-padding v l, value_of-code_of v l)
