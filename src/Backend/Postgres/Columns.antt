-- ===== src/Backend/Postgres/Columns.antt =====
-- What PostgreSQL does with a text for a column of the migrations: a `VARCHAR(n)` takes a longer text only
-- where all that is beyond n characters is spaces, and cuts it to n; no text may have a character
-- of code 0.
use Prim.Native.Char
use nexus_cloud_identity_acc.Common.{
  ℕ, zero, suc, ◌≤◌, String, Bool, true, Option, none, some, ◌≡◌, refl, ap, ◌&&◌, not, nat_eq,
  arith,
}

-- the characters of a text, which a `VARCHAR` counts
unfoldable pub char_length : String → ℕ
char_length String.[] = 0
char_length (String.◌∷◌ c s) = suc (char_length s)

-- what is beyond a number of characters
abbrev pub beyond : ℕ → String → String
beyond zero s = s
beyond (suc n) String.[] = String.[]
beyond (suc n) (String.◌∷◌ c s) = beyond n s

abbrev pub is_blank : String → Bool
is_blank String.[] = true
is_blank (String.◌∷◌ c s) = nat_eq (Char.code c) 32 && is_blank s

abbrev pub takes : ℕ → String → Bool
takes n s = is_blank (beyond n s)

-- the text as it is stored
abbrev pub cut : ℕ → String → String
cut zero s = String.[]
cut (suc n) String.[] = String.[]
cut (suc n) (String.◌∷◌ c s) = String.◌∷◌ c (cut n s)

abbrev pub takes_optional : ℕ → Option String → Bool
takes_optional n none = true
takes_optional n (some s) = takes n s

abbrev pub cut_optional : ℕ → Option String → Option String
cut_optional n none = none
cut_optional n (some s) = some (cut n s)

abbrev pub has_no_null : String → Bool
has_no_null String.[] = true
has_no_null (String.◌∷◌ c s) = not (nat_eq (Char.code c) 0) && has_no_null s

pub takes_short : (n : ℕ) (s : String) → char_length s ≤ n → takes n s ≡ true
unfolding char_length
takes_short zero String.[] h = refl
takes_short zero (String.◌∷◌ c s) h = let x : ⊥ = omega arith in elim x [ ]
takes_short (suc n) String.[] h = refl
takes_short (suc n) (String.◌∷◌ c s) h = takes_short n s (omega arith)

pub cut_short : (n : ℕ) (s : String) → char_length s ≤ n → cut n s ≡ s
unfolding char_length
cut_short zero String.[] h = refl
cut_short zero (String.◌∷◌ c s) h = let x : ⊥ = omega arith in elim x [ ]
cut_short (suc n) String.[] h = refl
cut_short (suc n) (String.◌∷◌ c s) h = ap (String.◌∷◌ c) (cut_short n s (omega arith))
