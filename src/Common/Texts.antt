-- ===== src/Common/Texts.antt =====
-- JavaScript's texts: truthiness, `String.prototype.includes`, decimal numerals, `parseInt`.
use Prim.Native.Nat.{ℕ, zero, suc, ◌+◌, ◌/◌, ◌%◌, compare, Ordering}
use Prim.Native.Char.{Char, code}
use Prim.Native.String.{String}
use Prim.Native.String
use mathlib.Core.Bool.{Bool, true, false, not}
use mathlib.Core.Option.{Option, none, some}
use mathlib.Core.List.{List, [], ◌∷◌}
use text.Mathlib.Text.{◌==◌, find?}
use nexus_cloud_identity_acc.Common.Tests.{if◌then◌else◌, is_some}

infixr 64 ◌+s◌
abbrev pub ◌+s◌ : String → String → String
s +s t = String.◌++◌ s t

-- the value of a string or of null in a condition: null and "" are false
abbrev pub truthy : Option String → Bool
truthy none = false
truthy (some s) = not (s == "")

-- `s.length`: UTF-16 units, two for a character above U+FFFF
abbrev pub utf16_length : String → ℕ
utf16_length String.[] = 0
utf16_length (String.◌∷◌ c s) =
    elim (compare (code c) 65536) [ Ordering.lt ↦ 1 | _ ↦ 2 ] + utf16_length s

-- `s.charAt(0)`; a character above U+FFFF is not cut into its units
abbrev pub first_char : String → String
first_char String.[] = String.[]
first_char (String.◌∷◌ c s) = String.◌∷◌ c String.[]

-- `s.substring(0, n)`, for a text of characters up to U+FFFF
abbrev pub substring : ℕ → String → String
substring zero s = String.[]
substring (suc n) String.[] = String.[]
substring (suc n) (String.◌∷◌ c s) = String.◌∷◌ c (substring n s)

-- `s.includes(t)`
unfoldable pub str_includes : String → String → Bool
str_includes s t = is_some (find? s t)

-- `xs.includes(x)` on an array of strings
abbrev pub includes : List String → String → Bool
includes [] x = false
includes (y ∷ ys) x = if y == x then true else includes ys x

abbrev pub digit : ℕ → String
digit zero = "0"
digit (suc zero) = "1"
digit (suc (suc zero)) = "2"
digit (suc (suc (suc zero))) = "3"
digit (suc (suc (suc (suc zero)))) = "4"
digit (suc (suc (suc (suc (suc zero))))) = "5"
digit (suc (suc (suc (suc (suc (suc zero)))))) = "6"
digit (suc (suc (suc (suc (suc (suc (suc zero))))))) = "7"
digit (suc (suc (suc (suc (suc (suc (suc (suc zero)))))))) = "8"
digit _ = "9"

-- The decimal digits; a number has at most `n + 1` of them, so the fuel of `show` is enough.
unfoldable pub show_from : ℕ → ℕ → String
show_from zero n = ""
show_from (suc f) n =
    let rest = show_from f (n / 10) in
    elim (compare n 10) [ Ordering.lt ↦ digit n | _ ↦ rest +s digit (n % 10) ]

-- a number in a template literal
unfoldable pub show : ℕ → String
unfolding show_from
show n = show_from (suc n) n

-- a character before the first part
abbrev pub push_front : Char → List String → List String
push_front c [] = String.◌∷◌ c String.[] ∷ []
push_front c (part ∷ parts) = String.◌∷◌ c part ∷ parts
