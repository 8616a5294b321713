-- ===== src/Backend/Bearer.antt =====
-- `RequireAuth` and `extractBearerToken` of backend/internal/auth/middleware.go, with Go's `SplitN`,
-- `EqualFold` and `TrimSpace`. `ValidateToken` rests on the JWT library and is a parameter. A missing
-- header is none, which Go reads as "".
pub mod Sent
use Prim.Native.Char.{Char, code}
use text.Mathlib.TextLemmas.{nil-append, cons-append}
use nexus_cloud_identity_acc.Common.{
  ℕ, ◌+◌, String, Bool, true, false, Option, none, some, ◌≡◌, refl, ap, ◌∙◌, ◌==◌, ◌&&◌, ◌||◌, not,
  nat_eq, leb, truthy, or_else, ◌+s◌, if◌then◌else◌, Bool-cases, inl, inr, eq_iff,
}
use nexus_cloud_identity_acc.Browser.{Headers, header}
use nexus_cloud_identity_acc.Api.{headers_for}
use nexus_cloud_identity_acc.Api.Requests.{header-headers_for}

-- `unicode.IsSpace`
abbrev pub is_space : ℕ → Bool
is_space n =
    (leb 9 n && leb n 13)
    || nat_eq n 32
    || nat_eq n 133
    || nat_eq n 160
    || nat_eq n 5760
    || (leb 8192 n && leb n 8202)
    || nat_eq n 8232
    || nat_eq n 8233
    || nat_eq n 8239
    || nat_eq n 8287
    || nat_eq n 12288

unfoldable pub trim_left : String → String
trim_left String.[] = String.[]
trim_left (String.◌∷◌ c s) =
    let rest = trim_left s in if is_space (code c) then rest else String.◌∷◌ c s

unfoldable pub trim_right : String → String
trim_right String.[] = String.[]
trim_right (String.◌∷◌ c s) =
    let rest = trim_right s in
    if is_space (code c) && rest == "" then String.[] else String.◌∷◌ c rest

-- `strings.TrimSpace`
unfoldable pub trim_space : String → String
unfolding trim_left trim_right
trim_space s = trim_right (trim_left s)

-- a capital letter of ASCII as the small one
abbrev fold_code : ℕ → ℕ
fold_code n = if leb 65 n && leb n 90 then n + 32 else n

-- `strings.EqualFold` where one of the texts is letters of ASCII other than K and S
unfoldable pub equal_fold : String → String → Bool
equal_fold String.[] String.[] = true
equal_fold String.[] (String.◌∷◌ d t) = false
equal_fold (String.◌∷◌ c s) String.[] = false
equal_fold (String.◌∷◌ c s) (String.◌∷◌ d t) =
    let rest = equal_fold s t in nat_eq (fold_code (code c)) (fold_code (code d)) && rest

abbrev in_front : Char → Option (String × String) → Option (String × String)
in_front c none = none
in_front c (some (p, t)) = some (String.◌∷◌ c p, t)

-- `strings.SplitN(s, " ", 2)` where it has two parts
split_space : String → Option (String × String)
split_space String.[] = none
split_space (String.◌∷◌ c s) =
    let rest = split_space s in if nat_eq (code c) 32 then some ("", s) else in_front c rest

abbrev token_part : Option (String × String) → Option String
token_part none = none
token_part (some (scheme, t)) =
    if not (equal_fold scheme "Bearer")
    then none
    else if trim_space t == ""
    then none
    else some (trim_space t)

unfoldable pub extract_bearer_token : Option String → Option String
unfolding split_space equal_fold trim_space
extract_bearer_token value =
    if truthy value then token_part (split_space (or_else value "")) else none

-- the claims that the next handler finds, or none for an answer of 401
unfoldable pub require_auth :
    {C : Type 0} → (validate : String → Option C) → Option String → Option C
unfolding extract_bearer_token
require_auth validate value = elim (extract_bearer_token value) [
  | none ↦ none
  | some token ↦ validate token
]

in_front_inv :
    (c : Char) (o : Option (String × String)) (a : String)
    → in_front c o ≡ some (a, "")
    → (b : String) × (o ≡ some (b, "")) × (a ≡ String.◌∷◌ c b)
in_front_inv c none a h = cc
in_front_inv c (some (p, t)) a h = (p, cc, cc)

-- a text with its first space at its end splits the same way before any other
split-append : (p a t : String) → split_space p ≡ some (a, "") → split_space (p +s t) ≡ some (a, t)
unfolding split_space
split-append String.[] a t h = cc
split-append (String.◌∷◌ c p) a t h = elim (Bool-cases (nat_eq (code c) 32)) [
  | inl e ↦
      let q : ◌≡◌ {A = Option (String × String)} (some ("", p)) (some (a, "")) = rw e at h in
      let front : "" ≡ a = cc in
      let back : p ≡ "" = cc in
      let same : (p +s t) ≡ t = ap (λ x. x +s t) back ∙ nil-append t in
      rw (cons-append c p t, split_space, e) (λ i. some (front i, same i))
  | inr e ↦
      let (b, q, r) = in_front_inv c (split_space p) a (rw e at h) in
      rw (cons-append c p t, split_space, e, split-append p b t q, r) refl
]

bearer_split : (t : String) → split_space ("Bearer " +s t) ≡ some ("Bearer", t)
unfolding split_space
bearer_split t = split-append "Bearer " "Bearer" t refl

bearer-ne-empty : (t : String) → (("Bearer " +s t) == "") ≡ false
unfolding split_space
bearer-ne-empty t = elim (Bool-cases (("Bearer " +s t) == "")) [
  | inl e ↦
      let none_there : split_space ("Bearer " +s t) ≡ none = ap split_space ((eq_iff _ _).0 e) in
      cc (none_there, bearer_split t)
  | inr e ↦ e
]

pub extract_bearer_token-bearer :
    (t : String)
    → (t == "") ≡ false
    → trim_space t ≡ t
    → extract_bearer_token (some ("Bearer " +s t)) ≡ some t
unfolding extract_bearer_token
extract_bearer_token-bearer t held bare = rw (bearer-ne-empty t, bearer_split t, bare, held) refl

-- The token from the value that the object of the headers has under this spelling.
pub extract-header :
    (token : String) (hs : Headers)
    → (token == "") ≡ false
    → trim_space token ≡ token
    → extract_bearer_token (header "Authorization" (headers_for (some token) hs)) ≡ some token
extract-header token hs held bare =
    ap extract_bearer_token (rw held at (header-headers_for (some token) hs "Authorization"))
    ∙ extract_bearer_token-bearer token held bare
