-- ===== src/Pages/Settings/Inspector.antt =====
-- What the token inspector decodes.
use Prim.Native.Char.{Char, code}
use Prim.Native.String
use text.Mathlib.TextEquality.{Char-path}
use text.Mathlib.TextLemmas.{nil-append, cons-append}
use nexus_cloud_identity_acc.Common.{
  String, Bool, true, false, Option, some, List, [], ◌∷◌, ◌≡◌, ◌≢◌, refl, sym, ap, ◌∙◌, arith, All,
  ◌+s◌, inl, inr, Bool-cases, nat_eq, if◌then◌else◌,
}
use nexus_cloud_identity_acc.Pages.Settings.{push_front, split_dots, decoded_payload, payload_part}

abbrev pub NoDot : String → Type 0
NoDot String.[] = Unit
NoDot (String.◌∷◌ c s) = (code c ≢ b'.') × NoDot s

-- the parts with a dot between them
abbrev pub join_dots : List String → String
join_dots [] = ""
join_dots (part ∷ []) = part
join_dots (part ∷ more ∷ parts) = part +s "." +s join_dots (more ∷ parts)

push_front-NoDot :
    (c : Char) (parts : List String)
    → code c ≢ b'.'
    → All NoDot parts
    → All NoDot (push_front c parts)
push_front-NoDot c [] h k = ((h, tt), tt)
push_front-NoDot c (part ∷ parts) h k = ((h, k.0), k.1)

split_dots-NoDot : (s : String) → All NoDot (split_dots s)
unfolding split_dots
split_dots-NoDot String.[] = (tt, tt)
split_dots-NoDot (String.◌∷◌ c s) =
    ground (arith, split_dots-NoDot s, push_front-NoDot c (split_dots s))

-- a split text has a first part
first_part : (s : String) → (p : String) × (ps : List String) × (split_dots s ≡ p ∷ ps)
unfolding split_dots
first_part String.[] = ("", [], refl)
first_part (String.◌∷◌ c s) = go (nat_eq (code c) b'.') (split_dots s)
  where
    go :
        (b : Bool) (parts : List String)
        → (p : String) × (ps : List String) × ((if b then "" ∷ parts else push_front c parts)
            ≡ p ∷ ps)
    go true parts = ("", parts, refl)
    go false [] = (String.◌∷◌ c String.[], [], refl)
    go false (part ∷ parts) = (String.◌∷◌ c part, parts, refl)

join-push_front :
    (c : Char) (p : String) (ps : List String)
    → join_dots (push_front c (p ∷ ps)) ≡ String.◌∷◌ c (join_dots (p ∷ ps))
join-push_front c p [] = refl
join-push_front c p (q ∷ ps) = cons-append c p _

join-dot : (p : String) (ps : List String) → join_dots ("" ∷ p ∷ ps) ≡ "." +s join_dots (p ∷ ps)
join-dot p ps = nil-append _

dot_front : (c : Char) (s : String) → code c ≡ b'.' → ("." +s s) ≡ String.◌∷◌ c s
dot_front c s e =
    ap (λ d. String.◌++◌ (String.◌∷◌ d String.[]) s) (Char-path (Char.char 46 tt) c (sym e))
    ∙ (cons-append c String.[] s ∙ ap (String.◌∷◌ c) (nil-append s))

join_dots-split_dots : (s : String) → join_dots (split_dots s) ≡ s
unfolding split_dots
join_dots-split_dots String.[] = refl
join_dots-split_dots (String.◌∷◌ c s) =
    let (p, ps, e) = first_part s in
    let ih : join_dots (p ∷ ps) ≡ s = rw e at (join_dots-split_dots s) in
    elim (Bool-cases (nat_eq (code c) b'.')) [
      | inl dot ↦
          rw (dot, e) (join-dot p ps ∙ (dot_front c _ (ground arith) ∙ ap (String.◌∷◌ c) ih))
      | inr other ↦ rw (other, e) (join-push_front c p ps ∙ ap (String.◌∷◌ c) ih)
    ]

three :
    {Claims : Type 0} (decode : String → Option Claims) (parts : List String) (claims : Claims)
    → payload_part decode parts ≡ some claims
    → (a : String) × (b : String) × (c : String) × (parts ≡ a ∷ b ∷ c ∷ [])
      × (decode b ≡ some claims)
three decode (a ∷ b ∷ c ∷ []) claims h = (a, b, c, refl, h)
three decode _ claims h = cc

-- The inspector shows claims only for a token of exactly three parts joined by dots, with no dot in
-- any of them, and the claims are those that the middle part decodes to.
pub decoded_payload_sound :
    {Claims : Type 0} (decode : String → Option Claims) (token : String) (claims : Claims)
    → decoded_payload decode (some token) ≡ some claims
    → (a : String) × (b : String) × (c : String) × (token ≡ join_dots (a ∷ b ∷ c ∷ []))
      × All NoDot (a ∷ b ∷ c ∷ [])
      × (decode b ≡ some claims)
unfolding decoded_payload
decoded_payload_sound decode token claims h =
    let shown : payload_part decode (split_dots token) ≡ some claims = ground (arith, h) in
    let (a, b, c, e, d) = three decode (split_dots token) claims shown in
    (
      a,
      b,
      c,
      sym (join_dots-split_dots token) ∙ ap join_dots e,
      rw e at (split_dots-NoDot token),
      d,
    )
