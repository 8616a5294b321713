-- ===== src/Api/Requests.antt =====
-- What is sent, and what comes of the answer.
use Prim.Native.String
use text.Mathlib.TextPositions.{len-append}
use nexus_cloud_identity_acc.Common.{
  ℕ, String, Option, none, some, [], ◌∷◌, ◌≡◌, ◌≢◌, refl, ap, ◌∙◌, arith, Option-cases, ◌==◌, ◌+s◌,
  ◌&&◌, eq_iff, truthy, show, or_else, if◌then◌else◌, Bool-cases, inl, inr,
}
use nexus_cloud_identity_acc.Browser.{Headers, header, set_header, Response}
use nexus_cloud_identity_acc.Api.{headers_for, merge, error_message, or_text}

header-set_header :
    (k j v : String) (hs : Headers)
    → header j (set_header k v hs) ≡ (if k == j then some v else header j hs)
unfolding header set_header
header-set_header k j v [] = refl
header-set_header k j v ((i, w) ∷ hs) =
    ground (arith, eq_iff k j, eq_iff i k, eq_iff i j, header-set_header k j v hs)

-- the last value that the options give for a header
abbrev pub given : String → Headers → Option String → Option String
given k [] default = default
given k ((j, v) ∷ hs) default = given k hs (if j == k then some v else default)

header-merge :
    (k : String) (base hs : Headers) → header k (merge base hs) ≡ given k hs (header k base)
unfolding merge
header-merge k base [] = refl
header-merge k base ((j, v) ∷ hs) =
    header-merge k (set_header j v base) hs ∙ ap (given k hs) (header-set_header j k v base)

header-defaults :
    (k : String)
    → header k (("Content-Type", "application/json") ∷ [])
      ≡ (if "Content-Type" == k then some "application/json" else none)
unfolding header
header-defaults k = refl

-- The object of a request's headers holds the bearer token under `Authorization` where the client holds one that is
-- neither null nor empty, whatever headers the options give; any other header is the last that the
-- options give, and JSON is the content type where they give none.
pub header-headers_for :
    (token : Option String) (hs : Headers) (k : String)
    → header k (headers_for token hs) ≡ (
        if truthy token && ("Authorization" == k)
        then some ("Bearer " +s or_else token "")
        else given k hs (if "Content-Type" == k then some "application/json" else none))
unfolding headers_for
header-headers_for token hs k = elim (Bool-cases (truthy token)) [
  | inl held ↦ rw (held, header-set_header, header-merge) (rw header-defaults)
  | inr bare ↦ rw (bare, header-merge, header-defaults)
]

status_text-ne-empty : (n : ℕ) → ("Request failed with status " +s show n) ≢ ""
status_text-ne-empty n e =
    let h : String.len (String.◌++◌ "Request failed with status " (show n)) ≡ 0 = ap String.len e in
    omega (arith, len-append "Request failed with status " (show n))

or_text-ne-empty : (a : Option String) (b : String) → b ≢ "" → or_text a b ≢ ""
or_text-ne-empty none b h = h
or_text-ne-empty (some s) b h = ground (arith, eq_iff s "")

-- The message of a failed request is never empty: it is the body's `error`, else its `message`, else
-- a text that names the status.
pub error_message-ne-empty : {T : Type 0} (res : Response T) → error_message res ≢ ""
unfolding error_message
error_message-ne-empty res = elim (Option-cases res.body) [
  | inl e ↦ rw (e, error_message) (status_text-ne-empty res.status)
  | inr (d, e) ↦
      rw (e, error_message)
        (or_text-ne-empty d.error _
          (or_text-ne-empty d.message _ (status_text-ne-empty res.status)))
]
