-- ===== src/Backend/Middleware.antt =====
-- backend/internal/middleware/http.go: the wrappers around every route, in the order of
-- backend/cmd/server/main.go. Header names are written as the source writes them; the body's limit is
-- `http.MaxBytesReader`'s, which fails the reading of a longer body, and is left to the body's decoding.
use mathlib.Core.List.{Memᴰ}
use nexus_cloud_identity_acc.Common.{
  ℕ, String, Bool, true, Option, none, some, List, [], ◌==◌, ◌&&◌, ◌||◌, not, map, includes,
  if◌then◌else◌, ◌≡◌, ◌≢◌, ◌⊎◌, ◌↔◌, refl, ap, sym, ◌∙◌, Bool-cases, inl, inr, true, eq_iff, ◌∷◌,
}
use nexus_cloud_identity_acc.Common.Maps.{lookup, put}

-- the parts of a request that the wrappers read: the method, and the header `Origin`, "" if it has none
pub record Head : Type 0 where
  pub method : String
  pub origin : String

abbrev pub Headers : Type 0
Headers = List (String × String)

-- A handler writes to the headers that are set already, and answers with a status and a body.
pub record Reply (B : Type 0) : Type 0 where
  pub status : ℕ
  pub headers : Headers
  pub body : Option B

abbrev pub Handler : Type 0 → Type 0 → Type 0
Handler B W = Head → Headers → W → Reply B × W

-- whether an origin may read the answers
abbrev pub origin_allowed : (lower : String → String) → List String → String → Bool
origin_allowed lower allowed origin =
    let origins = map lower allowed in
    not (origin == "") && (includes origins "*" || includes origins (lower origin))

abbrev pub cors_headers : String → Headers → Headers
cors_headers origin hs = put "Access-Control-Max-Age" "86400" (
    put "Access-Control-Allow-Credentials" "true" (
      put "Access-Control-Allow-Headers" "Content-Type, Authorization" (
        put "Access-Control-Allow-Methods" "GET, POST, PUT, PATCH, DELETE, OPTIONS"
          (put "Access-Control-Allow-Origin" origin hs))))

abbrev pub security_headers : Headers → Headers
security_headers hs = put "Content-Security-Policy" "default-src 'self'" (
    put "Referrer-Policy" "strict-origin-when-cross-origin" (
      put "X-XSS-Protection" "1; mode=block"
        (put "X-Frame-Options" "DENY" (put "X-Content-Type-Options" "nosniff" hs))))

module _ {B W : Type 0} where
  unfoldable pub cors : (lower : String → String) → List String → Handler B W → Handler B W
  cors lower allowed handler head hs w =
      let hs' =
        if origin_allowed lower allowed head.origin then cors_headers head.origin hs else hs in
      if head.method == "OPTIONS"
      then (record { status = 204; headers = hs'; body = none }, w)
      else handler head hs' w

  unfoldable pub with_security_headers : Handler B W → Handler B W
  with_security_headers handler head hs w = handler head (security_headers hs) w

  -- the stack of main.go around the router
  unfoldable pub stack : (lower : String → String) → List String → Handler B W → Handler B W
  unfolding cors with_security_headers
  stack lower allowed router = cors lower allowed (with_security_headers router)

abbrev pub allow_origin : String
allow_origin = "Access-Control-Allow-Origin"

-- the router leaves the header as it was
abbrev pub Leaves : {B W : Type 0} → Handler B W → Type 0
Leaves router =
    (head : Head) (hs : Headers) (w : _)
    → lookup allow_origin (router head hs w).0.headers ≡ lookup allow_origin hs

-- an origin that the configuration names, by itself in any case, or by `*`
abbrev pub Named : (lower : String → String) → List String → String → Type 0
Named lower allowed origin =
    (origin ≢ "") × (a : String) × Memᴰ a allowed × ((lower a ≡ "*") ⊎ (lower a ≡ lower origin))

includes-map_iff :
    (f : String → String) (xs : List String) (x : String)
    → (includes (map f xs) x ≡ true) ↔ ((a : String) × Memᴰ a xs × (f a ≡ x))
includes-map_iff f xs x = (there xs, λ (a, m, q). back xs a m q)
  where
    there : (xs : List String) → includes (map f xs) x ≡ true → (a : String) × Memᴰ a xs × (f a ≡ x)
    there [] h = cc h
    there (y ∷ ys) h = elim (Bool-cases (f y == x)) [
      | inl e ↦ (y, Memᴰ.head refl, (eq_iff (f y) x).0 e)
      | inr e ↦ let (a, m, q) = there ys (rw e at h) in (a, Memᴰ.tail m, q)
    ]

    back : (xs : List String) (a : String) → Memᴰ a xs → f a ≡ x → includes (map f xs) x ≡ true
    back [] a m q = elim m [ ]
    back (y ∷ ys) a (Memᴰ.head e) q = rw ((eq_iff (f y) x).1 (ap f (sym e) ∙ q)) refl
    back (y ∷ ys) a (Memᴰ.tail m) q = elim (Bool-cases (f y == x)) [
      | inl e ↦ rw e refl
      | inr e ↦ rw e (back ys a m q)
    ]

origin_allowed_iff :
    (lower : String → String) (allowed : List String) (origin : String)
    → (origin_allowed lower allowed origin ≡ true) ↔ Named lower allowed origin
origin_allowed_iff lower allowed origin =
    let star = includes-map_iff lower allowed "*" in
    let own = includes-map_iff lower allowed (lower origin) in
    (
      λ h. elim (Bool-cases (origin == "")) [
        | inl e ↦ cc (rw e at h)
        | inr e ↦ elim (Bool-cases (includes (map lower allowed) "*")) [
          | inl i ↦ let (a, m, q) = star.0 i in (λ z. cc (e, (eq_iff origin "").1 z), a, m, inl q)
          | inr i ↦
              let (a, m, q) = own.0 (rw (e, i) at h) in
              (λ z. cc (e, (eq_iff origin "").1 z), a, m, inr q)
        ]
      ],
      λ (some_origin, a, m, q). elim (Bool-cases (origin == "")) [
        | inl e ↦ absurd (some_origin ((eq_iff origin "").0 e))
        | inr e ↦ elim q [
          | inl s ↦ rw (e, star.1 (a, m, s)) refl
          | inr o ↦ elim (Bool-cases (includes (map lower allowed) "*")) [
            | inl i ↦ rw (e, i) refl
            | inr i ↦ rw (e, i) (own.1 (a, m, o))
          ]
        ]
      ],
    )

answer_header :
    {B W : Type 0} (lower : String → String) (allowed : List String) (router : Handler B W)
    (head : Head) (w : W)
    → Leaves router
    → lookup allow_origin (stack lower allowed router head [] w).0.headers
      ≡ (if origin_allowed lower allowed head.origin then some head.origin else none)
unfolding stack cors with_security_headers lookup put
answer_header lower allowed router head w leaves = elim (Bool-cases (head.method == "OPTIONS")) [
  | inl h ↦ rw h (elim (Bool-cases (origin_allowed lower allowed head.origin)) [
    | inl a ↦ rw a refl
    | inr a ↦ rw a refl
  ])
  | inr h ↦ rw h (elim (Bool-cases (origin_allowed lower allowed head.origin)) [
    | inl a ↦ rw a (leaves head (security_headers (cors_headers head.origin [])) w)
    | inr a ↦ rw a (leaves head (security_headers []) w)
  ])
]

preflight_answer :
    {B W : Type 0} (lower : String → String) (allowed : List String) (router : Handler B W)
    (head : Head) (w : W)
    → (head.method == "OPTIONS") ≡ true
    → ((stack lower allowed router head [] w).0.status ≡ 204)
      × ((stack lower allowed router head [] w).1 ≡ w)
unfolding stack cors
preflight_answer lower allowed router head w h = rw h (refl, refl)

-- Around a router that leaves `Access-Control-Allow-Origin` as it was, an answer names the request's
-- origin in it where the request has an origin and the configured list has, up to case, `*` or that
-- origin; else the answer has no such header. A request with the method OPTIONS is answered with 204 and
-- never reaches the router, whose state stays as it was.
pub stack-allow_origin :
    {B W : Type 0} (lower : String → String) (allowed : List String) (router : Handler B W)
    (head : Head) (w : W)
    → Leaves router
    → ((Named lower allowed head.origin
          × (lookup allow_origin (stack lower allowed router head [] w).0.headers
              ≡ some head.origin))
        ⊎ ((¬ Named lower allowed head.origin)
            × (lookup allow_origin (stack lower allowed router head [] w).0.headers ≡ none)))
      × ((head.method == "OPTIONS") ≡ true
          → ((stack lower allowed router head [] w).0.status ≡ 204)
            × ((stack lower allowed router head [] w).1 ≡ w))
stack-allow_origin lower allowed router head w leaves =
    let header = answer_header lower allowed router head w leaves in
    let named = origin_allowed_iff lower allowed head.origin in
    (
      elim (Bool-cases (origin_allowed lower allowed head.origin)) [
        | inl a ↦ inl (named.0 a, rw a at header)
        | inr a ↦ inr (λ n. cc (a, named.1 n), rw a at header)
      ],
      preflight_answer lower allowed router head w,
    )
