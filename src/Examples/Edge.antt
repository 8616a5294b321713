-- ===== src/Examples/Edge.antt =====
-- A router behind the wrappers of the server.
use nexus_cloud_identity_acc.Common.{
  ℕ, String, List, none, some, [], ◌∷◌, ◌==◌, true, ◌≡◌, refl, ◌⊎◌,
}
use nexus_cloud_identity_acc.Common.Maps.{lookup}
use nexus_cloud_identity_acc.Backend.Middleware.{
  Head, Handler, Leaves, allow_origin, Named, stack, stack-allow_origin,
}

-- It answers with what it counts.
abbrev counter : Handler ℕ ℕ
counter head hs n = (record { status = 200; headers = hs; body = some n }, ℕ.suc n)

counter-Leaves : Leaves counter
counter-Leaves head hs w = refl

abbrev allowed : List String
allowed = "http://localhost:5173" ∷ []

abbrev preflight : Head
preflight = record { method = "OPTIONS"; origin = "http://localhost:5173" }

stack-allow_origin_example :
    ((Named (λ s. s) allowed preflight.origin
        × (lookup allow_origin (stack (λ s. s) allowed counter preflight [] 3).0.headers
            ≡ some preflight.origin))
      ⊎ ((¬ Named (λ s. s) allowed preflight.origin)
          × (lookup allow_origin (stack (λ s. s) allowed counter preflight [] 3).0.headers ≡ none)))
    × ((preflight.method == "OPTIONS") ≡ true
        → ((stack (λ s. s) allowed counter preflight [] 3).0.status ≡ 204)
          × ((stack (λ s. s) allowed counter preflight [] 3).1 ≡ 3))
stack-allow_origin_example = stack-allow_origin (λ s. s) allowed counter preflight 3 counter-Leaves
