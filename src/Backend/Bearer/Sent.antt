-- ===== src/Backend/Bearer/Sent.antt =====
-- The headers of frontend/src/services/api.ts as they arrive at `extractBearerToken`: `fetch` joins the
-- values of the names that are the same up to case.
use nexus_cloud_identity_acc.Common.{
  String, true, Option, none, some, [], ◌∷◌, ◌≡◌, ◌+s◌, if◌then◌else◌,
}
use nexus_cloud_identity_acc.Browser.{Headers}
use nexus_cloud_identity_acc.Backend.Bearer.{equal_fold}

abbrev joined : String → Option String → String
joined v none = v
joined v (some w) = v +s ", " +s w

-- the value that the server reads for a name
unfoldable pub received : String → Headers → Option String
unfolding equal_fold
received k [] = none
received k ((j, v) ∷ hs) =
    let rest = received k hs in if equal_fold j k then some (joined v rest) else rest

abbrev authorization : String
authorization = "Authorization"

-- a name that is `Authorization` up to case is that text
abbrev pub Exact : String → Type 0
Exact j = equal_fold j "Authorization" ≡ true → j ≡ "Authorization"

-- at most one name is `Authorization` up to case, and that is the text
abbrev Single : Headers → Type 0
Single [] = Unit
Single ((j, v) ∷ hs) =
    (equal_fold j "Authorization" ≡ true
      → (j ≡ "Authorization") × (received "Authorization" hs ≡ none))
    × Single hs
