-- ===== src/Auth/Races.antt =====
-- The provider with requests in flight: between a request and its answer the user may click, and other
-- answers may come, in any order.
use nexus_cloud_identity_acc.Common.{
  true, false, Option, none, some, List, [], ◌∷◌, ◌++◌, ◌≡◌, ◌≢◌, refl, truthy,
}
use nexus_cloud_identity_acc.Browser.{Result, ok}
use nexus_cloud_identity_acc.Types.{User, AuthResponse}
use nexus_cloud_identity_acc.Api.{set_token}
use nexus_cloud_identity_acc.Api.Token.{IsStored}
use nexus_cloud_identity_acc.Auth.{
  App, logout, profile_arrived, no_token, token_arrived, user_arrived,
}

-- what waits for an answer: `getMe` of `fetchProfile`, the two requests of `login`
pub data Pending : Type 0 where
  fetching signing_in reading_profile : Pending

pub record Tab (W : Type 0) : Type 0 where
  pub app : App W
  pub pending : List Pending

abbrev pub with_token : {W : Type 0} → AuthResponse → App W → App W
with_token res a = token_arrived res (record a { env = set_token (some res.token) a.env })

pub data Step {W : Type 0} (t : Tab W) : Tab W → Type 0 where
  refresh :
      truthy t.app.env.token ≡ true → Step t (record t { pending = t.pending ++ fetching ∷ [] })
  refresh_without : truthy t.app.env.token ≡ false → Step t (record t { app = no_token t.app })
  sign_in : Step t (record t { pending = t.pending ++ signing_in ∷ [] })
  sign_out : Step t (record t { app = logout t.app })
  fetched :
      (xs ys : List Pending) (r : Result (Option User))
      → t.pending ≡ xs ++ fetching ∷ ys
      → Step t (record { app = profile_arrived r t.app; pending = xs ++ ys })
  let_in :
      (xs ys : List Pending) (res : AuthResponse)
      → t.pending ≡ xs ++ signing_in ∷ ys
      → Step t (record { app = with_token res t.app; pending = xs ++ reading_profile ∷ ys })
  shown :
      (xs ys : List Pending) (p : Option User)
      → t.pending ≡ xs ++ reading_profile ∷ ys
      → Step t (record { app = user_arrived p t.app; pending = xs ++ ys })
  failed :
      (xs ys : List Pending) (p : Pending)
      → p ≢ fetching
      → t.pending ≡ xs ++ p ∷ ys
      → Step t (record { app = t.app; pending = xs ++ ys })

pub data Steps {W : Type 0} (s : Tab W) : Tab W → Type 0 where
  here : Steps s s
  next : {t u : Tab W} → Steps s t → Step t u → Steps s u

abbrev pub Agrees : {W : Type 0} → App W → Type 0
Agrees a = IsStored a.env × (a.session.token ≡ a.env.token)

module _ {W : Type 0} where
  profile_arrived-Agrees :
      (r : Result (Option User)) (a : App W) → Agrees a → Agrees (profile_arrived r a)
  unfolding profile_arrived logout set_token
  profile_arrived-Agrees (ok p) a h = h
  profile_arrived-Agrees _ a h = (refl, refl)

  Step-Agrees : {t u : Tab W} → Step t u → Agrees t.app → Agrees u.app
  unfolding no_token logout set_token token_arrived user_arrived
  Step-Agrees (refresh e) h = h
  Step-Agrees (refresh_without e) h = h
  Step-Agrees sign_in h = h
  Step-Agrees sign_out h = (refl, refl)
  Step-Agrees {t} (fetched xs ys r e) h = profile_arrived-Agrees r t.app h
  Step-Agrees (let_in xs ys res e) h = (refl, refl)
  Step-Agrees (shown xs ys p e) h = h
  Step-Agrees (failed xs ys p n e) h = h

  -- Whatever the order of clicks and answers, the storage holds the client's token (or nothing where
  -- it is empty) and the provider shows the client's token, if they did so at the start.
  pub Steps-Agrees : {s t : Tab W} → Steps s t → Agrees s.app → Agrees t.app
  Steps-Agrees here h = h
  Steps-Agrees (next r st) h = Step-Agrees st (Steps-Agrees r h)

  -- A profile that arrives after a sign-out signs its user in again: from any state with a token
  -- there is a run that ends with that user signed in and no token in the client or the storage.
  pub late_profile_signs_in :
      (a : App W) (u : User)
      → truthy a.env.token ≡ true
      → (t : Tab W) × Steps (record { app = a; pending = [] }) t
        × (t.app.session.user ≡ some u)
        × (t.app.env.token ≡ none)
        × (t.app.env.storage ≡ none)
  unfolding profile_arrived logout set_token
  late_profile_signs_in a u h = (
    record { app = profile_arrived (ok (some u)) (logout a); pending = [] },
    next (next (next here (refresh h)) sign_out) (fetched [] [] (ok (some u)) refl),
    refl,
    refl,
    refl,
  )
