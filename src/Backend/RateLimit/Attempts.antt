-- ===== src/Backend/RateLimit/Attempts.antt =====
-- What the limiter counts, and what the route of the sign-in makes of it.
use nexus_cloud_identity_acc.Common.{
  ℕ, zero, suc, String, Bool, true, false, Option, none, some, List, [], ◌∷◌, leb, or_else, ◌≡◌,
  ◌≢◌, refl, ap, ◌∙◌, if◌then◌else◌, arith,
}
use nexus_cloud_identity_acc.Types.{AuthResponse}
use nexus_cloud_identity_acc.Browser.{Response}
use nexus_cloud_identity_acc.Backend.Accounts.Service.{Bcrypt, Jwt, Moment}
use nexus_cloud_identity_acc.Backend.Accounts.Handlers.{Server, LoginRequest, login_handler}
use nexus_cloud_identity_acc.Backend.RateLimit.{
  Redis, missing, counted, Limiter, rate_limiter, with_rate_limit, login_route, login_key,
  max_login_attempts, limited_by, recorded, lockout_duration,
}

abbrev pub Attempt : Type 0
Attempt = Moment × Option LoginRequest

module _ {R : Type 0} (rl : Limiter R) (j : Jwt) (b : Bcrypt) where
  -- the answers to a sequence of sign-ins
  abbrev pub answers_limited : List Attempt → Server × R → List (Response AuthResponse)
  answers_limited [] s = []
  answers_limited ((m, body) ∷ rest) s =
      let (res, s') = login_route rl j b m body s in res ∷ answers_limited rest s'

abbrev pub answers_unlimited : Jwt → Bcrypt → List Attempt → Server → List (Response AuthResponse)
answers_unlimited j b [] s = []
answers_unlimited j b ((m, body) ∷ rest) s =
    let (res, s') = login_handler j b m body s in res ∷ answers_unlimited j b rest s'

not_limited : (o : Option Bool) → o ≢ some true → or_else o false ≡ false
not_limited none h = refl
not_limited (some false) h = refl
not_limited (some true) h = elim (h refl) [ ]

-- If the limiter limits no address at the start, then no sequence of sign-ins, from whatever addresses
-- and however many of them fail, is limited: the answers are those of the handler without the limiter.
pub answers_limited-eq :
    {R : Type 0} (rl : Limiter R) (j : Jwt) (b : Bcrypt) (r : R)
    → ((ip : String) → rl.is_rate_limited ip r ≢ some true)
    → (attempts : List Attempt) (s : Server)
    → answers_limited rl j b attempts (s, r) ≡ answers_unlimited j b attempts s
unfolding login_route with_rate_limit
answers_limited-eq rl j b r free [] s = refl
answers_limited-eq rl j b r free ((m, body) ∷ rest) s =
    let open_door = not_limited (rl.is_rate_limited m.remote_addr r) (free m.remote_addr) in
    rw (open_door, with_rate_limit)
      (ap (λ rest'. (login_handler j b m body s).0 ∷ rest')
        (answers_limited-eq rl j b r free rest (login_handler j b m body s).1))

recorded-state : {R : Type 0} (x : Option ℕ × R) → (recorded x).1 ≡ x.1
recorded-state (none, r) = refl
recorded-state (some n, r) = refl

-- The counters of Redis, within the time that they live: what `INCR` and `DEL` make of them.
pub record RedisLaws {R : Type 0} (redis : Redis R) (count : String → R → ℕ) : Type 0 where
  pub reads :
      (key : String) (r : R)
      → redis.get key r ≡ (if leb 1 (count key r) then counted (count key r) else missing)
  pub incr_answer :
      (key : String) (ttl : ℕ) (r : R) → (redis.incr_expire key ttl r).0 ≡ some (suc (count key r))
  pub incr_count :
      (key : String) (ttl : ℕ) (r : R)
      → count key (redis.incr_expire key ttl r).1 ≡ suc (count key r)

module _ {R : Type 0} (redis : Redis R) (count : String → R → ℕ) (laws : RedisLaws redis count)
    (ip : String) where
  -- the state after some recorded failures of one address
  abbrev pub after_failures : ℕ → R → R
  after_failures zero r = r
  after_failures (suc n) r = ((rate_limiter redis).record_failed_login ip (after_failures n r)).1

  count_after :
      (n : ℕ) (r : R) → count (login_key ip) r ≡ 0 → count (login_key ip) (after_failures n r) ≡ n
  unfolding rate_limiter
  count_after zero r h = h
  count_after (suc n) r h =
      ap (λ x. count (login_key ip) x)
        (recorded-state (redis.incr_expire (login_key ip) lockout_duration (after_failures n r)))
      ∙ laws.incr_count (login_key ip) lockout_duration (after_failures n r)
      ∙ ap suc (count_after n r h)

  -- Within their lifetime, the failures that are recorded for an address limit it from the fifth on.
  pub limited_after_failures :
      (n : ℕ) (r : R)
      → count (login_key ip) r ≡ 0
      → (rate_limiter redis).is_rate_limited ip (after_failures n r)
        ≡ some (leb max_login_attempts n)
  unfolding rate_limiter
  limited_after_failures n r none_yet =
      let n_failures = count_after n r none_yet in
      rw (laws.reads (login_key ip) (after_failures n r), n_failures) (reading n)
    where
      reading :
          (k : ℕ)
          → limited_by (if leb 1 k then counted k else missing) ≡ some (leb max_login_attempts k)
      reading k = ground arith
