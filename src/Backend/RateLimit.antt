-- ===== src/Backend/RateLimit.antt =====
-- backend/internal/security and `withRateLimit` of backend/cmd/server/main.go. Redis is a parameter.
pub mod Attempts
use nexus_cloud_identity_acc.Common.{
  ℕ, String, Bool, true, false, Option, none, some, [], leb, or_else, ◌+s◌, if◌then◌else◌,
}
use nexus_cloud_identity_acc.Types.{AuthResponse}
use nexus_cloud_identity_acc.Browser.{Response}
use nexus_cloud_identity_acc.Backend.Http.{failure}
use nexus_cloud_identity_acc.Backend.AuditLog.{rate_limit_triggered}
use nexus_cloud_identity_acc.Backend.Accounts.Service.{Bcrypt, Jwt, Moment}
use nexus_cloud_identity_acc.Backend.Accounts.Handlers.{Server, LoginRequest, login_handler, logged}

-- what `GET` gives for a counter: `redis.Nil`, its value, or an error
pub data Reading : Type 0 where
  missing : Reading
  counted : ℕ → Reading
  unavailable : Reading

-- `R` is the state behind the client, with its clock; none is an error
pub record Redis (R : Type 0) : Type 0 where
  pub get : (key : String) → R → Reading
  pub incr_expire : (key : String) → (ttl : ℕ) → R → Option ℕ × R
  pub del : (key : String) → R → Bool × R

-- `Limiter`; none is an error
pub record Limiter (R : Type 0) : Type 0 where
  pub is_rate_limited : (ip : String) → R → Option Bool
  pub record_failed_login : (ip : String) → R → Option (ℕ × Bool) × R
  pub reset_failed_logins : (ip : String) → R → Bool × R

abbrev pub max_login_attempts : ℕ
max_login_attempts = 5

-- 15 minutes, in seconds
abbrev pub lockout_duration : ℕ
lockout_duration = 900

abbrev pub login_key : String → String
login_key ip = "nexus:rate:login:" +s ip

abbrev pub limited_by : Reading → Option Bool
limited_by missing = some false
limited_by (counted n) = some (leb max_login_attempts n)
limited_by unavailable = none

abbrev pub recorded : {R : Type 0} → Option ℕ × R → Option (ℕ × Bool) × R
recorded (none, r) = (none, r)
recorded (some count, r) = (some (count, leb max_login_attempts count), r)

-- `RateLimiter`
unfoldable pub rate_limiter : {R : Type 0} → Redis R → Limiter R
rate_limiter redis = record {
  is_rate_limited = λ ip r. limited_by (redis.get (login_key ip) r);
  record_failed_login = λ ip r. recorded (redis.incr_expire (login_key ip) lockout_duration r);
  reset_failed_logins = λ ip r. redis.del (login_key ip) r;
}

-- `NilRateLimiter`
unfoldable pub nil_rate_limiter : {R : Type 0} → Limiter R
nil_rate_limiter = record {
  is_rate_limited = λ ip r. some false;
  record_failed_login = λ ip r. (some (0, false), r);
  reset_failed_logins = λ ip r. (true, r);
}

-- `withRateLimit`; an error is not a limit
unfoldable pub with_rate_limit :
    {R T : Type 0} → Limiter R → Moment → Response T × Server → Server → R → Response T × Server
with_rate_limit rl m next s r =
    if or_else (rl.is_rate_limited m.remote_addr r) false
    then (
      failure 429 "too many failed login attempts; try again in 15 minutes",
      record s { log = logged m "" rate_limit_triggered [] s.log },
    )
    else next

module _ {R : Type 0} (rl : Limiter R) (j : Jwt) (b : Bcrypt) where
  -- the route of the sign-in: neither the wrapper nor the handler writes to the limiter
  unfoldable pub login_route :
      Moment → Option LoginRequest → Server × R → Response AuthResponse × (Server × R)
  unfolding with_rate_limit
  login_route m body (s, r) =
      let (res, s') = with_rate_limit rl m (login_handler j b m body s) s r in (res, (s', r))
