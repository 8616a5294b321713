-- ===== src/Examples/Codes.antt =====
-- One-time codes and the limiter, with a hash and a Redis.
use Prim.Native.String
use nexus_cloud_identity_acc.Common.{
  ℕ, suc, String, true, none, some, List, [], ◌∷◌, ◌≡◌, ◌≢◌, refl, ap, leb, or_else, arith,
  if◌then◌else◌,
}
use nexus_cloud_identity_acc.Common.Maps.{lookup, put, lookup-put_same}
use nexus_cloud_identity_acc.Backend.Base32.{
  base32_decode, encode_to_string, value_of, padded_end, pack,
}
use nexus_cloud_identity_acc.Backend.Totp.{generate_for, verify_secret}
use nexus_cloud_identity_acc.Backend.Totp.SetUp.{generate_for-verify_secret}
use nexus_cloud_identity_acc.Backend.Accounts.{new_memory_user_store}
use nexus_cloud_identity_acc.Backend.Accounts.Handlers.{Server}
use nexus_cloud_identity_acc.Backend.RateLimit.{Redis, missing, counted, rate_limiter, login_key}
use nexus_cloud_identity_acc.Backend.RateLimit.Attempts.{
  Attempt, answers_limited, answers_unlimited, answers_limited-eq, RedisLaws,
}
use nexus_cloud_identity_acc.Examples.Accounts.{bcrypt, jwt, moment}

abbrev pub hmac : List ℕ → List ℕ → List ℕ
hmac key message =
    31 ∷ 134 ∷ 152 ∷ 105 ∷ 14 ∷ 2 ∷ 202 ∷ 22 ∷ 97 ∷ 133 ∷ 80 ∷ 239 ∷ 127 ∷ 25 ∷ 218 ∷ 142 ∷ 148 ∷ 91
    ∷ 85 ∷ 90 ∷ []

generate_for-verify_secret_example :
    (code : String) × (generate_for hmac (encode_to_string (7 ∷ 200 ∷ 31 ∷ [])) 1000 ≡ some code)
    × (String.len code ≡ 6)
    × (verify_secret hmac (encode_to_string (7 ∷ 200 ∷ 31 ∷ [])) code 1029 ≡ some true)
generate_for-verify_secret_example =
    generate_for-verify_secret hmac (λ key message. refl) (7 ∷ 200 ∷ 31 ∷ []) 1000 1029
      (omega arith, (omega arith, (omega arith, tt))) (omega arith) (omega arith) (omega arith)

-- the secret and the code of RFC 6238 at 59 seconds
rfc_secret :
    base32_decode "gezdgnbvgy3tqojqgezdgnbvgy3tqojq"
    ≡ some (
        49 ∷ 50 ∷ 51 ∷ 52 ∷ 53 ∷ 54 ∷ 55 ∷ 56 ∷ 57 ∷ 48 ∷ 49 ∷ 50 ∷ 51 ∷ 52 ∷ 53 ∷ 54 ∷ 55 ∷ 56 ∷ 57
        ∷ 48 ∷ [])
unfolding base32_decode value_of pack
rfc_secret = refl

short_secret : base32_decode " MZXQ " ≡ some (102 ∷ 111 ∷ [])
unfolding base32_decode value_of padded_end pack
short_secret = refl

refused_secret : base32_decode "MZX" ≡ none
unfolding base32_decode value_of padded_end pack
refused_secret = refl

abbrev Counters : Type 0
Counters = List (String × ℕ)

count : String → Counters → ℕ
unfolding lookup
count key r = or_else (lookup key r) 0

redis : Redis Counters
unfolding count put
redis = record {
  get = λ key r. if leb 1 (count key r) then counted (count key r) else missing;
  incr_expire = λ key ttl r. (some (suc (count key r)), put key (suc (count key r)) r);
  del = λ key r. (true, r);
}

redis-RedisLaws : RedisLaws redis count
unfolding redis count
redis-RedisLaws = record {
  reads = λ key r. refl;
  incr_answer = λ key ttl r. refl;
  incr_count =
      λ key ttl r. ap (λ o. or_else o 0) (lookup-put_same key (suc (or_else (lookup key r) 0)) r);
}

abbrev wrong_password : Attempt
wrong_password = (moment, some (record { username = "grace"; password = "wrong" }))

abbrev server : Server
server = record { store = new_memory_user_store; log = [] }

not_limited : (ip : String) → (rate_limiter redis).is_rate_limited ip [] ≢ some true
unfolding rate_limiter redis count lookup
not_limited ip h = cc h

answers_limited-eq_example :
    answers_limited
      (rate_limiter redis)
      jwt
      bcrypt
      (wrong_password ∷ wrong_password ∷ wrong_password ∷ wrong_password ∷ wrong_password
        ∷ wrong_password ∷ [])
      (server, [])
    ≡ answers_unlimited jwt bcrypt
        (wrong_password ∷ wrong_password ∷ wrong_password ∷ wrong_password ∷ wrong_password
          ∷ wrong_password ∷ [])
        server
answers_limited-eq_example =
    answers_limited-eq (rate_limiter redis) jwt bcrypt [] not_limited
      (wrong_password ∷ wrong_password ∷ wrong_password ∷ wrong_password ∷ wrong_password
        ∷ wrong_password ∷ [])
      server

no_count : count (login_key "10.0.0.1:4000") [] ≡ 0
unfolding count lookup
no_count = refl
