-- ===== src/Auth/RateLimit.antt =====
-- auth/rate_limit.py. Redis is a parameter: it runs a transaction of three commands and returns their
-- three replies. The reply to TTL is none where the time to live is not positive.
use foundora_ai.Base.{
  ℕ, zero, suc, ◌+◌, ◌-◌, ◌≡◌, min, max, arith, String, Bool, true, false, Option, none, some,
  Result, ok, err, if◌then◌else◌, ltb, Bool-cases, inl, inr,
}
use Prim.Native.String.{◌++◌ as ◌+++◌}

-- The commands that the pipeline sends.
pub data Command : Type 0 where
  incr : (key : String) → Command
  expire : (key : String) (seconds : ℕ) (nx : Bool) → Command
  ttl : (key : String) → Command

pub record Redis (Store : Type 0) : Type 0 where
  pub execute : Command × Command × Command → Store → (ℕ × Bool × Option ℕ) × Store

-- The arguments of `enforce_rate_limit` behind the connection.
pub record RateLimit : Type 0 where
  pub scope : String
  pub identity : String
  pub limit : ℕ
  pub window_seconds : ℕ

unfoldable pub rate_key : (String → String) → RateLimit → String
rate_key sha256 r = "foundora:rate:" +++ r.scope +++ ":" +++ sha256 r.identity

-- The seconds that `RateLimitExceeded` carries.
abbrev pub retry_after : RateLimit → Option ℕ → ℕ
retry_after r none = max r.window_seconds 1
retry_after r (some left) = max left 1

-- `pipeline.incr`, `pipeline.expire` and `pipeline.ttl`, in their order.
abbrev pub pipeline : String → ℕ → Command × Command × Command
pipeline key window_seconds = (incr key, expire key window_seconds true, ttl key)

-- The error is the `retry_after` of `RateLimitExceeded`. The counter moves in both cases.
unfoldable pub enforce_rate_limit :
    {Store : Type 0}
    → Redis Store
    → (String → String)
    → RateLimit
    → Store
    → Result ℕ (Unit {0}) × Store
enforce_rate_limit redis sha256 r s =
    let ((count, _, left), s') = redis.execute (pipeline (rate_key sha256 r) r.window_seconds) s in
    (if ltb r.limit count then err (retry_after r left) else ok tt, s')

-- What Redis documents of INCR: the key counts its calls until it expires.
pub record Counts {Store : Type 0} (redis : Redis Store) (key : String) (window : ℕ)
    (value : Store → ℕ) : Type 0 where
  pub returned : (s : Store) → (redis.execute (pipeline key window) s).0.0 ≡ suc (value s)
  pub stored : (s : Store) → value (redis.execute (pipeline key window) s).1 ≡ suc (value s)

abbrev pub passes : {E : Type 0} → Result E (Unit {0}) → ℕ
passes (ok u) = 1
passes (err e) = 0

-- How many of n calls in a row pass.
unfoldable pub passed :
    {Store : Type 0} → Redis Store → (String → String) → RateLimit → ℕ → Store → ℕ
passed redis sha256 r zero s = 0
passed redis sha256 r (suc n) s =
    let (result, s') = enforce_rate_limit redis sha256 r s in
    passes result + passed redis sha256 r n s'

none_left : (l c v n : ℕ) → ltb l c ≡ true → c ≡ suc v → 0 + min n (l - suc v) ≡ min (suc n) (l - v)
none_left l c v n h e = ground arith

one_left : (l c v n : ℕ) → ltb l c ≡ false → c ≡ suc v → 1 + min n (l - suc v) ≡ min (suc n) (l - v)
one_left l c v n h e = ground arith

-- While the key of an identity counts its calls, of n calls in a row exactly those pass that the limit
-- leaves after the calls already counted.
pub passed-min :
    {Store : Type 0} (redis : Redis Store) (sha256 : String → String) (r : RateLimit)
    (value : Store → ℕ) (n : ℕ) (s : Store)
    → Counts redis (rate_key sha256 r) r.window_seconds value
    → passed redis sha256 r n s ≡ min n (r.limit - value s)
unfolding passed enforce_rate_limit
passed-min redis sha256 r value zero s c = omega arith
passed-min redis sha256 r value (suc n) s c =
    let reply = redis.execute (pipeline (rate_key sha256 r) r.window_seconds) s in
    let rest = passed-min redis sha256 r value n reply.1 c in
    let count = c.returned s in
    let next = c.stored s in
    elim (Bool-cases (ltb r.limit reply.0.0)) [
      | inl over ↦ rw over (rw (rest, next) (none_left r.limit reply.0.0 (value s) n over count))
      | inr under ↦ rw under (rw (rest, next) (one_left r.limit reply.0.0 (value s) n under count))
    ]
