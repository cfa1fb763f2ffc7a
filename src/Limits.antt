-- ===== src/Limits.antt =====
-- Request limits that count in Redis (app/ratelimit/middleware.py and
-- app/slots/greeting/providers/rate_limit.py). Redis is the parameter `Redis`.
pub mod Laws
use oss_us_web_design_system.Base.{
  ℕ, zero, suc, ◌+◌, ◌-◌, ◌*◌, ◌/◌, ◌%◌, ◌≤◌, ◌≡◌, ◌≢◌, max, Bool, true, false, not, ◌&&◌, Option,
  none, some, List, [], ◌∷◌, ◌++◌, any, ◌==◌, ltb, if◌then◌else◌, Text, String, codes, strip,
  has_prefix,
}

-- The commands that the limiters use, on a store of counters; `none` and `false` are exceptions, and
-- a negative time to live is 0. INCR adds one to the counter of its key and answers with its new
-- value. EXPIRE leaves the counters as they are until the time that it sets.
pub record Redis : Type 1 where
  pub Store : Type 0
  pub incr : Text → Store → Option ℕ × Store
  pub expire : Text → ℕ → Store → Bool × Store
  pub ttl : Text → Store → Option ℕ
  pub count : Text → Store → ℕ
  pub incr_reply :
      (k : Text) (s : Store) {n : ℕ}
      → (incr k s).0 ≡ some n
      → (n ≡ suc (count k s)) × (count k (incr k s).1 ≡ n)
  pub incr_other : (j k : Text) (s : Store) → j ≢ k → count j (incr k s).1 ≡ count j s
  pub expire_count : (j k : Text) (w : ℕ) (s : Store) → count j (expire k w s).1 ≡ count j s

-- What the limiter answers: the request goes on, or it is refused for a number of seconds.
pub data Verdict : Type 0 where
  call_next : Verdict
  limited : ℕ → Verdict

-- `str` of a number. The fuel is more than the number of its digits.
unfoldable pub decimal_from : ℕ → ℕ → Text
decimal_from zero n = []
decimal_from (suc fuel) n =
    let rest = decimal_from fuel (n / 10) in
    if ltb n 10 then (48 + n) ∷ [] else rest ++ (48 + n % 10) ∷ []

unfoldable pub decimal : ℕ → Text
unfolding decimal_from
decimal n = decimal_from (suc n) n

pub record Request : Type 0 where
  pub path : Text
  pub x_forwarded_for : Option Text
  pub client_host : Option Text

pub record RateSettings : Type 0 where
  pub rate_limit_window_seconds : ℕ
  pub rate_limit_requests : ℕ

abbrev pub exempt_prefixes : List Text
exempt_prefixes =
    codes "/healthz" ∷ codes "/readyz" ∷ codes "/version" ∷ codes "/static" ∷ codes "/metrics" ∷ []

unfoldable pub is_exempt : Request → Bool
is_exempt request = any (λ p. has_prefix p request.path) exempt_prefixes

-- `s.split(",")[0]`.
unfoldable pub before_comma : Text → Text
before_comma [] = []
before_comma (c ∷ s) = let rest = before_comma s in if c == 44 then [] else c ∷ rest

unfoldable pub host_or_unknown : Option Text → Text
host_or_unknown none = codes "unknown"
host_or_unknown (some host) = host

-- A header that is there and not empty.
unfoldable pub forwarded : Option Text → Option Text
forwarded (some (c ∷ xff)) = some (c ∷ xff)
forwarded (some []) = none
forwarded none = none

-- `_client_id`.
unfoldable pub client_id : Request → Text
unfolding forwarded before_comma host_or_unknown
client_id request = elim (forwarded request.x_forwarded_for) [
  | some xff ↦ strip (before_comma xff)
  | none ↦ host_or_unknown request.client_host
]

-- The clock is in seconds.
unfoldable pub rate_key : RateSettings → ℕ → Request → Text
unfolding client_id decimal
rate_key settings now request =
    let window = max 1 settings.rate_limit_window_seconds in
    codes "ratelimit:" ++ client_id request ++ codes ":" ++ decimal (now / window)

abbrev pub window_seconds : ℕ
window_seconds = 3600

abbrev pub ceiling : ℕ
ceiling = 1000

unfoldable pub greeting_key : ℕ → ℕ → Text
unfolding decimal
greeting_key now org_id =
    codes "greeting_ratelimit:" ++ decimal org_id ++ codes ":" ++ decimal (now / window_seconds)

module _ (redis : Redis) where
  unfoldable pub retry_after : Text → ℕ → redis.Store → ℕ
  retry_after key window s = elim (redis.ttl key s) [ none ↦ window | some t ↦ max 1 t ]

  -- The answer to a request that a counter has counted.
  unfoldable pub judge : ℕ → Text → ℕ → ℕ → redis.Store → Verdict × redis.Store
  unfolding retry_after
  judge limit key window count s =
      if ltb limit count then (limited (retry_after key window s), s) else (call_next, s)

  -- Counting a request and starting the window at the first: `none` is an exception.
  unfoldable pub count_request : Text → ℕ → redis.Store → Option ℕ × redis.Store
  count_request key window s =
      let (reply, s1) = redis.incr key s in
      elim reply [
        | none ↦ (none, s1)
        | some count ↦
            if count == 1
            then (let (done, s2) = redis.expire key window s1 in
                if done then (some count, s2) else (none, s2))
            else (some count, s1)
      ]

  -- The limiters' shared shape: a limiter that cannot reach Redis lets the request through.
  unfoldable pub hit : ℕ → Text → ℕ → redis.Store → Verdict × redis.Store
  unfolding count_request judge
  hit limit key window s =
      let (reply, s') = count_request key window s in
      elim reply [ none ↦ (call_next, s') | some count ↦ judge limit key window count s' ]

  -- `RateLimitMiddleware.dispatch`.
  unfoldable pub dispatch : RateSettings → ℕ → Request → redis.Store → Verdict × redis.Store
  unfolding is_exempt rate_key hit
  dispatch settings now request s =
      let window = max 1 settings.rate_limit_window_seconds in
      if is_exempt request
      then (call_next, s)
      else hit settings.rate_limit_requests (rate_key settings now request) window s

  -- `check` of the greeting slot; `limited` is `RateLimited`.
  unfoldable pub check : ℕ → ℕ → redis.Store → Verdict × redis.Store
  unfolding greeting_key hit
  check now org_id s = hit ceiling (greeting_key now org_id) window_seconds s
