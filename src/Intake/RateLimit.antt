-- ===== src/Intake/RateLimit.antt =====
-- backend/app/public_intake/rate_limit.py. Redis is not part of the program: it is a record of the two
-- commands that the code sends, on a state of its own.
use realesatecrm.Base.{ℕ, Text, Bool, not, ◌++◌, ◌==◌, ltb, if◌then◌else◌, codes}
use realesatecrm.Core.Errors.{Result, ok, raised}

-- `connected` is false where `get_redis_client` gives None.
pub record Redis (S : Type 0) : Type 0 where
  pub connected : Bool
  pub incr : Text → S → Result ℕ × S
  pub expire : Text → ℕ → S → Result (Unit {0}) × S

-- It returns, or raises RateLimitExceededError (429) or RateLimiterUnavailableError (503).
pub data Verdict : Type 0 where
  admitted exceeded unavailable : Verdict

abbrev pub window_seconds : ℕ
window_seconds = 60

abbrev pub key_of : Text → Text → Text
key_of tenant_slug client_ip = codes "public_intake_rl:" ++ tenant_slug ++ codes ":" ++ client_ip

module _ {S : Type 0} (redis : Redis S) (limit : ℕ) where
  abbrev pub judge : ℕ → Verdict
  judge count = if ltb limit count then exceeded else admitted

  abbrev pub after_expire : ℕ → Result (Unit {0}) × S → Verdict × S
  after_expire count (ok u, s) = (judge count, s)
  after_expire count (raised e, s) = (unavailable, s)

  abbrev pub after_incr : Text → Result ℕ × S → Verdict × S
  after_incr key (raised e, s) = (unavailable, s)
  after_incr key (ok count, s) =
      if count == 1
      then after_expire count (redis.expire key window_seconds s)
      else (judge count, s)

  unfoldable pub enforce_public_intake_rate_limit : Text → Text → S → Verdict × S
  enforce_public_intake_rate_limit tenant_slug client_ip s =
      if not redis.connected
      then (unavailable, s)
      else after_incr (key_of tenant_slug client_ip) (redis.incr (key_of tenant_slug client_ip) s)
