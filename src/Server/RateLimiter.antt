-- ===== src/Server/RateLimiter.antt =====
-- server/rate_limiter.py: the bucket of a connection, which holds nothing and allows everything.
use group_chat.Prelude.{ℕ, Bool, true}

-- `TokenBucket(capacity, refill_per_sec)` keeps neither.
pub data TokenBucket : Type 0 where
  no_limit : TokenBucket

unfoldable new_bucket : ℕ → ℕ → TokenBucket
new_bucket capacity refill_per_sec = no_limit

unfoldable try_consume : ℕ → TokenBucket → Bool
try_consume cost bucket = true
