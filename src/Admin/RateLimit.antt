-- ===== src/Admin/RateLimit.antt =====
-- app/admin/rate_limit.py: `LoginRateLimiter`. The clock counts microseconds.
pub mod Window
use crous_apartment_monitori.Common.Calendar.{second}
use crous_apartment_monitori.Common.{
  ◌++◌, true, false, ◌+◌, length, leb, [], str_eq, if◌then◌else◌, Bool, ◌∷◌, String, ◌*◌, List, ℕ,
}

-- `attempts` is the `defaultdict`: a key that was never used has none.
pub record LoginRateLimiter : Type 0 where
  pub limit : ℕ
  pub window : ℕ
  pub attempts : String → List ℕ

-- The default arguments of the constructor.
abbrev pub login_rate_limiter : LoginRateLimiter
login_rate_limiter = record { limit = 8; window = 60 * second; attempts = λ _. [] }

-- The `while` loop: `attempts[0] <= now - window`, without the difference.
unfoldable pub drop_expired : ℕ → ℕ → List ℕ → List ℕ
drop_expired window now [] = []
drop_expired window now (a ∷ rest) =
    let dropped = drop_expired window now rest in if leb (a + window) now then dropped else a ∷ rest

unfoldable pub store : String → List ℕ → LoginRateLimiter → LoginRateLimiter
store key row l = record l { attempts = λ k. if str_eq k key then row else l.attempts k }

unfoldable pub allow : String → ℕ → LoginRateLimiter → Bool × LoginRateLimiter
unfolding store
allow key now l =
    let attempts = drop_expired l.window now (l.attempts key) in
    if leb l.limit (length attempts)
    then (false, store key attempts l)
    else (true, store key (attempts ++ now ∷ []) l)
