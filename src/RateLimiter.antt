-- ===== src/RateLimiter.antt =====
-- app/utils/rate_limiter.py. The clock's reading is a natural number of ticks, an argument of each
-- call; the lock makes a call one step. `str.lower` is a parameter.
pub mod Key
mod Tests
pub mod Window
pub mod Retry
pub mod Composite
use Prim.Native.String.{◌++◌ as str_append}
use userverse.Base.{
  ℕ, ◌+◌, ◌-◌, String, Bool, true, false, Option, none, some, List, [], ◌∷◌, ◌++◌, ltb, leb, length,
  ◌==◌, string_Eq, if◌then◌else◌, Dict, lookup, put, pop,
}

-- `_WindowConfig`
pub record WindowConfig : Type 0 where
  pub limit : ℕ
  pub window_seconds : ℕ

pub record SlidingWindowRateLimiter : Type 0 where
  pub config : WindowConfig
  pub events : Dict String (List ℕ)

-- How `hit` ends: it returns, raises `RateLimitExceeded(retry_after)`, or reads `dq[0]` of an empty
-- deque.
pub data HitResult : Type 0 where
  accepted : HitResult
  exceeded : ℕ → HitResult
  index_error : HitResult

abbrev pub is_accepted : HitResult → Bool
is_accepted accepted = true
is_accepted (exceeded _) = false
is_accepted index_error = false

pub limiter : ℕ → ℕ → SlidingWindowRateLimiter
limiter limit window_seconds = record {
  config = record { limit = limit; window_seconds = window_seconds };
  events = [];
}

-- `self._events[key]` of the defaultdict
pub deque : String → SlidingWindowRateLimiter → List ℕ
deque key r = elim (lookup key r.events) [ none ↦ [] | some dq ↦ dq ]

-- The loop of `_prune`: `now - dq[0] > window`.
pub expire : ℕ → ℕ → List ℕ → List ℕ
expire window now [] = []
expire window now (t ∷ dq) =
    let rest = expire window now dq in if ltb (t + window) now then rest else t ∷ dq

-- `if not dq: self._events.pop(key, None)`
pub tidy : String → List ℕ → Dict String (List ℕ) → Dict String (List ℕ)
tidy key [] events = pop key events
tidy key (t ∷ dq) events = put key (t ∷ dq) events

-- `_prune`
pub prune : String → ℕ → SlidingWindowRateLimiter → SlidingWindowRateLimiter
unfolding expire tidy
prune key now r = record r {
  events = tidy key (expire r.config.window_seconds now (deque key r)) r.events;
}

-- `max(0.0, dq[0] + window_seconds - now)`, where there is a `dq[0]`
pub refuse : ℕ → ℕ → List ℕ → HitResult
refuse window now [] = index_error
refuse window now (t ∷ dq) = exceeded (t + window - now)

pub hit : String → ℕ → SlidingWindowRateLimiter → HitResult × SlidingWindowRateLimiter
unfolding refuse
hit key now r =
    let pruned = prune key now r in
    let dq = deque key pruned in
    if leb r.config.limit (length dq)
    then (
      refuse r.config.window_seconds now dq,
      record pruned { events = put key dq pruned.events },
    )
    else (accepted, record pruned { events = put key (dq ++ now ∷ []) pruned.events })

-- The deque of the key after a hit at `now`, given what was in it.
pub admit : ℕ → ℕ → ℕ → List ℕ → List ℕ
admit limit window now dq =
    let live = expire window now dq in if leb limit (length live) then live else live ++ now ∷ []

-- `SlidingWindowRateLimiter.reset`
pub reset : SlidingWindowRateLimiter → SlidingWindowRateLimiter
reset r = record r { events = [] }

-- `PasswordResetRateLimiter`; `VerificationEmailRateLimiter` has the same fields and methods.
pub record PasswordResetRateLimiter : Type 0 where
  pub per_email : SlidingWindowRateLimiter
  pub per_ip : SlidingWindowRateLimiter
  pub per_pair : SlidingWindowRateLimiter

pub password_reset_limiter : PasswordResetRateLimiter
unfolding limiter
password_reset_limiter = record {
  per_email = limiter 5 3600;
  per_ip = limiter 20 3600;
  per_pair = limiter 5 3600;
}

-- `ip_address or 'unknown'`
known_ip : Option String → String
known_ip none = "unknown"
known_ip (some ip) = if ip == "" then "unknown" else ip

-- `str.lower`, and the clock at each of the three hits
module _ (lower : String → String) where
  pub key_email : String → String
  key_email email = str_append "email:" (lower email)

  pub key_ip : Option String → String
  unfolding known_ip
  key_ip ip_address = str_append "ip:" (known_ip ip_address)

  pub key_pair : String → Option String → String
  unfolding known_ip
  key_pair email ip_address =
      str_append "pair:" (str_append (known_ip ip_address) (str_append ":" (lower email)))

  -- The first hit that raises ends the call; what the hits before it recorded stays.
  pub check :
      String
      → Option String
      → (ℕ × ℕ × ℕ)
      → PasswordResetRateLimiter
      → HitResult × PasswordResetRateLimiter
  unfolding key_email key_ip key_pair
  check email ip_address (now₁, now₂, now₃) r =
      let (by_email, per_email) = hit (key_email email) now₁ r.per_email in
      let (by_ip, per_ip) = hit (key_ip ip_address) now₂ r.per_ip in
      let (by_pair, per_pair) = hit (key_pair email ip_address) now₃ r.per_pair in
      if is_accepted by_email
      then (if is_accepted by_ip
          then (by_pair, record { per_email = per_email; per_ip = per_ip; per_pair = per_pair })
          else (by_ip, record r { per_email = per_email; per_ip = per_ip }))
      else (by_email, record r { per_email = per_email })

reset_all : PasswordResetRateLimiter → PasswordResetRateLimiter
unfolding reset
reset_all r = record {
  per_email = reset r.per_email;
  per_ip = reset r.per_ip;
  per_pair = reset r.per_pair;
}
