-- ===== src/RateLimiter/Retry.antt =====
-- app/utils/rate_limiter.py: how many times a deque holds, and what `retry_after` promises.
use userverse.Base.{
  ℕ, ◌+◌, ◌≤◌, ◌<◌, String, ◌≡◌, refl, ◌↔◌, true, false, List, [], ◌∷◌, arith, leb, length, ==_iff,
  ==_refl, string_Eq, length-append,
}
use userverse.RateLimiter.{
  SlidingWindowRateLimiter, exceeded, is_accepted, deque, expire, refuse, hit, admit,
}
use userverse.RateLimiter.Key.{deque-hit, hit-result, accepted-hit, config-hit}

length-expire : (window now : ℕ) (dq : List ℕ) → length (expire window now dq) ≤ length dq
unfolding expire
length-expire window now [] = omega arith
length-expire window now (t ∷ dq) = ground (arith, length-expire window now dq)

length-admit :
    (limit window now : ℕ) (dq : List ℕ)
    → length dq ≤ limit
    → length (admit limit window now dq) ≤ limit
unfolding admit
length-admit limit window now dq h =
    ground (arith, length-expire window now dq, length-append (expire window now dq) (now ∷ []))

-- No deque holds more times than the limit.
abbrev pub IsBounded : SlidingWindowRateLimiter → Type 0
IsBounded r = (key : String) → length (deque key r) ≤ r.config.limit

-- A hit, whether it returns or raises, leaves no deque longer than the limit if none was.
hit-IsBounded :
    (key : String) (now : ℕ) (r : SlidingWindowRateLimiter)
    → IsBounded r
    → IsBounded (hit key now r).1
hit-IsBounded key now r h k = ground (
  arith,
  h k,
  h key,
  ==_iff key k,
  config-hit key now r,
  deque-hit key k now r,
  length-admit r.config.limit r.config.window_seconds now (deque key r),
)

expire-head :
    (window now : ℕ) (dq : List ℕ) {t : ℕ} {rest : List ℕ}
    → expire window now dq ≡ t ∷ rest
    → now ≤ t + window
unfolding expire
expire-head window now [] e = cc
expire-head window now (u ∷ dq) {t} {rest} e =
    ground (arith, expire-head window now dq {t = t} {rest = rest})

-- What is left of the times left at `now`, at a later time.
retry-expire :
    (limit window now later retry_after : ℕ) (live : List ℕ)
    → ((t : ℕ) (rest : List ℕ) → live ≡ t ∷ rest → now ≤ t + window)
    → refuse window now live ≡ exceeded retry_after
    → length live ≡ limit
    → (leb limit (length (expire window later live)) ≡ false) ↔ (now + retry_after < later)
unfolding refuse expire
retry-expire limit window now later retry_after [] head e n = cc
retry-expire limit window now later retry_after (t ∷ rest) head e n =
    ground (arith, head t rest refl, length-expire window later rest)

-- A hit that was refused with `retry_after` is let through at a later time exactly if more than
-- `retry_after` ticks have passed; at `now + retry_after` itself it is refused once more. Assumed
-- is that the limiter holds at most `limit` times for each key.
pub retry_after_iff :
    (key : String) (now later retry_after : ℕ) (r : SlidingWindowRateLimiter)
    → IsBounded r
    → (hit key now r).0 ≡ exceeded retry_after
    → (is_accepted (hit key later (hit key now r).1).0 ≡ true) ↔ (now + retry_after < later)
unfolding admit
retry_after_iff key now later retry_after r bounded e =
    let live = expire r.config.window_seconds now (deque key r) in
    let refused : leb r.config.limit (length live) ≡ true = ground (arith, hit-result key now r) in
    let full : length live ≡ r.config.limit =
      ground (arith, bounded key, length-expire r.config.window_seconds now (deque key r)) in
    let reason : refuse r.config.window_seconds now live ≡ exceeded retry_after =
      ground (arith, hit-result key now r) in
    let kept : deque key (hit key now r).1 ≡ live =
      ground (arith, deque-hit key key now r, ==_refl key) in
    ground (
      arith,
      kept,
      config-hit key now r,
      accepted-hit key later (hit key now r).1,
      retry-expire r.config.limit r.config.window_seconds now later retry_after live
          (λ t rest. expire-head r.config.window_seconds now (deque key r)) reason full,
    )
