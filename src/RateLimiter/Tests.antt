-- ===== src/RateLimiter/Tests.antt =====
-- app/utils/rate_limiter.py on short histories.
use userverse.Base.{
  String, ◌≡◌, refl, ◌≤◌, ◌<◌, ◌+◌, ◌↔◌, true, none, some, List, [], ◌∷◌, arith, string_Eq, lookup,
  put, pop,
}
use userverse.RateLimiter.{
  SlidingWindowRateLimiter, exceeded, index_error, is_accepted, limiter, deque, expire, tidy, prune,
  refuse, hit, password_reset_limiter, key_email,
}
use userverse.RateLimiter.Window.{Call, replay, count, lies_in, window_guarantee}
use userverse.RateLimiter.Retry.{IsBounded, retry_after_iff}
use userverse.RateLimiter.Composite.{Check, email_call, replay_checks, email_guarantee}

abbrev two_per_ten : SlidingWindowRateLimiter
two_per_ten = record {
  config = record { limit = 2; window_seconds = 10 };
  events = ("a", 1 ∷ 5 ∷ []) ∷ [];
}

limiting : Unit {0}
unfolding hit prune tidy expire deque refuse lookup put pop
limiting = tt

third_hit_refused : (hit "a" 8 two_per_ten).0 ≡ exceeded 3
unfolding limiting
third_hit_refused = refl

hit_after_window : deque "a" (hit "a" 12 two_per_ten).1 ≡ 5 ∷ 12 ∷ []
unfolding limiting
hit_after_window = refl

limit_zero : (hit "a" 8 (limiter 0 10)).0 ≡ index_error
unfolding limiting limiter
limit_zero = refl

two_per_ten-IsBounded : IsBounded two_per_ten
unfolding deque lookup
two_per_ten-IsBounded key = ground arith

retry_after_iff_example :
    (is_accepted (hit "a" 12 (hit "a" 8 two_per_ten).1).0 ≡ true) ↔ (8 + 3 < 12)
retry_after_iff_example =
    retry_after_iff "a" 8 12 3 two_per_ten two_per_ten-IsBounded third_hit_refused

abbrev calls : List Call
calls =
    record { key = "a"; time = 1 }
    ∷ record { key = "a"; time = 5 }
    ∷ record { key = "b"; time = 6 }
    ∷ record { key = "a"; time = 8 }
    ∷ []

window_guarantee_example : count (lies_in "a" 0 10) (replay calls (limiter 2 10) []) ≤ 2
window_guarantee_example = window_guarantee 2 10 calls (omega arith) "a" 0

abbrev unchanged : String → String
unchanged s = s

abbrev checks : List Check
checks =
    record { email = "e"; ip_address = none; email_time = 1; ip_time = 1; pair_time = 2 }
    ∷ record { email = "e"; ip_address = some "i"; email_time = 7; ip_time = 8; pair_time = 8 }
    ∷ []

email_guarantee_example :
    count
      (λ c. lies_in (key_email unchanged "e") 0 3600 (email_call unchanged c))
      (replay_checks unchanged checks password_reset_limiter [])
    ≤ 5
email_guarantee_example = email_guarantee unchanged checks (omega arith) "e" 0
