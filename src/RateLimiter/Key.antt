-- ===== src/RateLimiter/Key.antt =====
-- app/utils/rate_limiter.py: what a call of `hit` does to the deque of its key and to those of the other keys.
use userverse.Base.{
  ℕ, String, ◌≡◌, refl, true, false, none, some, List, [], ◌∷◌, ◌++◌, arith, leb, length, ◌==◌,
  string_Eq, if◌then◌else◌, Dict, lookup, lookup-put, lookup-pop, put, ==_refl,
}
use userverse.RateLimiter.{
  SlidingWindowRateLimiter, accepted, is_accepted, deque, expire, tidy, prune, refuse, hit, admit,
}

lookup-tidy :
    (key k : String) (dq : List ℕ) (events : Dict String (List ℕ))
    → (elim (lookup k (tidy key dq events)) [ none ↦ [] | some d ↦ d ])
      ≡ (if key == k then dq else (elim (lookup k events) [ none ↦ [] | some d ↦ d ]))
unfolding tidy
lookup-tidy key k [] events = ground (arith, lookup-pop key k events)
lookup-tidy key k (t ∷ dq) events = ground (arith, lookup-put key k (t ∷ dq) events)

deque-prune :
    (key k : String) (now : ℕ) (r : SlidingWindowRateLimiter)
    → deque k (prune key now r)
      ≡ (if key == k then expire r.config.window_seconds now (deque key r) else deque k r)
unfolding deque prune
deque-prune key k now r =
    lookup-tidy key k (expire r.config.window_seconds now (deque key r)) r.events

deque-put :
    (key k : String) (dq : List ℕ) (r : SlidingWindowRateLimiter)
    → deque k (record r { events = put key dq r.events }) ≡ (if key == k then dq else deque k r)
unfolding deque
deque-put key k dq r = ground (arith, lookup-put key k dq r.events)

-- A hit prunes the deque of its key, appends its own time there if fewer than `limit` are left,
-- and leaves the deques of all other keys as they were.
pub deque-hit :
    (key k : String) (now : ℕ) (r : SlidingWindowRateLimiter)
    → deque k (hit key now r).1 ≡ (
        if key == k
        then admit r.config.limit r.config.window_seconds now (deque key r)
        else deque k r)
unfolding hit admit
deque-hit key k now r = ground (
  arith,
  ==_refl key,
  deque-prune key key now r,
  deque-prune key k now r,
  deque-put key k (deque key (prune key now r)) (prune key now r),
  deque-put key k (deque key (prune key now r) ++ now ∷ []) (prune key now r),
)

-- A hit returns if fewer than `limit` times are left after pruning. Otherwise it raises, with the
-- ticks until the oldest time left is as old as the window; only a limit of 0 reads an empty deque.
pub hit-result :
    (key : String) (now : ℕ) (r : SlidingWindowRateLimiter)
    → (hit key now r).0 ≡ (
        let live = expire r.config.window_seconds now (deque key r) in
        if leb r.config.limit (length live)
        then refuse r.config.window_seconds now live
        else accepted)
unfolding hit
hit-result key now r = ground (arith, ==_refl key, deque-prune key key now r)

pub config-hit :
    (key : String) (now : ℕ) (r : SlidingWindowRateLimiter) → (hit key now r).1.config ≡ r.config
unfolding hit prune
config-hit key now r = ground arith

refuse-not_accepted : (window now : ℕ) (dq : List ℕ) → is_accepted (refuse window now dq) ≡ false
unfolding refuse
refuse-not_accepted window now [] = refl
refuse-not_accepted window now (t ∷ dq) = refl

-- A hit returns exactly if fewer than `limit` times are left in the deque of its key.
pub accepted-hit :
    (key : String) (now : ℕ) (r : SlidingWindowRateLimiter)
    → is_accepted (hit key now r).0 ≡ (
        if leb r.config.limit (length (expire r.config.window_seconds now (deque key r)))
        then false
        else true)
accepted-hit key now r = ground (
  arith,
  hit-result key now r,
  refuse-not_accepted r.config.window_seconds now
      (expire r.config.window_seconds now (deque key r)),
)
