-- ===== src/RateLimiter/Window.antt =====
-- app/utils/rate_limiter.py: `SlidingWindowRateLimiter` over time, stated by the log of the hits that
-- it let through and not by its deques.
use userverse.Base.{
  ℕ, ◌+◌, ◌≤◌, String, ◌≡◌, refl, Bool, ◌&&◌, List, [], ◌∷◌, ◌++◌, arith, leb, length, ◌==◌, ==_iff,
  string_Eq, if◌then◌else◌, lookup,
}
use userverse.RateLimiter.{
  SlidingWindowRateLimiter, is_accepted, limiter, deque, expire, hit, admit,
}
use userverse.RateLimiter.Key.{deque-hit, accepted-hit, config-hit}

-- A call of `hit`: its key and the clock's reading.
pub record Call : Type 0 where
  pub key : String
  pub time : ℕ

-- The calls in turn, and the log of those that returned, latest first.
unfoldable pub replay : List Call → SlidingWindowRateLimiter → List Call → List Call
replay [] r log = log
replay (c ∷ calls) r log =
    let (result, r') = hit c.key c.time r in
    replay calls r' (if is_accepted result then c ∷ log else log)

-- The clock does not run backwards.
abbrev pub IsOrdered : ℕ → List Call → Type 0
IsOrdered last [] = Unit
IsOrdered last (c ∷ calls) = (last ≤ c.time) × IsOrdered c.time calls

abbrev pub count {ℓ} : {A : Type ℓ} → (A → Bool) → List A → ℕ
count p [] = 0
count p (x ∷ xs) = (if p x then 1 else 0) + count p xs

-- A call at `key` in the closed interval from `from` to `from + window`.
abbrev pub lies_in : String → ℕ → ℕ → Call → Bool
lies_in key from window c = c.key == key && leb from c.time && leb c.time (from + window)

-- A time that a pruning at `now` keeps.
abbrev is_live : ℕ → ℕ → ℕ → Bool
is_live window now t = leb now (t + window)

count-append {ℓ} :
    {A : Type ℓ} (p : A → Bool) (xs ys : List A) → count p (xs ++ ys) ≡ count p xs + count p ys
count-append p [] ys = omega arith
count-append p (x ∷ xs) ys = omega (arith, count-append p xs ys)

count-le-length {ℓ} : {A : Type ℓ} (p : A → Bool) (xs : List A) → count p xs ≤ length xs
count-le-length p [] = omega arith
count-le-length p (x ∷ xs) = ground (arith, count-le-length p xs)

-- Pruning at an earlier time removes nothing that is live.
count-expire :
    (window now later : ℕ) (dq : List ℕ)
    → now ≤ later
    → count (is_live window later) (expire window now dq) ≡ count (is_live window later) dq
unfolding expire
count-expire window now later [] h = refl
count-expire window now later (t ∷ dq) h = ground (arith, count-expire window now later dq h)

module _ (limit window : ℕ) where
  -- The log at `key` that is live at a time is also in the deque of the key.
  abbrev live_calls : String → ℕ → List Call → ℕ
  live_calls key now = count (λ c. c.key == key && leb now (c.time + window))

  record Inv (r : SlidingWindowRateLimiter) (last : ℕ) (log : List Call) : Type 0 where
    limited : r.config.limit ≡ limit
    windowed : r.config.window_seconds ≡ window
    tracked :
        (key : String) (now : ℕ)
        → last ≤ now
        → live_calls key now log ≤ count (is_live window now) (deque key r)
    spread : (key : String) (from : ℕ) → count (lies_in key from window) log ≤ limit

  -- What the interval from `from` held before a call in it was live at the call.
  lies_in-live :
      (key : String) (from now : ℕ) (log : List Call)
      → now ≤ from + window
      → count (lies_in key from window) log ≤ live_calls key now log
  lies_in-live key from now [] h = omega arith
  lies_in-live key from now (c ∷ log) h = ground (arith, lies_in-live key from now log h)

  -- The deque of the key before and after a call, and whether the call was logged.
  module _ (c : Call) (r : SlidingWindowRateLimiter) (last : ℕ) (log : List Call) where
    abbrev next : SlidingWindowRateLimiter
    next = (hit c.key c.time r).1

    abbrev next_log : List Call
    next_log = if is_accepted (hit c.key c.time r).0 then c ∷ log else log

    tracked-hit :
        Inv r last log
        → last ≤ c.time
        → (key : String) (now : ℕ) → c.time ≤ now
        → live_calls key now next_log ≤ count (is_live window now) (deque key next)
    unfolding admit
    tracked-hit inv h key now k =
        let live = expire window c.time (deque c.key r) in
        ground (
          arith,
          inv.limited,
          inv.windowed,
          ==_iff c.key key,
          accepted-hit c.key c.time r,
          deque-hit c.key key c.time r,
          inv.tracked key now,
          count-expire window c.time now (deque c.key r) k,
          count-append (is_live window now) live (c.time ∷ []),
        )

    spread-hit :
        Inv r last log
        → last ≤ c.time
        → (key : String) (from : ℕ) → count (lies_in key from window) next_log ≤ limit
    spread-hit inv h key from =
        let live = expire window c.time (deque c.key r) in
        ground (
          arith,
          inv.limited,
          inv.windowed,
          ==_iff c.key key,
          accepted-hit c.key c.time r,
          inv.spread key from,
          inv.tracked key c.time h,
          lies_in-live key from c.time log,
          count-expire window c.time c.time (deque c.key r),
          count-le-length (is_live window c.time) live,
        )

    Inv-hit : Inv r last log → last ≤ c.time → Inv next c.time next_log
    Inv-hit inv h = record {
      limited = cc (inv.limited, config-hit c.key c.time r);
      windowed = cc (inv.windowed, config-hit c.key c.time r);
      tracked = tracked-hit inv h;
      spread = spread-hit inv h;
    }

  replay-spread :
      (calls : List Call) (r : SlidingWindowRateLimiter) (last : ℕ) (log : List Call)
      → Inv r last log
      → IsOrdered last calls
      → (key : String) (from : ℕ) → count (lies_in key from window) (replay calls r log) ≤ limit
  unfolding replay
  replay-spread [] r last log inv h = inv.spread
  replay-spread (c ∷ calls) r last log inv h =
      replay-spread calls (next c r last log) c.time (next_log c r last log)
        (Inv-hit c r last log inv h.0) h.1

  Inv-limiter : Inv (limiter limit window) 0 []
  unfolding limiter deque lookup
  Inv-limiter = record {
    limited = refl;
    windowed = refl;
    tracked = λ key now h. omega arith;
    spread = λ key from. omega arith;
  }

-- From a fresh limiter, whatever the keys and as long as the clock does not run backwards: in every
-- closed interval as long as the window, at most `limit` hits of one key are let through.
pub window_guarantee :
    (limit window : ℕ) (calls : List Call)
    → IsOrdered 0 calls
    → (key : String) (from : ℕ)
    → count (lies_in key from window) (replay calls (limiter limit window) []) ≤ limit
window_guarantee limit window calls h =
    replay-spread limit window calls (limiter limit window) 0 [] (Inv-limiter limit window) h
