-- ===== src/RateLimiter/Composite.antt =====
-- app/utils/rate_limiter.py: `check` of `PasswordResetRateLimiter`, and of
-- `VerificationEmailRateLimiter`, which has the same body.
use userverse.Base.{
  ℕ, ◌≤◌, String, ◌≡◌, false, Option, List, [], ◌∷◌, map, subst, arith, string_Eq, if◌then◌else◌,
}
use userverse.RateLimiter.{
  PasswordResetRateLimiter, HitResult, is_accepted, limiter, hit, password_reset_limiter, key_email,
  key_ip, key_pair, check,
}
use userverse.RateLimiter.Window.{Call, replay, IsOrdered, count, lies_in, window_guarantee}

-- A call of `check`: its arguments, and the clock's reading at each of the three hits.
pub record Check : Type 0 where
  pub email : String
  pub ip_address : Option String
  pub email_time : ℕ
  pub ip_time : ℕ
  pub pair_time : ℕ

module _ (lower : String → String) where
  abbrev run_check : Check → PasswordResetRateLimiter → HitResult × PasswordResetRateLimiter
  run_check c = check lower c.email c.ip_address (c.email_time, c.ip_time, c.pair_time)

  -- The checks in turn, and the log of those that returned, latest first.
  pub replay_checks : List Check → PasswordResetRateLimiter → List Check → List Check
  replay_checks [] r log = log
  replay_checks (c ∷ checks) r log =
      let (result, r') = run_check c r in
      replay_checks checks r' (if is_accepted result then c ∷ log else log)

  abbrev pub email_call : Check → Call
  email_call c = record { key = key_email lower c.email; time = c.email_time }

  -- A check lets its request through exactly if all three hits do; and a hit happens, and is
  -- recorded, only if the hits before it returned. So a request that the address is refused for
  -- still counts against its email.
  check_cases :
      (email : String) (ip_address : Option String) (now₁ now₂ now₃ : ℕ)
      (r : PasswordResetRateLimiter)
      → let e = hit (key_email lower email) now₁ r.per_email in
        let i = hit (key_ip lower ip_address) now₂ r.per_ip in
        let p = hit (key_pair lower email ip_address) now₃ r.per_pair in
        let (result, r') = check lower email ip_address (now₁, now₂, now₃) r in
        (is_accepted result ≡ (
          if is_accepted e.0 then (if is_accepted i.0 then is_accepted p.0 else false) else false))
        × (r'.per_email ≡ e.1)
        × (r'.per_ip ≡ (if is_accepted e.0 then i.1 else r.per_ip))
        × (r'.per_pair ≡ (
            if is_accepted e.0 then (if is_accepted i.0 then p.1 else r.per_pair) else r.per_pair))
  unfolding check
  check_cases email ip_address now₁ now₂ now₃ r =
      (ground arith, ground arith, ground arith, ground arith)

  module _ (key : String) (from : ℕ) where
    -- Each check that was let through stands for an email hit that was.
    count-replay_checks :
        (checks : List Check) (r : PasswordResetRateLimiter) (log : List Check) (hits : List Call)
        → count (λ c. lies_in key from 3600 (email_call c)) log ≤ count (lies_in key from 3600) hits
        → count (λ c. lies_in key from 3600 (email_call c)) (replay_checks checks r log)
          ≤ count (lies_in key from 3600) (replay (map email_call checks) r.per_email hits)
    unfolding replay_checks replay
    count-replay_checks [] r log hits h = h
    count-replay_checks (c ∷ checks) r log hits h =
        let cases = check_cases c.email c.ip_address c.email_time c.ip_time c.pair_time r in
        let by_email = hit (key_email lower c.email) c.email_time r.per_email in
        let log' = if is_accepted (run_check c r).0 then c ∷ log else log in
        let hits' = if is_accepted by_email.0 then email_call c ∷ hits else hits in
        let more : count (λ d. lies_in key from 3600 (email_call d)) log'
            ≤ count (lies_in key from 3600) hits' =
          ground (arith, cases.0) in
        subst
          (λ limiter'.
            count (λ d. lies_in key from 3600 (email_call d))
              (replay_checks checks (run_check c r).1 log')
            ≤ count (lies_in key from 3600) (replay (map email_call checks) limiter' hits'))
          cases.1 (count-replay_checks checks (run_check c r).1 log' hits' more)

-- Whatever the addresses: if the clock does not run backwards, then in every closed interval of
-- 3600 ticks at most five checks of one email, letter case aside, are let through.
pub email_guarantee :
    (lower : String → String) (checks : List Check)
    → IsOrdered 0 (map (email_call lower) checks)
    → (email : String) (from : ℕ)
    → count
        (λ c. lies_in (key_email lower email) from 3600 (email_call lower c))
        (replay_checks lower checks password_reset_limiter [])
      ≤ 5
unfolding password_reset_limiter
email_guarantee lower checks h email from =
    let key = key_email lower email in
    let hits = replay (map (email_call lower) checks) (limiter 5 3600) [] in
    let within : count (lies_in key from 3600) hits ≤ 5 =
      window_guarantee 5 3600 (map (email_call lower) checks) h key from in
    let dominated =
      count-replay_checks lower key from checks password_reset_limiter [] [] (omega arith) in
    omega (arith, dominated, within)
