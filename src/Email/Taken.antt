-- ===== src/Email/Taken.antt =====
-- app/email/sender.py: how many messages a delivery leaves at the server.
use userverse.Base.{
  ℕ, zero, suc, ◌+◌, ◌<◌, ◌≡◌, ◌⊎◌, refl, sym, ap, ◌∙◌, none, some, inl, inr, arith, Option-cases,
}
use userverse.Email.{
  Settings, Server, Mode, SmtpException, Trace, Ended, returned, raises, Attempt, in_session,
  attempt_on, rounds, load_email_settings, mode_of, deliver_email,
}
use userverse.Email.Attempts.{after_attempt_keeps, this_attempt, this, waited, rounds-cases}

-- What an attempt left at the server although it failed: the message that was taken before an
-- exception, of `send_message` or of leaving the `with` block.
abbrev left_behind : Attempt → ℕ
left_behind a = elim a.raised [ none ↦ 0 | some e ↦ a.taken ]

-- The same of the attempts 1 to `n` together.
abbrev pub left_behind_by : Mode → (ℕ → Server) → ℕ → ℕ
left_behind_by mode servers zero = 0
left_behind_by mode servers (suc n) =
    left_behind_by mode servers n + left_behind (attempt_on mode (servers (suc n)))

-- An attempt that raises nothing has given the message to the server.
attempt_on-taken :
    (mode : Mode) (server : Server)
    → (attempt_on mode server).raised ≡ none
    → (attempt_on mode server).taken ≡ 1
unfolding attempt_on in_session
attempt_on-taken mode server h = ground (arith, h)

-- How a delivery that has made `n` attempts ends: it returns with the message of the last one taken,
-- or with a text shown in its place, or it raises; besides there is what failed attempts have left.
abbrev pub IsAccounted : (failed : ℕ) → Trace → Ended × Trace → Type 0
IsAccounted failed t r =
    ((r.0 ≡ returned) × (r.1.taken ≡ t.taken + failed + 1) × (r.1.shown ≡ t.shown))
    ⊎ (((r.0 ≡ returned) × (r.1.taken ≡ t.taken + failed) × (r.1.shown ≡ t.shown + 1))
        ⊎ ((e : SmtpException) × (r.0 ≡ raises e)
            × (r.1.taken ≡ t.taken + failed)
            × (r.1.shown ≡ t.shown)))

module _ (mode : Mode) (servers : ℕ → Server) (max_retries : ℕ) where
  abbrev by : ℕ → ℕ
  by = left_behind_by mode servers

  left_none : (a : Attempt) → a.raised ≡ none → left_behind a ≡ 0
  left_none a h = ground (arith, h)

  left_some : (a : Attempt) (e : SmtpException) → a.raised ≡ some e → left_behind a ≡ a.taken
  left_some a e h = ground (arith, h)

  -- The rounds that follow the first `made` attempts account for those up to the last.
  pub record Accounts (made : ℕ) (t : Trace) (r : Ended × Trace) : Type 0 where
    pub last : ℕ
    pub failed : ℕ
    pub counted : r.1.attempts + made ≡ t.attempts + last
    pub left : failed + by made ≡ by last
    pub accounted : IsAccounted failed t r

  -- A failed attempt comes before.
  Accounts-waited :
      (made : ℕ) (t u : Trace) (r : Ended × Trace)
      → u.attempts ≡ t.attempts + 1
      → u.shown ≡ t.shown
      → u.taken ≡ t.taken + left_behind (attempt_on mode (servers (suc made)))
      → Accounts (suc made) u r
      → Accounts made t r
  Accounts-waited made t u r counted shown taken later =
      let here = left_behind (attempt_on mode (servers (suc made))) in
      record {
        last = later.last;
        failed = here + later.failed;
        counted = omega (arith, later.counted);
        left = omega (arith, later.left);
        accounted = elim later.accounted [
          | inl (ends, took, shows) ↦ inl (ends, omega arith, shows ∙ shown)
          | inr (inl (ends, took, shows)) ↦ inr (inl (ends, omega arith, omega arith))
          | inr (inr (e, ends, took, shows)) ↦ inr (inr (e, ends, omega arith, shows ∙ shown))
        ];
      }

  round-Accounts :
      (left made : ℕ) (t : Trace)
      → made + suc left ≡ max_retries
      → ((this_attempt mode servers max_retries left t < max_retries)
          → Accounts
              (suc made)
              (waited mode servers max_retries left t)
              (rounds mode servers max_retries left (waited mode servers max_retries left t)))
      → Accounts made t (rounds mode servers max_retries (suc left) t)
  round-Accounts left made t h again =
      let index : this_attempt mode servers max_retries left t ≡ suc made = omega arith in
      let a = attempt_on mode (servers (suc made)) in
      let same_attempt : this mode servers max_retries left t ≡ a =
        ap (λ (n : ℕ). attempt_on mode (servers n)) index in
      let (counted, its_taken, its_slept, its_shown) =
        after_attempt_keeps (this mode servers max_retries left t) t in
      let took_here = its_taken ∙ ap (λ (x : Attempt). t.taken + x.taken) same_attempt in
      elim (rounds-cases mode servers max_retries left t) [
        | inl (ok, same) ↦
            let ok_here = ap (λ (x : Attempt). x.raised) (sym same_attempt) ∙ ok in
            let none_left = left_none a ok_here in
            let took = attempt_on-taken mode (servers (suc made)) ok_here in
            rw same (record {
              last = suc made;
              failed = 0;
              counted = omega arith;
              left = omega arith;
              accounted = inl (refl, omega arith, its_shown);
            })
        | inr (inl (e, raised, same)) ↦
            let behind =
              left_some a e (ap (λ (x : Attempt). x.raised) (sym same_attempt) ∙ raised) in
            rw same (record {
              last = suc made;
              failed = left_behind a;
              counted = omega arith;
              left = omega arith;
              accounted = inr (inl (refl, omega arith, omega arith));
            })
        | inr (inr (inl (e, raised, same))) ↦
            let behind =
              left_some a e (ap (λ (x : Attempt). x.raised) (sym same_attempt) ∙ raised) in
            rw same (record {
              last = suc made;
              failed = left_behind a;
              counted = omega arith;
              left = omega arith;
              accounted = inr (inr (e, refl, omega arith, its_shown));
            })
        | inr (inr (inr (e, raised, more, same))) ↦
            let behind =
              left_some a e (ap (λ (x : Attempt). x.raised) (sym same_attempt) ∙ raised) in
            rw same (
              Accounts-waited made t (waited mode servers max_retries left t)
                (rounds mode servers max_retries left (waited mode servers max_retries left t))
                counted its_shown (took_here ∙ ap (λ (k : ℕ). t.taken + k) (sym behind))
                (again more))
      ]

  rounds-Accounts :
      (left made : ℕ) (t : Trace)
      → made + suc left ≡ max_retries
      → Accounts made t (rounds mode servers max_retries (suc left) t)
  rounds-Accounts zero made t h = round-Accounts zero made t h (λ more. absurd (omega arith))
  rounds-Accounts (suc left) made t h = round-Accounts (suc left) made t h (λ more.
      rounds-Accounts left (suc made) (waited mode servers max_retries (suc left) t) (omega arith))

same_settings : (s found : Settings) → load_email_settings s ≡ some found → s ≡ found
unfolding load_email_settings
same_settings s found h = ground (arith, h)

-- If `max_retries` is not zero, a delivery makes some number of attempts and returns with the message
-- of the last one taken, or it returns with a text shown in its place, or it raises. Besides, exactly
-- those attempts have left a message that failed after their server had taken it: without such a
-- failure the message is taken once if the delivery returns and shows no text, and otherwise never.
pub deliver_email-IsAccounted :
    (settings : Settings) (servers : ℕ → Server) (max_retries : ℕ) (t : Trace)
    → let r = deliver_email settings servers (suc max_retries) t in
      (n : ℕ) × (r.1.attempts ≡ t.attempts + n)
      × IsAccounted (left_behind_by (mode_of settings) servers n) t r
unfolding deliver_email
deliver_email-IsAccounted settings servers max_retries t =
    elim (Option-cases (load_email_settings settings)) [
      | inl absent ↦
          rw (absent, deliver_email) (0, omega arith, inr (inl (refl, omega arith, refl)))
      | inr (found, present) ↦
          let all =
            rounds-Accounts (mode_of found) servers (suc max_retries) max_retries 0 t
              (omega arith) in
          let by_last : all.failed ≡ left_behind_by (mode_of found) servers all.last =
            omega (arith, all.left) in
          rw (present, deliver_email)
            (
              all.last,
              omega (arith, all.counted),
              rw (same_settings settings found present, sym by_last) all.accounted,
            )
    ]
