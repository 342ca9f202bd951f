-- ===== src/Email/Attempts.antt =====
-- app/email/sender.py: the retries of `deliver_email` end, and how long they take.
use userverse.Base.{
  ◌⊎◌, ℕ, zero, suc, ◌+◌, ◌-◌, ◌<◌, ◌≡◌, refl, sym, ◌∙◌, ap, Bool, true, all, length, none, some,
  List, [], ◌∷◌, ◌++◌, inl, inr, arith, leb, Bool-cases, Option-cases,
}
use mathlib.Core.List.{append-nil, append_assoc}
use userverse.Email.{
  Settings, Server, Mode, SmtpException, Handling, render_text, retry, give_up, Attempt, Trace,
  returned, raises, handler, attempt_on, backoff_seconds, after_attempt, rounds,
  load_email_settings, mode_of, deliver_email,
}

abbrev at_most_ten : List ℕ → Bool
at_most_ten seconds = all (λ n. leb n 10) seconds

-- Some attempts and at most `max_retries`, with one sleep between two of them and none after the
-- last, each of at most ten seconds.
pub record IsRetried (max_retries : ℕ) (before after : Trace) : Type 0 where
  pub seconds : List ℕ
  pub slept : after.slept ≡ before.slept ++ seconds
  pub attempts : after.attempts ≡ before.attempts + 1 + length seconds
  pub few_attempts : length seconds < max_retries
  pub short : at_most_ten seconds ≡ true

backoff_seconds-le : (attempt : ℕ) → leb (backoff_seconds attempt) 10 ≡ true
unfolding backoff_seconds
backoff_seconds-le attempt = ground arith

-- Nothing but the two counters and the messages taken changes by an attempt.
pub after_attempt_keeps :
    (a : Attempt) (t : Trace)
    → ((after_attempt a t).attempts ≡ t.attempts + 1)
      × ((after_attempt a t).taken ≡ t.taken + a.taken)
      × ((after_attempt a t).slept ≡ t.slept)
      × ((after_attempt a t).shown ≡ t.shown)
unfolding after_attempt
after_attempt_keeps a t = ground arith

pub Handling-cases : (h : Handling) → (h ≡ render_text) ⊎ ((h ≡ give_up) ⊎ (h ≡ retry))
Handling-cases render_text = inl refl
Handling-cases give_up = inr (inl refl)
Handling-cases retry = inr (inr refl)

module _ (mode : Mode) (servers : ℕ → Server) (max_retries left : ℕ) (t : Trace) where
  abbrev pub this_attempt : ℕ
  this_attempt = max_retries - left

  abbrev pub this : Attempt
  this = attempt_on mode (servers this_attempt)

  abbrev pub tried : Trace
  tried = after_attempt this t

  abbrev pub waited : Trace
  waited = record tried { slept = tried.slept ++ backoff_seconds this_attempt ∷ [] }

  -- A round returns, as the message is taken or its text is shown, or it raises, or attempts are left
  -- and it waits for the next round.
  pub rounds-cases :
      ((this.raised ≡ none) × (rounds mode servers max_retries (suc left) t ≡ (returned, tried)))
      ⊎ ((e : SmtpException) × (this.raised ≡ some e)
          × (rounds mode servers max_retries (suc left) t
              ≡ (returned, record tried { shown = tried.shown + 1 })))
      ⊎ (((e : SmtpException) × (this.raised ≡ some e)
            × (rounds mode servers max_retries (suc left) t ≡ (raises e, tried)))
          ⊎ ((e : SmtpException) × (this.raised ≡ some e)
              × (this_attempt < max_retries)
              × (rounds mode servers max_retries (suc left) t
                  ≡ rounds mode servers max_retries left waited)))
  unfolding rounds
  rounds-cases = elim (Option-cases this.raised) [
    | inl none_raised ↦ inl (none_raised, ground (arith, none_raised))
    | inr (e, raised) ↦ elim (Handling-cases (handler e).0) [
      | inl shows ↦ inr (inl (e, raised, ground (arith, raised, shows)))
      | inr (inl fails) ↦ inr (inr (inl (e, raised, ground (arith, raised, fails))))
      | inr (inr again) ↦ elim (Bool-cases (leb max_retries this_attempt)) [
        | inl last ↦ inr (inr (inl (e, raised, ground (arith, raised, again, last))))
        | inr more ↦ inr (inr (inr (e, raised, ground arith, ground (arith, raised, again, more))))
      ]
    ]
  ]

-- One more attempt with a sleep after it.
IsRetried-waited :
    (left n : ℕ) (t u v : Trace)
    → u.attempts ≡ t.attempts + 1
    → u.slept ≡ t.slept ++ n ∷ []
    → leb n 10 ≡ true
    → IsRetried left u v
    → IsRetried (suc left) t v
IsRetried-waited left n t u v counted waits few r = record {
  seconds = n ∷ r.seconds;
  slept = r.slept ∙ (rw waits (append_assoc t.slept (n ∷ []) r.seconds));
  attempts = omega (arith, r.attempts);
  few_attempts = omega (arith, r.few_attempts);
  short = ground (arith, few, r.short);
}

module _ (mode : Mode) (servers : ℕ → Server) (max_retries : ℕ) where
  one_attempt :
      (left : ℕ) (t u : Trace)
      → u.attempts ≡ t.attempts + 1
      → u.slept ≡ t.slept
      → IsRetried (suc left) t u
  one_attempt left t u counted slept = record {
    seconds = [];
    slept = slept ∙ sym (append-nil t.slept);
    attempts = omega arith;
    few_attempts = omega arith;
    short = refl;
  }

  -- The rounds that are left bound the attempts.
  rounds-IsRetried :
      (left : ℕ) (t : Trace)
      → left < max_retries
      → IsRetried (suc left) t (rounds mode servers max_retries (suc left) t).1
  rounds-IsRetried zero t h =
      let (counted, its_taken, its_slept, its_shown) =
        after_attempt_keeps (this mode servers max_retries zero t) t in
      elim (rounds-cases mode servers max_retries zero t) [
        | inl (ok, same) ↦ rw same (one_attempt zero t _ counted its_slept)
        | inr (inl (e, raised, same)) ↦ rw same (one_attempt zero t _ counted its_slept)
        | inr (inr (inl (e, raised, same))) ↦ rw same (one_attempt zero t _ counted its_slept)
        | inr (inr (inr (e, raised, more, same))) ↦ absurd (omega arith)
      ]
  rounds-IsRetried (suc left) t h =
      let (counted, its_taken, its_slept, its_shown) =
        after_attempt_keeps (this mode servers max_retries (suc left) t) t in
      elim (rounds-cases mode servers max_retries (suc left) t) [
        | inl (ok, same) ↦ rw same (one_attempt (suc left) t _ counted its_slept)
        | inr (inl (e, raised, same)) ↦ rw same (one_attempt (suc left) t _ counted its_slept)
        | inr (inr (inl (e, raised, same))) ↦ rw same (one_attempt (suc left) t _ counted its_slept)
        | inr (inr (inr (e, raised, more, same))) ↦
            let next = waited mode servers max_retries (suc left) t in
            let seconds = backoff_seconds (this_attempt mode servers max_retries (suc left) t) in
            let few = backoff_seconds-le (this_attempt mode servers max_retries (suc left) t) in
            let slept : next.slept ≡ t.slept ++ seconds ∷ [] =
              ap (λ (ns : List ℕ). ns ++ seconds ∷ []) its_slept in
            rw same (
              IsRetried-waited (suc left) seconds t next
                (rounds mode servers max_retries (suc left) next).1 counted slept few
                (rounds-IsRetried left next (omega arith)))
      ]

-- A delivery makes no attempt and does not sleep, or it makes at most `max_retries` attempts, sleeps
-- once between two of them and never after the last, and each sleep is at most ten seconds, whatever
-- the server does.
pub deliver_email_bounds :
    (settings : Settings) (servers : ℕ → Server) (max_retries : ℕ) (t : Trace)
    → let t' = (deliver_email settings servers max_retries t).1 in
      ((t'.attempts ≡ t.attempts) × (t'.slept ≡ t.slept)) ⊎ IsRetried max_retries t t'
unfolding deliver_email rounds
deliver_email_bounds settings servers zero t = elim (Option-cases (load_email_settings settings)) [
  | inl absent ↦ rw (absent, deliver_email) (inl (refl, refl))
  | inr (found, present) ↦ rw (present, deliver_email) (inl (refl, refl))
]
deliver_email_bounds settings servers (suc max_retries) t =
    elim (Option-cases (load_email_settings settings)) [
      | inl absent ↦ rw (absent, deliver_email) (inl (refl, refl))
      | inr (found, present) ↦
          rw (present, deliver_email)
            (inr (
              rounds-IsRetried (mode_of found) servers (suc max_retries) max_retries t
                (omega arith)))
    ]
