-- ===== src/Email/Tests.antt =====
-- app/email/sender.py: deliveries on servers that fail and that do not.
use userverse.Base.{
  ℕ, ◌+◌, ◌≡◌, ◌⊎◌, refl, true, false, none, some, [], ◌∷◌, nat_Eq, ◌==◌, if◌then◌else◌,
}
use userverse.Email.{
  Settings, Server, Stage, response_exception, server_disconnected, authentication_error, gaierror,
  implicit_ssl, with_starttls, Trace, returned, raises, is_text, is_number, is_flag,
  is_test_environment, missing_fields, load_email_settings, transient_reason, handler, mode_of,
  in_session, attempt_on, after_attempt, backoff_seconds, rounds, deliver_email, send_email,
}
use userverse.Email.Attempts.{IsRetried, deliver_email_bounds}
use userverse.Email.Taken.{left_behind_by, IsAccounted, deliver_email-IsAccounted}

abbrev submission : Settings
submission = record {
  testing = false;
  environment = "production";
  email_host = some "mail.x.org";
  email_port = some 587;
  email_username = some "ann";
  email_password = some "secret";
  email_tls = none;
  email_ssl = none;
}

abbrev good : Server
good = record {
  on_connect = none;
  on_starttls = none;
  on_login = none;
  on_send = none;
  takes_before_raise = false;
  on_quit = none;
}

abbrev start : Trace
start = record { attempts = 0; failures = []; taken = 0; slept = []; shown = 0 }

-- The first server is down, the second takes the message.
abbrev down_once : ℕ → Server
down_once n = if n == 1 then record good { on_connect = some server_disconnected } else good

-- The first server takes the message and answers `QUIT` by an error.
abbrev rude_once : ℕ → Server
rude_once n = if n == 1 then record good { on_quit = some response_exception } else good

-- The first server takes the message and is lost before it answers.
abbrev lost_once : ℕ → Server
lost_once n =
    if n == 1
    then record good { on_send = some server_disconnected; takes_before_raise = true }
    else good

sending : Unit {0}
unfolding is_text is_number is_flag is_test_environment missing_fields load_email_settings
    transient_reason handler mode_of in_session attempt_on after_attempt backoff_seconds rounds
    deliver_email send_email
sending = tt

second_attempt : deliver_email submission down_once 3 start ≡ (
  returned,
  record {
    attempts = 2;
    failures = ("server_disconnected", Stage.connect) ∷ [];
    taken = 1;
    slept = 1 ∷ [];
    shown = 0;
  },
)
unfolding sending
second_attempt = refl

-- By default there is no second attempt.
one_attempt : (send_email submission down_once start).0 ≡ raises server_disconnected
unfolding sending
one_attempt = refl

-- The message is sent twice.
taken_twice :
    let r = deliver_email submission rude_once 2 start in (r.0 ≡ returned) × (r.1.taken ≡ 2)
unfolding sending
taken_twice = (refl, refl)

no_retry_of_login :
    (deliver_email submission (λ n. record good { on_login = some authentication_error }) 3 start).0
    ≡ raises authentication_error
unfolding sending
no_retry_of_login = refl

unknown_host_is_shown :
    (deliver_email submission (λ n. record good { on_connect = some gaierror }) 3 start).1.shown ≡ 1
unfolding sending
unknown_host_is_shown = refl

flags_before_port :
    (mode_of submission ≡ with_starttls)
    × (mode_of (record submission { email_ssl = some true }) ≡ implicit_ssl)
unfolding sending
flags_before_port = (refl, refl)

taken_without_answer :
    let r = deliver_email submission lost_once 2 start in (r.0 ≡ returned) × (r.1.taken ≡ 2)
unfolding sending
taken_without_answer = (refl, refl)

deliver_email_bounds_example :
    let t = (deliver_email submission down_once 3 start).1 in
    ((t.attempts ≡ start.attempts) × (t.slept ≡ start.slept)) ⊎ IsRetried 3 start t
deliver_email_bounds_example = deliver_email_bounds submission down_once 3 start

deliver_email-IsAccounted_example :
    let r = deliver_email submission lost_once 3 start in
    (n : ℕ) × (r.1.attempts ≡ start.attempts + n)
    × IsAccounted (left_behind_by (mode_of submission) lost_once n) start r
deliver_email-IsAccounted_example = deliver_email-IsAccounted submission lost_once 2 start
