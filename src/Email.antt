-- ===== src/Email.antt =====
-- app/email/sender.py: the settings of email, and `deliver_email` with its retries. The server of an
-- attempt, `smtplib`, is a parameter: what each of its calls raises. Log lines are left out.
pub mod Attempts
pub mod Taken
mod Tests
use Prim.Native.Nat.{min, ◌^◌}
use userverse.Base.{
  ℕ, zero, suc, ◌+◌, ◌-◌, String, Bool, true, false, ◌||◌, ◌&&◌, not, Option, none, some, List, [],
  ◌∷◌, ◌++◌, any, leb, ◌==◌, nat_Eq, string_Eq, is_none, if◌then◌else◌,
}

-- The settings that the delivery reads.
pub record Settings : Type 0 where
  pub testing : Bool
  pub environment : String
  pub email_host : Option String
  pub email_port : Option ℕ
  pub email_username : Option String
  pub email_password : Option String
  pub email_tls : Option Bool
  pub email_ssl : Option Bool

pub is_test_environment : String → Bool
is_test_environment e = e == "test_environment" || e == "testing" || e == "test"

-- Whether a setting is truthy.
pub is_text : Option String → Bool
is_text none = false
is_text (some s) = not (s == "")

pub is_number : Option ℕ → Bool
is_number none = false
is_number (some n) = not (n == 0)

pub is_flag : Option Bool → Bool
is_flag none = false
is_flag (some b) = b

pub missing_fields : Settings → List String
unfolding is_text is_number
missing_fields s =
    (if is_text s.email_host then [] else "HOST" ∷ [])
    ++ ((if is_number s.email_port then [] else "PORT" ∷ [])
        ++ ((if is_text s.email_username then [] else "USERNAME" ∷ [])
            ++ (if is_text s.email_password then [] else "PASSWORD" ∷ [])))

pub load_email_settings : Settings → Option Settings
unfolding is_test_environment is_text is_number missing_fields
load_email_settings s =
    if s.testing || is_test_environment s.environment
    then none
    else if not (
        is_text s.email_host
        || is_number s.email_port
        || is_text s.email_username
        || is_text s.email_password)
    then none
    else elim (missing_fields s) [ [] ↦ some s | field ∷ fields ↦ none ]

-- The exceptions that the handlers tell apart, by the most special class of `smtplib`, `socket` and
-- `ssl` that an exception has.
pub data SmtpException : Type 0 where
  gaierror authentication_error timeout server_disconnected connect_error : SmtpException
  data_error recipients_refused helo_error sender_refused response_exception : SmtpException
  not_supported_error ssl_error smtp_exception runtime_error other_exception : SmtpException

-- The labels of `transient_reasons`, in its order: a class covers its subclasses.
pub transient_reason : SmtpException → Option String
transient_reason timeout = some "timeout"
transient_reason server_disconnected = some "server_disconnected"
transient_reason connect_error = some "connect_error"
transient_reason data_error = some "data_error"
transient_reason recipients_refused = some "recipient_refused"
transient_reason authentication_error = some "smtp_response"
transient_reason helo_error = some "smtp_response"
transient_reason sender_refused = some "smtp_response"
transient_reason response_exception = some "smtp_response"
transient_reason not_supported_error = some "tls_unsupported"
transient_reason ssl_error = some "tls_error"
transient_reason gaierror = none
transient_reason smtp_exception = none
transient_reason runtime_error = none
transient_reason other_exception = none

-- What the chain of `except` clauses does with an exception.
pub data Handling : Type 0 where
  render_text retry give_up : Handling

-- The clause that catches an exception, and the label that it counts.
pub handler : SmtpException → Handling × String
unfolding transient_reason
handler gaierror = (render_text, "dns_error")
handler authentication_error = (give_up, "auth")
handler smtp_exception = (retry, "smtp_error")
handler e = elim (transient_reason e) [
  | some label ↦ (retry, label)
  | none ↦ (give_up, "unexpected")
]

pub data Mode : Type 0 where
  implicit_ssl with_starttls plain : Mode

-- `EMAIL_SSL` is tested first; without either flag the port decides.
pub mode_of : Settings → Mode
unfolding is_flag
mode_of s =
    if is_flag s.email_ssl
    then implicit_ssl
    else if is_flag s.email_tls
    then with_starttls
    else elim s.email_port [
      | none ↦ plain
      | some port ↦
          if port == 465
          then implicit_ssl
          else if port == 587 || port == 25
          then with_starttls
          else plain
    ]

pub data Stage : Type 0 where
  connect starttls auth send : Stage

-- The server of one attempt: what a call raises, if anything, and whether it has taken the message
-- all the same when `send_message` raises (a connection that is lost before the answer arrives).
-- `on_quit` is what leaving the `with` block raises, such as an answer to `QUIT` other than 221.
pub record Server : Type 0 where
  pub on_connect : Option SmtpException
  pub on_starttls : Option SmtpException
  pub on_login : Option SmtpException
  pub on_send : Option SmtpException
  pub takes_before_raise : Bool
  pub on_quit : Option SmtpException

-- How an attempt ends: the exception that leaves the `with` block, if any; the stage it has reached;
-- and how many messages the server has taken.
pub record Attempt : Type 0 where
  pub raised : Option SmtpException
  pub stage : Stage
  pub taken : ℕ

-- The body of the `with` block.
pub in_session : Mode → Server → Attempt
in_session mode server =
    let sent : Attempt = elim server.on_send [
      | some e ↦ record {
        raised = some e;
        stage = send;
        taken = if server.takes_before_raise then 1 else 0;
      }
      | none ↦ record { raised = none; stage = send; taken = 1 }
    ] in
    let logged_in : Attempt = elim server.on_login [
      | some e ↦ record { raised = some e; stage = auth; taken = 0 }
      | none ↦ sent
    ] in
    elim mode [
      | with_starttls ↦ elim server.on_starttls [
        | some e ↦ record { raised = some e; stage = starttls; taken = 0 }
        | none ↦ logged_in
      ]
      | implicit_ssl ↦ logged_in
      | plain ↦ logged_in
    ]

-- Leaving the block sends `QUIT`, also after an exception, and what it raises takes its place.
pub attempt_on : Mode → Server → Attempt
unfolding in_session
attempt_on mode server = elim server.on_connect [
  | some e ↦ record { raised = some e; stage = connect; taken = 0 }
  | none ↦
      let body = in_session mode server in
      elim server.on_quit [ none ↦ body | some e ↦ record body { raised = some e } ]
]

-- What a delivery leaves behind: the two counters, the messages that a server took, the seconds
-- slept, and the texts shown in place of a message.
pub record Trace : Type 0 where
  pub attempts : ℕ
  pub failures : List (String × Stage)
  pub taken : ℕ
  pub slept : List ℕ
  pub shown : ℕ

pub data Ended : Type 0 where
  returned : Ended
  raises : SmtpException → Ended

pub backoff_seconds : ℕ → ℕ
backoff_seconds attempt = min 10 (2 ^ (attempt - 1))

-- `EMAIL_SEND_ATTEMPTS.inc()`, the attempt, and the counter of its failure.
pub after_attempt : Attempt → Trace → Trace
unfolding handler
after_attempt a t =
    let tried = record t { attempts = t.attempts + 1; taken = t.taken + a.taken } in
    elim a.raised [
      | none ↦ tried
      | some e ↦ record tried { failures = t.failures ++ ((handler e).1, a.stage) ∷ [] }
    ]

module _ (mode : Mode) (servers : ℕ → Server) (max_retries : ℕ) where
  -- `for attempt in range(1, max_retries + 1)`, by the rounds left; a loop that ends returns.
  -- `last_error` is the exception of the round.
  pub rounds : ℕ → Trace → Ended × Trace
  unfolding handler attempt_on backoff_seconds after_attempt
  rounds zero t = (returned, t)
  rounds (suc left) t =
      let attempt = max_retries - left in
      let a = attempt_on mode (servers attempt) in
      let tried = after_attempt a t in
      let again =
        rounds left (record tried { slept = tried.slept ++ backoff_seconds attempt ∷ [] }) in
      elim a.raised [
        | none ↦ (returned, tried)
        | some e ↦ elim (handler e).0 [
          | render_text ↦ (returned, record tried { shown = tried.shown + 1 })
          | give_up ↦ (raises e, tried)
          | retry ↦ if leb max_retries attempt then (raises e, tried) else again
        ]
      ]

pub deliver_email : Settings → (ℕ → Server) → ℕ → Trace → Ended × Trace
unfolding load_email_settings mode_of rounds
deliver_email settings servers max_retries t = elim (load_email_settings settings) [
  | none ↦ (returned, record t { shown = t.shown + 1 })
  | some email_settings ↦ rounds (mode_of email_settings) servers max_retries max_retries t
]

abbrev default_max_retries : ℕ
default_max_retries = 1

pub send_email : Settings → (ℕ → Server) → Trace → Ended × Trace
unfolding deliver_email
send_email settings servers t = deliver_email settings servers default_max_retries t
