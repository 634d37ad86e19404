-- ===== src/Worker/Sending.antt =====
-- The worker that sends the e-mails: worker/task_send_verify_email.go, and the retries of
-- worker/processor.go. The mailer and the maker of tokens are interfaces, outside these files: their
-- answers are parameters. The calls of the store stand outside any transaction.
pub mod Attempts
pub mod Outcome
use monierave.Base.{
  ℕ, zero, suc, ◌+◌, ◌*◌, ◌/◌, String, List, [], ◌∷◌, Option, none, some, Bool, true, false, ◌||◌,
  not, str_eq, leb, ltb, if◌then◌else◌,
}
use monierave.Models.{
  Uuid, Time, EmailJob, Message, plain, of_error, Error, not_found_as, invalid_email_job_id,
  email_job_missing, email_job_dead_lettered, email_sending_failed, email_retries_exhausted,
  skip_retry,
}
use monierave.Store.{Tx, Result, ok, err, pure, raise, ◌>>=◌, ◌>>◌, fail_if, on_error, random_below}
use monierave.Queries.Outbox.{get_email_job}
use monierave.Queries.Emails.{
  start_email_job_attempt, mark_email_job_sent, mark_email_job_retrying, mark_email_job_dead_letter,
  set_email_job_verification_token,
}
use monierave.Worker.Relay.{tried, drawn_or_zero, nanoseconds}

-- EmailVerificationMaker: a token for a job, and its hash. `none` stands for an error.
pub record TokenMaker : Type 0 where
  pub create : Uuid → Option String
  pub hash : String → Option (List ℕ)

-- What is added to the payload of a verification e-mail: the token in the link, and its deadline.
pub record VerificationLink : Type 0 where
  pub token : String
  pub expires_at : Time

-- A message for the mailer: a verification e-mail, with its link if there is a token maker, or a
-- notification.
pub data Mail : Type 0 where
  verification_email : EmailJob → Option VerificationLink → Mail
  financial_notification : EmailJob → Mail

-- What the sending of a message comes to: the provider's id for it, or an error, permanent or not.
pub data Sent : Type 0 where
  accepted : String → Sent
  failed : Bool → Sent

-- The fields of `RedisTaskProcessor` that the sending uses.
pub record Processor : Type 0 where
  pub mailer : Mail → Sent
  pub email_verification_maker : Option TokenMaker
  pub email_verification_duration : ℕ

abbrev pub link_of : Option String → Option (List ℕ) → Option (String × List ℕ)
link_of none h = none
link_of (some token) none = none
link_of (some token) (some h) = some (token, h)

abbrev pub token_for : TokenMaker → Uuid → Option (String × List ℕ)
token_for maker u = elim (maker.create u) [ none ↦ none | some t ↦ link_of (some t) (maker.hash t) ]

abbrev pub deadline_of : Processor → EmailJob → Time
deadline_of processor job = job.created_at + processor.email_verification_duration / 1_000

-- A token that could not be stored is a permanent error.
abbrev pub answer_stored : Processor → EmailJob → String → Time → Result EmailJob → Sent
answer_stored processor job token deadline (err e) = failed true
answer_stored processor job token deadline (ok row) =
    processor.mailer
      (verification_email job (some (record { token = token; expires_at = deadline })))

abbrev pub persist_token : Processor → EmailJob → Option (String × List ℕ) → Tx Sent
persist_token processor job none = pure (failed true)
persist_token processor job (some (token, hash)) = do
  stored ← tried (set_email_job_verification_token job.id hash (deadline_of processor job))
  pure (answer_stored processor job token (deadline_of processor job) stored)

abbrev pub send_verification_email : Processor → EmailJob → Option TokenMaker → Tx Sent
send_verification_email processor job none = pure (processor.mailer (verification_email job none))
send_verification_email processor job (some maker) =
    persist_token processor job (token_for maker job.id)

unfoldable pub send_email_job : Processor → EmailJob → Tx Sent
send_email_job processor job =
    let verify = send_verification_email processor job processor.email_verification_maker in
    if str_eq job.job_type "" || str_eq job.job_type "verify_email"
    then verify
    else if str_eq job.job_type "financial_notification"
    then pure (processor.mailer (financial_notification job))
    else pure (failed true)

abbrev pub safe_email_send_error : Bool → String
safe_email_send_error permanent =
    if permanent then "permanent email delivery failure" else "temporary email delivery failure"

-- `if mailer.IsPermanent(sendErr) || job.AttemptCount >= job.MaxAttempts`
abbrev pub gives_up : EmailJob → Bool → Bool
gives_up job permanent = permanent || leb job.max_attempts job.attempt_count

abbrev pub send_error : Bool → Error
send_error permanent =
    if permanent then skip_retry email_sending_failed else email_retries_exhausted

abbrev pub sending_failed : Uuid → Bool → Bool → Tx (Unit {0})
sending_failed u permanent true = do
  mark_email_job_dead_letter u (plain (safe_email_send_error permanent))
  raise (send_error permanent)
sending_failed u permanent false = do
  mark_email_job_retrying u (plain (safe_email_send_error permanent))
  raise email_sending_failed

abbrev pub finish_attempt : Uuid → EmailJob → Sent → Tx (Unit {0})
finish_attempt u job (accepted message_id) = do mark_email_job_sent u message_id; pure tt
finish_attempt u job (failed permanent) = sending_failed u permanent (gives_up job permanent)

unfoldable pub attempt : Processor → Uuid → Tx (Unit {0})
attempt processor u = do
  job ← start_email_job_attempt u
  sent ← send_email_job processor job
  finish_attempt u job sent

-- `if job.Status == EmailJobStatusSent { return nil }`
abbrev pub unless_sent : Processor → Uuid → EmailJob → Bool → Tx (Unit {0})
unless_sent processor u job true = pure tt
unless_sent processor u job false = do
  fail_if (str_eq job.status "dead_letter") (skip_retry email_job_dead_lettered)
  attempt processor u

-- The id of a task that cannot be read is `none`.
unfoldable pub process_task_send_email : Processor → Option Uuid → Tx (Unit {0})
process_task_send_email processor none = raise (skip_retry invalid_email_job_id)
process_task_send_email processor (some u) = do
  job ← on_error (not_found_as (skip_retry email_job_missing)) (get_email_job u)
  unless_sent processor u job (str_eq job.status "sent")

-- The queue's counts of a task: the retries so far, and their limit.
pub record TaskRetries : Type 0 where
  pub retried : ℕ
  pub max_retry : ℕ

abbrev pub last_retry : Option TaskRetries → Bool
last_retry none = false
last_retry (some t) = not (ltb t.retried t.max_retry)

-- What the error handler does with the last error of a task; its own errors are logged.
abbrev pub give_up : Option Uuid → Error → Bool → Tx (Unit {0})
give_up none task_err b = pure tt
give_up (some u) task_err false = pure tt
give_up (some u) task_err true = do
  tried (mark_email_job_dead_letter u (of_error task_err))
  pure tt

unfoldable pub handle_error : Option TaskRetries → Option Uuid → Error → Tx (Unit {0})
handle_error retries job task_err = give_up job task_err (last_retry retries)

-- The waits between the attempts, in minutes.
abbrev pub retry_schedule : List ℕ
retry_schedule = 1 ∷ 5 ∷ 15 ∷ 30 ∷ 60 ∷ 120 ∷ 180 ∷ 240 ∷ 300 ∷ []

-- The entry at an index, or the last one.
abbrev pub at_or_last : ℕ → List ℕ → ℕ
at_or_last n [] = 0
at_or_last n (x ∷ []) = x
at_or_last zero (x ∷ y ∷ ys) = x
at_or_last (suc n) (x ∷ y ∷ ys) = at_or_last n (y ∷ ys)

-- The base, in nanoseconds; `retryCount - 1`, but zero at least.
unfoldable pub retry_base_of : ℕ → ℕ
retry_base_of zero = at_or_last 0 retry_schedule * (60 * nanoseconds)
retry_base_of (suc n) = at_or_last n retry_schedule * (60 * nanoseconds)

unfoldable pub retry_delay : ℕ → Tx ℕ
unfolding retry_base_of
retry_delay retry_count = do
  jitter ← random_below (retry_base_of retry_count / 5 + 1)
  pure (retry_base_of retry_count + drawn_or_zero jitter)
