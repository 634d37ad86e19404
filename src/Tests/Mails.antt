-- ===== src/Tests/Mails.antt =====
-- Registration, sending, verification and the provider's reports on the small bank.
use monierave.Base.{
  ◌+◌, ◌≤◌, ◌≡◌, refl, String, List, [], ◌∷◌, none, some, true, ◌&&◌, leb, map, arith, find_first,
  update_where, count_where, bytes_equal, is_empty, if◌then◌else◌, LetterCase, equal_fold,
}
use monierave.Models.{User, EmailJob}
use monierave.Models.Tables.{Db}
use monierave.Store.{
  World, Result, ok, err, pure, raise, query, ◌>>=◌, end_tx, exec_tx, fail_if, catch, on_error,
  new_uuid, row_or_none,
}
use monierave.Store.Rules.{Runs}
use monierave.Queries.Records.{create_audit_log, create_email_job, create_outbox_event}
use monierave.Queries.Outbox.{get_email_job}
use monierave.Queries.Emails.{
  start_email_job_attempt, mark_email_job_sent, set_email_job_verification_token,
  get_email_job_for_update, get_email_job_by_provider_message_id_for_update,
  update_email_job_delivery, create_email_delivery_event,
}
use monierave.Queries.Emails.Unique.{UniqueJobs}
use monierave.Queries.Users.{
  CreateUserParams, create_user, user_violation, get_user_for_update, mark_user_email_verified,
  update_current_user_email_deliverability,
}
use monierave.Banking.Notification.{time_now}
use monierave.Sessions.{constant_time_hash_equal}
use monierave.Worker.Relay.{tried}
use monierave.Worker.Sending.{
  Mail, Sent, accepted, Processor, process_task_send_email, attempt, send_email_job,
}
use monierave.Emails.Reports.{
  ProcessEmailDeliveryEventParams, process_email_delivery_event_tx, process_email_delivery_event,
  find_email_job_for_delivery_event, user_deliverability_for_event, allowed_transition,
  can_apply_email_delivery_transition, is_recognized_email_delivery_status,
  is_terminal_email_delivery_status,
}
use monierave.Emails.Reports.Outcome.{Processed, process_email_delivery_event_tx-Processed}
use monierave.Emails.Reports.Bounded.{
  status_changes, status_of, process_email_delivery_event_tx-repeated,
  process_email_delivery_event_tx-settles,
}
use monierave.Emails.Verification.{
  VerifyUserEmailTxParams, create_user_tx, create_verification_email_job, verify_user_email,
  verify_user_email_tx, request_email_verification_tx,
}
use monierave.Emails.Verification.Mail.{Registered, create_user_tx-Registered}
use monierave.Emails.Verification.Links.{Confirmed, verify_user_email_tx-Confirmed}
use monierave.Emails.Verification.Requests.{Requested, request_email_verification_tx-Requested}
use monierave.Tests.Data.{sample_db}
use monierave.Tests.Scenario.{quiet_world}
use monierave.Tests.Relaying.{job}

-- ASCII letters, and texts that are in lower case already.
abbrev ascii : LetterCase
ascii = record { fold = λ c. if leb b'A' c && leb c b'Z' then c + 32 else c; lower = λ s. s }

abbrev sent_job : EmailJob
sent_job = record job {
  status = "sent";
  provider_message_id = some "message-1";
  delivery_status = "accepted";
}

abbrev mail_db : Db
mail_db = record sample_db { email_jobs = sent_job ∷ [] }

abbrev bounce : ProcessEmailDeliveryEventParams
bounce = record {
  webhook_id = "hook-1";
  event_type = "email.bounced";
  provider_message_id = "message-1";
  job_id = none;
  occurred_at = 500;
  payload = [];
  delivery_status = "bounced";
  bounce_type = "Permanent";
  bounce_subtype = "";
  bounce_message = "no such mailbox";
}

abbrev delivery : ProcessEmailDeliveryEventParams
delivery = record bounce { webhook_id = "hook-2"; occurred_at = 400; delivery_status = "delivered" }

one_job : UniqueJobs mail_db.email_jobs
unfolding count_where
one_job u = ground arith

process_email_delivery_event_tx-Processed_example :
    Runs
      (λ _ d'. d' ≡ mail_db)
      (Processed ascii bounce mail_db)
      (process_email_delivery_event_tx ascii bounce)
      mail_db
process_email_delivery_event_tx-Processed_example =
    process_email_delivery_event_tx-Processed ascii bounce mail_db

process_email_delivery_event_tx-repeated_example :
    Runs
      (λ _ d'. d' ≡ mail_db)
      (λ _ d1.
        Runs
          (λ _ d2. d2 ≡ d1)
          (λ r d2. (d2 ≡ d1) × (r.duplicate ≡ true))
          (process_email_delivery_event_tx ascii bounce)
          d1)
      (process_email_delivery_event_tx ascii bounce)
      mail_db
process_email_delivery_event_tx-repeated_example =
    process_email_delivery_event_tx-repeated ascii bounce mail_db

process_email_delivery_event_tx-settles_example :
    status_changes ascii 8_101 ((bounce, quiet_world) ∷ (delivery, quiet_world) ∷ []) mail_db ≤ 5
process_email_delivery_event_tx-settles_example =
    process_email_delivery_event_tx-settles ascii 8_101
      ((bounce, quiet_world) ∷ (delivery, quiet_world) ∷ []) mail_db one_job

abbrev carol : CreateUserParams
carol = record {
  username = "carol";
  hashed_password = "hash";
  full_name = "Carol";
  email = "carol@example.com";
}

create_user_tx-Registered_example :
    Runs
      (λ _ d'. d' ≡ sample_db)
      (Registered ascii carol sample_db)
      (create_user_tx ascii carol)
      sample_db
create_user_tx-Registered_example = create_user_tx-Registered ascii carol sample_db

-- The first UUID of the quiet world is the job's.
abbrev link : VerifyUserEmailTxParams
link = record {
  username = "carol";
  email = "carol@example.com";
  job_id = 1_000;
  token_hash = 7 ∷ 7 ∷ [];
}

verify_user_email_tx-Confirmed_example :
    Runs
      (λ _ d'. d' ≡ sample_db)
      (Confirmed ascii link sample_db)
      (verify_user_email_tx ascii link)
      sample_db
verify_user_email_tx-Confirmed_example = verify_user_email_tx-Confirmed ascii link sample_db

request_email_verification_tx-Requested_example :
    Runs
      (λ _ d'. d' ≡ mail_db)
      (Requested ascii "alice" mail_db)
      (request_email_verification_tx ascii "alice")
      mail_db
request_email_verification_tx-Requested_example =
    request_email_verification_tx-Requested ascii "alice" mail_db

abbrev takes_mail : Mail → Sent
takes_mail mail = accepted "message-9"

abbrev processor : Processor
processor = record {
  mailer = takes_mail;
  email_verification_maker =
      some (record { create = λ u. some "token"; hash = λ s. some (7 ∷ 7 ∷ []) });
  email_verification_duration = 3_600_000_000_000;
}

abbrev waiting_db : Db
waiting_db = record sample_db { email_jobs = job ∷ [] }

abbrev shown : {A : Type 0} → (A → Db → List String) → Result A × World → List String
shown f (ok a, w) = f a w.db
shown f (err e, w) = "error" ∷ []

abbrev account_states : User → Db → List String
account_states u d = u.account_status ∷ map (λ j. j.status) d.email_jobs

-- Carol registers, the worker sends her the link, and she follows it.
verification_run :
    shown account_states (
      (create_user_tx ascii carol >>= λ _.
      process_task_send_email processor (some 1_000) >>= λ _. verify_user_email_tx ascii link)
        quiet_world)
    ≡ "active" ∷ "sent" ∷ []
unfolding find_first update_where pure raise query ◌>>=◌ end_tx exec_tx fail_if catch on_error
    new_uuid create_audit_log create_email_job create_outbox_event get_email_job
    start_email_job_attempt mark_email_job_sent set_email_job_verification_token
    get_email_job_for_update create_user user_violation get_user_for_update mark_user_email_verified
    time_now constant_time_hash_equal bytes_equal tried process_task_send_email attempt
    send_email_job create_user_tx create_verification_email_job verify_user_email
    verify_user_email_tx equal_fold is_empty
verification_run = refl

abbrev delivery_states : Db → List String
delivery_states d = status_of 8_101 d ∷ map (λ u. u.account_status) d.users

-- A bounce bars the user; an earlier delivery that comes later changes nothing.
reports_run :
    shown
      (λ _ d. delivery_states d)
      ((process_email_delivery_event_tx ascii bounce >>= λ _.
          process_email_delivery_event_tx ascii delivery)
        (record quiet_world { db = mail_db }))
    ≡ "bounced" ∷ "pending" ∷ "active" ∷ []
unfolding find_first update_where pure raise query ◌>>=◌ end_tx exec_tx fail_if catch row_or_none
    create_audit_log get_email_job_by_provider_message_id_for_update update_email_job_delivery
    create_email_delivery_event update_current_user_email_deliverability equal_fold is_empty
    process_email_delivery_event_tx process_email_delivery_event find_email_job_for_delivery_event
    user_deliverability_for_event can_apply_email_delivery_transition allowed_transition
    is_recognized_email_delivery_status is_terminal_email_delivery_status
reports_run = refl
