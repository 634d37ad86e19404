-- ===== src/Emails/Verification.antt =====
-- Registration, the verification of addresses, and the replay of a job that was given up:
-- db/sqlc/create_user_tx.go and email_verification_tx.go.
pub mod Mail
pub mod Links
pub mod Requests
use monierave.Base.{
  ℕ, ◌+◌, ◌*◌, String, [], ◌∷◌, List, Option, none, some, Bool, true, false, ◌&&◌, ◌||◌, not,
  str_eq, ltb, if◌then◌else◌, LetterCase, equal_fold,
}
use monierave.Models.{
  Uuid, Time, User, EmailJob, OutboxEvent, AuditLog, uuid_or_empty, verification, not_found_as,
  email_already_verified, email_verification_cooldown, email_verification_job_mismatch,
  email_verification_address_stale, email_verification_token_expired, email_address_undeliverable,
  registration_disabled, email_job_not_dead_letter,
}
use monierave.Store.{Tx, pure, ◌>>=◌, ◌>>◌, fail_if, on_error, new_uuid, exec_tx, row_or_none}
use monierave.Queries.Ledger.{is_some}
use monierave.Queries.Records.{
  AuditLogParams, create_audit_log, EmailJobParams, create_email_job, OutboxEventParams,
  create_outbox_event,
}
use monierave.Queries.Outbox.{get_email_job, get_outbox_event_by_email_job_id}
use monierave.Queries.Emails.{get_email_job_for_update, get_latest_email_job_for_current_address}
use monierave.Queries.Users.{
  CreateUserParams, create_user, get_user_for_update, mark_user_email_verified,
  restart_user_email_verification,
}
use monierave.Banking.Audit.{text_value}
use monierave.Banking.Notification.{time_now, default_email_max_attempts}
use monierave.Sessions.{constant_time_hash_equal}

abbrev pub verification_job : String → String → Uuid → EmailJobParams
verification_job name recipient job = record {
  id = job;
  parent_job_id = none;
  job_type = "verify_email";
  username = name;
  recipient = recipient;
  payload = verification name recipient;
  max_attempts = default_email_max_attempts;
}

abbrev pub verification_event : Uuid → Uuid → OutboxEventParams
verification_event job event = record {
  id = event;
  email_job_id = job;
  event_type = "email_job.ready";
  payload = record { job_id = job; event_id = none; correlation_id = none };
  correlation_id = job;
  entity_type = "email_job";
  entity_id = job;
}

unfoldable pub create_verification_email_job : String → String → Tx (EmailJob × OutboxEvent)
create_verification_email_job name recipient = do
  job_id ← new_uuid
  job ← create_email_job (verification_job name recipient job_id)
  event_id ← new_uuid
  event ← create_outbox_event (verification_event job_id event_id)
  pure (job, event)

-- CreateUserTxResult and RequestEmailVerificationTxResult, which has the same fields.
pub record VerificationMailResult : Type 0 where
  pub user : User
  pub email_job : EmailJob
  pub outbox_event : OutboxEvent

abbrev pub send_verification : User → Tx VerificationMailResult
send_verification user = do
  sent ← create_verification_email_job user.username user.email
  pure (record { user = user; email_job = sent.0; outbox_event = sent.1 })

unfoldable pub create_user_tx : LetterCase → CreateUserParams → Tx VerificationMailResult
create_user_tx lc p = exec_tx (do user ← create_user lc p; send_verification user)

-- ReplayEmailJobTxResult
pub record ReplayEmailJobTxResult : Type 0 where
  pub email_job : EmailJob
  pub outbox_event : OutboxEvent

abbrev pub replay_job : EmailJob → Uuid → EmailJobParams
replay_job original job = record {
  id = job;
  parent_job_id = some original.id;
  job_type = original.job_type;
  username = original.username;
  recipient = original.recipient;
  payload = original.payload;
  max_attempts = original.max_attempts;
}

abbrev pub replay_event : OutboxEvent → Uuid → Uuid → OutboxEventParams
replay_event original job event = record {
  id = event;
  email_job_id = job;
  event_type = original.event_type;
  payload = record { job_id = job; event_id = none; correlation_id = none };
  correlation_id = original.correlation_id;
  entity_type = original.entity_type;
  entity_id = original.entity_id;
}

abbrev pub replay_audit : EmailJob → Uuid → Uuid → AuditLogParams
replay_audit original job event = record {
  entity_type = "email_job";
  entity_id = original.id;
  correlation_id = job;
  event_type = "email_job_replayed";
  actor = "operator_cli";
  from_state = some "dead_letter";
  to_state = some "dead_letter";
  message = none;
  metadata =
      ("replay_job_id", uuid_or_empty (some job))
      ∷ ("replay_outbox_event_id", uuid_or_empty (some event))
      ∷ [];
}

unfoldable pub replay_email_job : Uuid → Tx ReplayEmailJobTxResult
replay_email_job u = do
  original ← get_email_job u
  fail_if (not (str_eq original.status "dead_letter")) email_job_not_dead_letter
  original_event ← get_outbox_event_by_email_job_id original.id
  job_id ← new_uuid
  job ← create_email_job (replay_job original job_id)
  event_id ← new_uuid
  event ← create_outbox_event (replay_event original_event job_id event_id)
  create_audit_log (replay_audit original job_id event.id)
  pure (record { email_job = job; outbox_event = event })

unfoldable pub replay_email_job_tx : Uuid → Tx ReplayEmailJobTxResult
replay_email_job_tx u = exec_tx (replay_email_job u)

-- VerifyUserEmailTxParams
pub record VerifyUserEmailTxParams : Type 0 where
  pub username : String
  pub email : String
  pub job_id : Uuid
  pub token_hash : List ℕ

-- `!expiresAt.Valid || !time.Now().Before(expiresAt.Time)`
abbrev pub token_expired : Time → Option Time → Bool
token_expired now none = true
token_expired now (some t) = not (ltb now t)

abbrev pub is_verified : User → Bool
is_verified user = str_eq user.account_status "active" && is_some user.email_verified_at

abbrev pub verified_audit : EmailJob → User → AuditLogParams
verified_audit job user = record {
  entity_type = "email_job";
  entity_id = job.id;
  correlation_id = job.id;
  event_type = "email_verified";
  actor = "user";
  from_state = text_value user.account_status;
  to_state = text_value "active";
  message = none;
  metadata = [];
}

abbrev pub mark_verified : LetterCase → VerifyUserEmailTxParams → EmailJob → User → Bool → Tx User
mark_verified lc p job user true = pure user
mark_verified lc p job user false = do
  after ← mark_user_email_verified lc p.username p.email
  create_audit_log (verified_audit job user)
  pure after

unfoldable pub verify_user_email : LetterCase → VerifyUserEmailTxParams → Tx User
verify_user_email lc p = do
  job ← on_error (not_found_as email_verification_job_mismatch) (get_email_job_for_update p.job_id)
  fail_if (not (str_eq job.username p.username) || not (equal_fold lc job.recipient p.email))
      email_verification_job_mismatch
  now ← time_now
  fail_if (token_expired now job.verification_token_expires_at) email_verification_token_expired
  fail_if (not (constant_time_hash_equal job.verification_token_hash p.token_hash))
      email_verification_job_mismatch
  user ← get_user_for_update p.username
  fail_if (not (equal_fold lc user.email p.email)) email_verification_address_stale
  fail_if (str_eq user.account_status "disabled") registration_disabled
  fail_if (str_eq user.email_deliverability_status "undeliverable") email_address_undeliverable
  mark_verified lc p job user (is_verified user)

unfoldable pub verify_user_email_tx : LetterCase → VerifyUserEmailTxParams → Tx User
verify_user_email_tx lc p = exec_tx (verify_user_email lc p)

-- A minute, in the microseconds of a timestamp.
abbrev pub email_verification_request_cooldown : ℕ
email_verification_request_cooldown = 60_000_000

-- `time.Since(latest.CreatedAt.Time) < emailVerificationRequestCooldown`
abbrev pub asked_lately : Time → Option EmailJob → Bool
asked_lately now none = false
asked_lately now (some latest) = ltb now (latest.created_at + email_verification_request_cooldown)

unfoldable pub request_email_verification : LetterCase → String → Tx VerificationMailResult
request_email_verification lc name = do
  user ← get_user_for_update name
  fail_if (is_some user.email_verified_at && str_eq user.account_status "active")
      email_already_verified
  fail_if (str_eq user.email_deliverability_status "undeliverable") email_address_undeliverable
  latest ← row_or_none (get_latest_email_job_for_current_address lc name)
  now ← time_now
  fail_if (asked_lately now latest) email_verification_cooldown
  restarted ← restart_user_email_verification name
  send_verification restarted

unfoldable pub request_email_verification_tx : LetterCase → String → Tx VerificationMailResult
request_email_verification_tx lc name = exec_tx (request_email_verification lc name)
