-- ===== src/Models/Errors.antt =====
-- The errors of the store: what the driver reports, and the sentinels of db/sqlc/*_tx.go.
use monierave.Base.{String}

-- What the driver reports of a refused query: the name of a constraint, or anything else.
pub data Fault : Type 0 where
  constraint : String → Fault
  connection : Fault

pub data Error : Type 0 where
  db_fault : Fault → Error
  no_rows : Error  -- pgx.ErrNoRows
  rollback_failed : Error → Error
  joined : Error → Error → Error  -- errors.Join
  account_not_found account_not_owned account_balance_not_zero : Error
  account_frozen account_closed currency_mismatch same_account : Error
  insufficient_balance recipient_not_found : Error
  idempotency_conflict invalid_idempotency_key incomplete_idempotency_record : Error
  per_transfer_limit_exceeded daily_transfer_limit_exceeded : Error
  amount_not_positive too_few_postings zero_posting unbalanced_postings : Error
  invalid_operator_action invalid_target_status : Error
  account_already_frozen account_already_active : Error
  transaction_not_found transaction_not_posted transaction_already_reversed : Error
  transaction_not_reversible reversal_insufficient_funds : Error
  insufficient_ledger_postings missing_customer_account : Error
  account_number_attempts_exhausted : Error
  random_source_failed : Error
  session_expired session_revoked session_mismatch device_mismatch : Error
  refresh_token_reuse : Error
  beneficiary_already_exists : Error
  email_already_verified email_verification_cooldown email_verification_job_mismatch : Error
  email_verification_address_stale email_verification_token_expired : Error
  email_address_undeliverable registration_disabled email_job_not_dead_letter : Error
  invalid_email_job_id email_job_missing email_job_dead_lettered email_sending_failed : Error
  email_retries_exhausted : Error
  skip_retry : Error → Error  -- wraps asynq.SkipRetry
  task_not_enqueued : String → Error  -- what the task queue reports

-- `if errors.Is(err, pgx.ErrNoRows) { return e }`
abbrev pub not_found_as : Error → Error → Error
not_found_as e no_rows = e
not_found_as e x = x
