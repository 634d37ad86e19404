-- ===== src/Models/Records.antt =====
-- Rows beside the ledger (db/sqlc/models.go): users, the audit log, e-mail jobs, outbox events and
-- idempotency keys. A `jsonb` or JSON byte column holds the value that was encoded.
use monierave.Base.{ℕ, ℤ, String, Option, List, Bool}
use monierave.Models.Banking.{Uuid, Time, Account, BankingTransaction, LedgerPosting}
use monierave.Models.Errors.{Error}

-- The values that the audit metadata holds. A UUID that may be missing, and an error, stand for
-- their texts.
pub data JsonValue : Type 0 where
  text : String → JsonValue
  number : ℤ → JsonValue
  boolean : Bool → JsonValue
  uuid_or_empty : Option Uuid → JsonValue
  error_text : Error → JsonValue

-- A message of the audit log: a text of the caller, or the text of an error.
pub data Message : Type 0 where
  plain : String → Message
  of_error : Error → Message

abbrev pub Metadata : Type 0
Metadata = List (String × JsonValue)

pub record AuditLog : Type 0 where
  pub id : ℕ
  pub entity_type : String
  pub entity_id : Uuid
  pub correlation_id : Uuid
  pub event_type : String
  pub actor : String
  pub from_state : Option String
  pub to_state : Option String
  pub message : Option Message
  pub metadata : Metadata
  pub created_at : Time

-- The columns that the modelled operations use.
pub record User : Type 0 where
  pub username : String
  pub hashed_password : String
  pub full_name : String
  pub email : String
  pub email_verified_at : Option Time
  pub email_deliverability_status : String
  pub email_deliverability_updated_at : Option Time
  pub email_bounced_at : Option Time
  pub account_status : String
  pub registration_expires_at : Option Time

pub record FinancialNotificationPayload : Type 0 where
  pub event_id : Uuid
  pub correlation_id : Uuid
  pub event_type : String
  pub reference : String
  pub amount : ℤ
  pub currency : String
  pub direction : String
  pub occurred_at : Time
  pub account_status : String
  pub reason : String

-- What the `payload` column of a job was encoded from: a notification, or `emailJobPayload` of
-- db/sqlc/create_user_tx.go with the user's name and the recipient.
pub data EmailPayload : Type 0 where
  notification : FinancialNotificationPayload → EmailPayload
  verification : String → String → EmailPayload

pub record EmailJob : Type 0 where
  pub id : Uuid
  pub parent_job_id : Option Uuid
  pub job_type : String
  pub username : String
  pub recipient : String
  pub payload : EmailPayload
  pub status : String
  pub attempt_count : ℕ
  pub max_attempts : ℕ
  pub provider_message_id : Option String
  pub last_error : Option Message
  pub created_at : Time
  pub updated_at : Time
  pub queued_at : Option Time
  pub processing_at : Option Time
  pub last_attempt_at : Option Time
  pub sent_at : Option Time
  pub dead_lettered_at : Option Time
  pub delivery_status : String
  pub delivery_event_at : Option Time
  pub accepted_at : Option Time
  pub delivered_at : Option Time
  pub bounced_at : Option Time
  pub bounce_type : Option String
  pub bounce_subtype : Option String
  pub bounce_message : Option String
  pub verification_token_hash : List ℕ
  pub verification_token_expires_at : Option Time

-- A row of `email_delivery_events`.
pub record EmailDeliveryEvent : Type 0 where
  pub webhook_id : String
  pub email_job_id : Option Uuid
  pub provider_message_id : String
  pub event_type : String
  pub occurred_at : Time
  pub received_at : Time
  pub payload : List ℕ

-- `outboxEmailPayload` of db/sqlc/create_user_tx.go; a text that is left out is `none`.
pub record OutboxEmailPayload : Type 0 where
  pub job_id : Uuid
  pub event_id : Option Uuid
  pub correlation_id : Option Uuid

pub record OutboxEvent : Type 0 where
  pub id : Uuid
  pub email_job_id : Uuid
  pub event_type : String
  pub payload : OutboxEmailPayload
  pub status : String
  pub publish_attempts : ℕ
  pub available_at : Time
  pub claimed_by : Option String
  pub claimed_until : Option Time
  pub last_error : Option Message
  pub created_at : Time
  pub published_at : Option Time
  pub correlation_id : Uuid
  pub entity_type : String
  pub entity_id : Uuid

-- db/sqlc/transaction_tx.go
pub record TransferTxResult : Type 0 where
  pub transaction : BankingTransaction
  pub postings : List LedgerPosting
  pub from_account : Account
  pub to_account : Account
  pub replayed : Bool

pub record IdempotencyKey : Type 0 where
  pub id : ℕ
  pub username : String
  pub operation : String
  pub idempotency_key : String
  pub request_hash : List ℕ
  pub transaction_id : Option Uuid
  pub response_status : Option ℕ
  pub result_snapshot : Option TransferTxResult
  pub created_at : Time
  pub expires_at : Time
