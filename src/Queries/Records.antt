-- ===== src/Queries/Records.antt =====
-- The queries beside the ledger: CreateAuditLog (db/sqlc/audit_log.sql.go), GetUser
-- (db/sqlc/user.sql.go), CreateEmailJob (db/sqlc/email_job.sql.go) and CreateOutboxEvent
-- (db/sqlc/outbox.sql.go), with the audit rows that the triggers of db/migration write of the last two.
use monierave.Base.{
  ℕ, suc, ◌≡◌, String, [], ◌∷◌, ◌++◌, Option, none, some, List, str_eq, find_first,
}
use monierave.Models.{
  Uuid, User, AuditLog, Message, Metadata, EmailPayload, EmailJob, OutboxEmailPayload, OutboxEvent,
  Error, no_rows, text, uuid_or_empty,
}
use monierave.Models.Tables.{Db}
use monierave.Store.{Tx, query, one, ok}
use monierave.Store.Rules.{Runs, Faulty, query_rule, Answer-one}

-- CreateAuditLogParams
pub record AuditLogParams : Type 0 where
  pub entity_type : String
  pub entity_id : Uuid
  pub correlation_id : Uuid
  pub event_type : String
  pub actor : String
  pub from_state : Option String
  pub to_state : Option String
  pub message : Option Message
  pub metadata : Metadata

abbrev pub new_audit_log : AuditLogParams → Db → AuditLog
new_audit_log p d = record {
  id = d.next_audit_id;
  entity_type = p.entity_type;
  entity_id = p.entity_id;
  correlation_id = p.correlation_id;
  event_type = p.event_type;
  actor = p.actor;
  from_state = p.from_state;
  to_state = p.to_state;
  message = p.message;
  metadata = p.metadata;
  created_at = d.clock;
}

abbrev pub with_audit_log : AuditLog → Db → Db
with_audit_log a d = record d {
  audit_logs = d.audit_logs ++ a ∷ [];
  next_audit_id = suc d.next_audit_id;
}

unfoldable pub create_audit_log : AuditLogParams → Tx AuditLog
create_audit_log p = query (λ d. ok (new_audit_log p d, with_audit_log (new_audit_log p d) d))

abbrev pub user_by_name : String → List User → Option User
user_by_name name = find_first (λ u. str_eq u.username name)

unfoldable pub get_user : String → Tx User
get_user name = query (λ d. one (user_by_name name d.users) (λ u. (u, d)))

-- CreateEmailJobParams
pub record EmailJobParams : Type 0 where
  pub id : Uuid
  pub parent_job_id : Option Uuid
  pub job_type : String
  pub username : String
  pub recipient : String
  pub payload : EmailPayload
  pub max_attempts : ℕ

abbrev pub new_email_job : EmailJobParams → Db → EmailJob
new_email_job p d = record {
  id = p.id;
  parent_job_id = p.parent_job_id;
  job_type = p.job_type;
  username = p.username;
  recipient = p.recipient;
  payload = p.payload;
  status = "pending";
  attempt_count = 0;
  max_attempts = p.max_attempts;
  provider_message_id = none;
  last_error = none;
  created_at = d.clock;
  updated_at = d.clock;
  queued_at = none;
  processing_at = none;
  last_attempt_at = none;
  sent_at = none;
  dead_lettered_at = none;
  delivery_status = "pending";
  delivery_event_at = none;
  accepted_at = none;
  delivered_at = none;
  bounced_at = none;
  bounce_type = none;
  bounce_subtype = none;
  bounce_message = none;
  verification_token_hash = [];
  verification_token_expires_at = none;
}

-- What the trigger on `email_jobs` records of a new row.
abbrev pub job_audit_of : EmailJob → Option Uuid → AuditLogParams
job_audit_of j none = record {
  entity_type = "email_job";
  entity_id = j.id;
  correlation_id = j.id;
  event_type = "email_job_created";
  actor = "api";
  from_state = none;
  to_state = some j.status;
  message = none;
  metadata = [];
}
job_audit_of j (some parent) = record {
  entity_type = "email_job";
  entity_id = j.id;
  correlation_id = j.id;
  event_type = "email_job_replay_created";
  actor = "operator_cli";
  from_state = none;
  to_state = some j.status;
  message = none;
  metadata = ("parent_job_id", uuid_or_empty (some parent)) ∷ [];
}

abbrev pub job_audit : EmailJob → AuditLogParams
job_audit j = job_audit_of j j.parent_job_id

-- The row, and the row of the audit log that the trigger adds.
abbrev pub with_email_job : EmailJob → Db → Db
with_email_job j d =
    let d1 = record d { email_jobs = d.email_jobs ++ j ∷ [] } in
    with_audit_log (new_audit_log (job_audit j) d1) d1

unfoldable pub create_email_job : EmailJobParams → Tx EmailJob
create_email_job p = query (λ d. ok (new_email_job p d, with_email_job (new_email_job p d) d))

-- CreateOutboxEventParams
pub record OutboxEventParams : Type 0 where
  pub id : Uuid
  pub email_job_id : Uuid
  pub event_type : String
  pub payload : OutboxEmailPayload
  pub correlation_id : Uuid
  pub entity_type : String
  pub entity_id : Uuid

abbrev pub new_outbox_event : OutboxEventParams → Db → OutboxEvent
new_outbox_event p d = record {
  id = p.id;
  email_job_id = p.email_job_id;
  event_type = p.event_type;
  payload = p.payload;
  status = "pending";
  publish_attempts = 0;
  available_at = d.clock;
  claimed_by = none;
  claimed_until = none;
  last_error = none;
  created_at = d.clock;
  published_at = none;
  correlation_id = p.correlation_id;
  entity_type = p.entity_type;
  entity_id = p.entity_id;
}

-- What the trigger on `outbox_events` records of a new row.
abbrev pub event_audit : OutboxEvent → AuditLogParams
event_audit e = record {
  entity_type = "outbox_event";
  entity_id = e.id;
  correlation_id = e.correlation_id;
  event_type = "outbox_event_created";
  actor = "application";
  from_state = none;
  to_state = some e.status;
  message = none;
  metadata =
      ("event_type", text e.event_type)
      ∷ ("email_job_id", uuid_or_empty (some e.email_job_id))
      ∷ ("source_entity_type", text e.entity_type)
      ∷ ("source_entity_id", uuid_or_empty (some e.entity_id))
      ∷ [];
}

-- The row, and the row of the audit log that the trigger adds.
abbrev pub with_outbox_event : OutboxEvent → Db → Db
with_outbox_event e d =
    let d1 = record d { outbox_events = d.outbox_events ++ e ∷ [] } in
    with_audit_log (new_audit_log (event_audit e) d1) d1

unfoldable pub create_outbox_event : OutboxEventParams → Tx OutboxEvent
create_outbox_event p =
    query (λ d. ok (new_outbox_event p d, with_outbox_event (new_outbox_event p d) d))

module _ {E : Error → Db → Type 0} {d : Db} (fault : Faulty E) where
  pub create_audit_log_rule :
      {Q : AuditLog → Db → Type 0} (p : AuditLogParams)
      → Q (new_audit_log p d) (with_audit_log (new_audit_log p d) d)
      → Runs E Q (create_audit_log p) d
  unfolding create_audit_log
  create_audit_log_rule p h = query_rule _ fault h

  pub get_user_rule :
      {Q : User → Db → Type 0} (name : String)
      → (user_by_name name d.users ≡ none → E no_rows d)
      → ((u : User) → user_by_name name d.users ≡ some u → Q u d)
      → Runs E Q (get_user name) d
  unfolding get_user
  get_user_rule {Q} name missing found =
      query_rule _ fault (Answer-one E Q d (user_by_name name d.users) _ missing found)

  pub create_email_job_rule :
      {Q : EmailJob → Db → Type 0} (p : EmailJobParams)
      → Q (new_email_job p d) (with_email_job (new_email_job p d) d)
      → Runs E Q (create_email_job p) d
  unfolding create_email_job
  create_email_job_rule p h = query_rule _ fault h

  pub create_outbox_event_rule :
      {Q : OutboxEvent → Db → Type 0} (p : OutboxEventParams)
      → Q (new_outbox_event p d) (with_outbox_event (new_outbox_event p d) d)
      → Runs E Q (create_outbox_event p) d
  unfolding create_outbox_event
  create_outbox_event_rule p h = query_rule _ fault h
