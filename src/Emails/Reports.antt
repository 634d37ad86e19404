-- ===== src/Emails/Reports.antt =====
-- The e-mail provider's reports on the fate of a message: `ProcessEmailDeliveryEventTx` of
-- db/sqlc/email_delivery_tx.go. Times are whole microseconds, as in the database.
pub mod Ranks
pub mod Outcome
pub mod Bounded
use monierave.Base.{
  ℕ, String, [], ◌∷◌, List, Option, none, some, Bool, true, false, ◌&&◌, ◌||◌, not, str_eq, ltb,
  is_empty, if◌then◌else◌, LetterCase, equal_fold,
}
use monierave.Models.{Uuid, Time, EmailJob, EmailDeliveryEvent, User, AuditLog, text}
use monierave.Store.{Tx, pure, ◌>>=◌, ◌>>◌, exec_tx, row_or_none}
use monierave.Queries.Ledger.{is_some}
use monierave.Queries.Records.{AuditLogParams, create_audit_log}
use monierave.Queries.Emails.{
  get_email_job_by_provider_message_id_for_update, get_email_job_for_update,
  UpdateEmailJobDeliveryParams, update_email_job_delivery, create_email_delivery_event, text_is,
}
use monierave.Queries.Users.{DeliverabilityParams, update_current_user_email_deliverability}
use monierave.Banking.Audit.{text_value}

-- ProcessEmailDeliveryEventParams
pub record ProcessEmailDeliveryEventParams : Type 0 where
  pub webhook_id : String
  pub event_type : String
  pub provider_message_id : String
  pub job_id : Option Uuid
  pub occurred_at : Time
  pub payload : List ℕ
  pub delivery_status : String
  pub bounce_type : String
  pub bounce_subtype : String
  pub bounce_message : String

-- A job, or one with no more than its id, if that.
pub data ReportedJob : Type 0 where
  matched : EmailJob → ReportedJob
  unmatched : Option Uuid → ReportedJob

abbrev pub is_matched : ReportedJob → Bool
is_matched (matched j) = true
is_matched (unmatched u) = false

abbrev pub reported_id : ReportedJob → Option Uuid
reported_id (matched j) = some j.id
reported_id (unmatched u) = u

-- ProcessEmailDeliveryEventResult
pub record ProcessEmailDeliveryEventResult : Type 0 where
  pub event : Option EmailDeliveryEvent
  pub email_job : ReportedJob
  pub duplicate : Bool
  pub job_matched : Bool
  pub state_updated : Bool
  pub user_state_updated : Bool

abbrev pub has_other_message : String → EmailJob → Bool
has_other_message m j = is_some j.provider_message_id && not (text_is m j.provider_message_id)

abbrev pub job_of_id : ProcessEmailDeliveryEventParams → Uuid → Option EmailJob → ReportedJob
job_of_id p u none = unmatched (some u)
job_of_id p u (some job) =
    if has_other_message p.provider_message_id job then unmatched (some u) else matched job

abbrev pub find_by_id : ProcessEmailDeliveryEventParams → Option Uuid → Tx ReportedJob
find_by_id p none = pure (unmatched none)
find_by_id p (some u) = do job ← row_or_none (get_email_job_for_update u); pure (job_of_id p u job)

abbrev pub found_or_by_id : ProcessEmailDeliveryEventParams → Option EmailJob → Tx ReportedJob
found_or_by_id p none = find_by_id p p.job_id
found_or_by_id p (some job) = pure (matched job)

unfoldable pub find_email_job_for_delivery_event : ProcessEmailDeliveryEventParams → Tx ReportedJob
find_email_job_for_delivery_event p = do
  job ← row_or_none (get_email_job_by_provider_message_id_for_update p.provider_message_id)
  found_or_by_id p job

unfoldable pub is_recognized_email_delivery_status : String → Bool
is_recognized_email_delivery_status s =
    str_eq s "accepted"
    || str_eq s "delivered"
    || str_eq s "delayed"
    || str_eq s "bounced"
    || str_eq s "failed"
    || str_eq s "suppressed"
    || str_eq s "complained"

unfoldable pub is_terminal_email_delivery_status : String → Bool
is_terminal_email_delivery_status s =
    str_eq s "bounced" || str_eq s "failed" || str_eq s "suppressed" || str_eq s "complained"

-- The `switch` on the current status.
unfoldable pub allowed_transition : String → String → Bool
unfolding is_recognized_email_delivery_status is_terminal_email_delivery_status
allowed_transition current next =
    if str_eq current "pending"
    then is_recognized_email_delivery_status next
    else if str_eq current "accepted"
    then str_eq next "delayed" || str_eq next "delivered" || is_terminal_email_delivery_status next
    else if str_eq current "delayed"
    then str_eq next "delivered" || is_terminal_email_delivery_status next
    else str_eq current "delivered" && str_eq next "complained"

unfoldable pub can_apply_email_delivery_transition : String → String → Option Time → Time → Bool
unfolding allowed_transition
can_apply_email_delivery_transition current next current_at next_at =
    not (str_eq current next)
    && not (elim current_at as (λ _. Bool) [ none ↦ false | some t ↦ not (ltb t next_at) ])
    && allowed_transition current next

abbrev pub is_permanent_bounce : LetterCase → ProcessEmailDeliveryEventParams → Bool
is_permanent_bounce lc p =
    str_eq p.delivery_status "bounced" && equal_fold lc p.bounce_type "permanent"

-- The empty text is `none`.
unfoldable pub user_deliverability_for_event :
    LetterCase → ProcessEmailDeliveryEventParams → Option String
user_deliverability_for_event lc p =
    if str_eq p.delivery_status "delivered"
    then some "deliverable"
    else if str_eq p.delivery_status "suppressed" || str_eq p.delivery_status "complained"
    then some "undeliverable"
    else if is_permanent_bounce lc p
    then some "undeliverable"
    else none

abbrev pub bounce_timestamp : LetterCase → ProcessEmailDeliveryEventParams → Option Time
bounce_timestamp lc p = if is_permanent_bounce lc p then some p.occurred_at else none

abbrev pub delivery_audit : ProcessEmailDeliveryEventParams → EmailJob → AuditLogParams
delivery_audit p job = record {
  entity_type = "email_job";
  entity_id = job.id;
  correlation_id = job.id;
  event_type = p.event_type;
  actor = "resend_webhook";
  from_state = text_value job.delivery_status;
  to_state = text_value p.delivery_status;
  message = none;
  metadata =
      ("webhook_id", text p.webhook_id)
      ∷ ("provider_message_id", text p.provider_message_id)
      ∷ ("bounce_type", text p.bounce_type)
      ∷ ("bounce_subtype", text p.bounce_subtype)
      ∷ [];
}

abbrev pub update_user_deliverability :
    LetterCase → ProcessEmailDeliveryEventParams → EmailJob → Option String → Tx (Option User)
update_user_deliverability lc p job none = pure none
update_user_deliverability lc p job (some status) = row_or_none (
    update_current_user_email_deliverability lc (record {
      deliverability_status = status;
      occurred_at = p.occurred_at;
      bounced_at = bounce_timestamp lc p;
      username = job.username;
      recipient = job.recipient;
    }))

abbrev pub delivery_params :
    ProcessEmailDeliveryEventParams → EmailJob → UpdateEmailJobDeliveryParams
delivery_params p job = record {
  provider_message_id = p.provider_message_id;
  delivery_status = p.delivery_status;
  occurred_at = p.occurred_at;
  bounce_type = text_value p.bounce_type;
  bounce_subtype = text_value p.bounce_subtype;
  bounce_message = text_value p.bounce_message;
  id = job.id;
}

abbrev pub recorded :
    Option EmailDeliveryEvent → ReportedJob → Bool → ProcessEmailDeliveryEventResult
recorded event job duplicate = record {
  event = event;
  email_job = job;
  duplicate = duplicate;
  job_matched = is_matched job;
  state_updated = false;
  user_state_updated = false;
}

abbrev pub state_changed :
    LetterCase
    → ProcessEmailDeliveryEventParams
    → EmailDeliveryEvent
    → EmailJob
    → Option EmailJob
    → Tx ProcessEmailDeliveryEventResult
state_changed lc p event job none =
    pure (record (recorded (some event) (unmatched none) false) { job_matched = true })
state_changed lc p event job (some after) = do
  user ← update_user_deliverability lc p job (user_deliverability_for_event lc p)
  create_audit_log (delivery_audit p job)
  pure (record {
    event = some event;
    email_job = matched after;
    duplicate = false;
    job_matched = true;
    state_updated = true;
    user_state_updated = is_some user;
  })

-- `if !matched || arg.DeliveryStatus == ""`, and `if !canApplyEmailDeliveryTransition(…)`
abbrev pub is_applicable : ProcessEmailDeliveryEventParams → EmailJob → Bool
is_applicable p job =
    not (is_empty p.delivery_status)
    && can_apply_email_delivery_transition job.delivery_status p.delivery_status
        job.delivery_event_at p.occurred_at

abbrev pub apply_if :
    LetterCase
    → ProcessEmailDeliveryEventParams
    → EmailDeliveryEvent
    → EmailJob
    → Bool
    → Tx ProcessEmailDeliveryEventResult
apply_if lc p event job false = pure (recorded (some event) (matched job) false)
apply_if lc p event job true = do
  after ← row_or_none (update_email_job_delivery (delivery_params p job))
  state_changed lc p event job after

abbrev pub apply_report :
    LetterCase
    → ProcessEmailDeliveryEventParams
    → EmailDeliveryEvent
    → ReportedJob
    → Tx ProcessEmailDeliveryEventResult
apply_report lc p event (unmatched u) = pure (recorded (some event) (unmatched u) false)
apply_report lc p event (matched job) = apply_if lc p event job (is_applicable p job)

abbrev pub report_recorded :
    LetterCase
    → ProcessEmailDeliveryEventParams
    → ReportedJob
    → Option EmailDeliveryEvent
    → Tx ProcessEmailDeliveryEventResult
report_recorded lc p job none = pure (recorded none job true)
report_recorded lc p job (some event) = apply_report lc p event job

abbrev pub delivery_event :
    ProcessEmailDeliveryEventParams → ReportedJob → Time → EmailDeliveryEvent
delivery_event p job now = record {
  webhook_id = p.webhook_id;
  email_job_id = reported_id job;
  provider_message_id = p.provider_message_id;
  event_type = p.event_type;
  occurred_at = p.occurred_at;
  received_at = now;
  payload = p.payload;
}

unfoldable pub process_email_delivery_event :
    LetterCase → ProcessEmailDeliveryEventParams → Tx ProcessEmailDeliveryEventResult
process_email_delivery_event lc p = do
  job ← find_email_job_for_delivery_event p
  event ← row_or_none (create_email_delivery_event (delivery_event p job))
  report_recorded lc p job event

unfoldable pub process_email_delivery_event_tx :
    LetterCase → ProcessEmailDeliveryEventParams → Tx ProcessEmailDeliveryEventResult
process_email_delivery_event_tx lc p = exec_tx (process_email_delivery_event lc p)
