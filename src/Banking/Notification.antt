-- ===== src/Banking/Notification.antt =====
-- db/sqlc/financial_notification.go: an e-mail job and the outbox event that announces it, written
-- in the transaction of the caller. The time zero stands for "now".
use monierave.Base.{String, ℕ, ℤ, ◌≡◌, Option, none, some}
use monierave.Models.{
  Uuid, Time, User, EmailJob, OutboxEvent, FinancialNotificationPayload, notification, Error,
  no_rows,
}
use monierave.Models.Tables.{Db}
use monierave.Store.{Tx, pure, ◌>>=◌, new_uuid, ok}
use monierave.Store.Rules.{Runs, Faulty, pure_rule, new_uuid_rule, then_rule}
use monierave.Queries.Records.{
  user_by_name, get_user, get_user_rule, EmailJobParams, new_email_job, with_email_job,
  create_email_job, create_email_job_rule, OutboxEventParams, new_outbox_event, with_outbox_event,
  create_outbox_event, create_outbox_event_rule,
}

pub record FinancialNotificationParams : Type 0 where
  pub username : String
  pub event_type : String
  pub entity_type : String
  pub entity_id : Uuid
  pub correlation_id : Uuid
  pub reference : String
  pub amount : ℤ
  pub currency : String
  pub direction : String
  pub occurred_at : Option Time
  pub account_status : String
  pub reason : String

abbrev pub default_email_max_attempts : ℕ
default_email_max_attempts = 10

-- `time.Now().UTC()`
unfoldable pub time_now : Tx Time
time_now w = (ok w.db.clock, w)

abbrev pub time_or : Option Time → Time → Time
time_or none now = now
time_or (some t) now = t

abbrev pub notification_payload :
    FinancialNotificationParams → Uuid → Time → FinancialNotificationPayload
notification_payload p event now = record {
  event_id = event;
  correlation_id = p.correlation_id;
  event_type = p.event_type;
  reference = p.reference;
  amount = p.amount;
  currency = p.currency;
  direction = p.direction;
  occurred_at = time_or p.occurred_at now;
  account_status = p.account_status;
  reason = p.reason;
}

abbrev pub notification_job :
    FinancialNotificationParams → User → Uuid → Uuid → Time → EmailJobParams
notification_job p user event job now = record {
  id = job;
  parent_job_id = none;
  job_type = "financial_notification";
  username = user.username;
  recipient = user.email;
  payload = notification (notification_payload p event now);
  max_attempts = default_email_max_attempts;
}

abbrev pub notification_event : FinancialNotificationParams → Uuid → Uuid → OutboxEventParams
notification_event p event job = record {
  id = event;
  email_job_id = job;
  event_type = p.event_type;
  payload = record { job_id = job; event_id = some event; correlation_id = some p.correlation_id };
  correlation_id = p.correlation_id;
  entity_type = p.entity_type;
  entity_id = p.entity_id;
}

unfoldable pub create_financial_notification :
    FinancialNotificationParams → Tx (EmailJob × OutboxEvent)
create_financial_notification p = do
  user ← get_user p.username
  event_id ← new_uuid
  job_id ← new_uuid
  now ← time_now
  job ← create_email_job (notification_job p user event_id job_id now)
  event ← create_outbox_event (notification_event p event_id job_id)
  pure (job, event)

-- The database after one more job and one more event.
abbrev pub notified : FinancialNotificationParams → User → Uuid → Uuid → Db → Db
notified p user event job d =
    let j = new_email_job (notification_job p user event job d.clock) d in
    with_outbox_event (new_outbox_event (notification_event p event job) d) (with_email_job j d)

module _ {E : Error → Db → Type 0} {d : Db} where
  pub time_now_rule : {Q : Time → Db → Type 0} → Q d.clock d → Runs E Q time_now d
  unfolding time_now
  time_now_rule h = record { at = λ w. h }

  -- The database gains one job and one event, both addressed by the user's row.
  pub create_financial_notification_rule :
      {Q : EmailJob × OutboxEvent → Db → Type 0}
      → Faulty E
      → (p : FinancialNotificationParams) → (user_by_name p.username d.users ≡ none → E no_rows d)
      → ((user : User) (event job : Uuid)
          → user_by_name p.username d.users ≡ some user
          → Q
              (
                new_email_job (notification_job p user event job d.clock) d,
                new_outbox_event (notification_event p event job) d,
              )
              (notified p user event job d))
      → Runs E Q (create_financial_notification p) d
  unfolding create_financial_notification
  create_financial_notification_rule fault p missing h = then_rule (
      get_user_rule fault _ missing λ user found. then_rule (
        new_uuid_rule λ event. then_rule (
          new_uuid_rule λ job. then_rule (
            time_now_rule (
              then_rule (
                create_email_job_rule fault _ (
                  then_rule
                    (create_outbox_event_rule fault _ (pure_rule _ (h user event job found))))))))))
