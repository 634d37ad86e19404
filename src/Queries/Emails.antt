-- ===== src/Queries/Emails.antt =====
-- The queries on `email_jobs` (db/sqlc/email_job.sql.go) and `email_delivery_events`
-- (db/sqlc/email_delivery_event.sql.go) that the sending of e-mails and the provider's reports use.
pub mod Rules
pub mod Unique
use monierave.Base.{
  ℕ, suc, String, List, [], ◌∷◌, ◌++◌, Option, none, some, Bool, ◌&&◌, ◌||◌, not, ◌==◌, ltb, str_eq,
  find_first, select, update_where, order_by, take, length, bytes_equal, if◌then◌else◌, LetterCase,
}
use monierave.Models.{Uuid, Time, User, EmailJob, EmailDeliveryEvent, Message, no_rows}
use monierave.Models.Tables.{Db}
use monierave.Store.{Tx, query, one, ok, err}
use monierave.Queries.Ledger.{is_some}
use monierave.Queries.Records.{user_by_name}
use monierave.Queries.Outbox.{job_by_id}

abbrev pub with_jobs : Db → List EmailJob → Db
with_jobs d rows = record d { email_jobs = rows }

abbrev pub has_job_id : Uuid → EmailJob → Bool
has_job_id u j = j.id == u

-- UPDATE email_jobs SET … WHERE … RETURNING …
abbrev pub update_job : (EmailJob → Bool) → (Time → EmailJob → EmailJob) → Tx EmailJob
update_job p f = query (λ d.
    one (find_first p d.email_jobs)
      (λ j. (f d.clock j, with_jobs d (update_where p (f d.clock) d.email_jobs))))

unfoldable pub get_email_job_for_update : Uuid → Tx EmailJob
get_email_job_for_update u = query (λ d. one (job_by_id u d.email_jobs) (λ j. (j, d)))

abbrev pub text_is : String → Option String → Bool
text_is s none = Bool.false
text_is s (some t) = str_eq t s

abbrev pub has_message_id : String → EmailJob → Bool
has_message_id m j = text_is m j.provider_message_id

unfoldable pub get_email_job_by_provider_message_id : String → Tx EmailJob
get_email_job_by_provider_message_id m =
    query (λ d. one (find_first (has_message_id m) d.email_jobs) (λ j. (j, d)))

unfoldable pub get_email_job_by_provider_message_id_for_update : String → Tx EmailJob
get_email_job_by_provider_message_id_for_update m =
    query (λ d. one (find_first (has_message_id m) d.email_jobs) (λ j. (j, d)))

-- A hash that is NULL, here empty, equals none.
abbrev pub has_token_hash : List ℕ → EmailJob → Bool
has_token_hash hash j =
    not (length j.verification_token_hash == 0) && bytes_equal j.verification_token_hash hash

unfoldable pub get_email_job_by_verification_token_hash : List ℕ → Tx EmailJob
get_email_job_by_verification_token_hash hash =
    query (λ d. one (find_first (has_token_hash hash) d.email_jobs) (λ j. (j, d)))

-- JOIN users … WHERE email_jobs.username = $1 AND lower(email_jobs.recipient) = lower(users.email)
abbrev pub to_current_address : LetterCase → List User → String → EmailJob → Bool
to_current_address lc users name j =
    str_eq j.username name && elim (user_by_name name users) as (λ _. Bool) [
      | none ↦ Bool.false
      | some user ↦ str_eq (lc.lower j.recipient) (lc.lower user.email)
    ]

unfoldable pub get_latest_email_job_for_current_address : LetterCase → String → Tx EmailJob
get_latest_email_job_for_current_address lc name = query (λ d.
    elim (order_by (λ i j. ltb j.created_at i.created_at)
      (select (to_current_address lc d.users name) d.email_jobs)) [
        | [] ↦ err no_rows
        | j ∷ js ↦ ok (j, d)
      ])

-- ORDER BY dead_lettered_at DESC has NULL first.
abbrev pub died_later : EmailJob → EmailJob → Bool
died_later i j = elim i.dead_lettered_at as (λ _. Bool) [
  | none ↦ Bool.true
  | some s ↦ elim j.dead_lettered_at as (λ _. Bool) [ none ↦ Bool.false | some t ↦ ltb t s ]
]

-- LIMIT $1
unfoldable pub list_dead_letter_email_jobs : ℕ → Tx (List EmailJob)
list_dead_letter_email_jobs limit = query (λ d. ok (
  take limit (order_by died_later (select (λ j. str_eq j.status "dead_letter") d.email_jobs)),
  d,
))

-- WHERE status = 'sent' AND sent_at < $1
abbrev pub is_old_mail : Time → EmailJob → Bool
is_old_mail t j =
    str_eq j.status "sent"
    && elim j.sent_at as (λ _. Bool) [ none ↦ Bool.false | some sent ↦ ltb sent t ]

unfoldable pub delete_expired_sent_email_jobs : Time → Tx ℕ
delete_expired_sent_email_jobs t = query (λ d. ok (
  length (select (is_old_mail t) d.email_jobs),
  with_jobs d (select (λ j. not (is_old_mail t j)) d.email_jobs),
))

-- WHERE id = $1 AND status IN ('pending', 'queued', 'processing', 'retrying')
abbrev pub is_open_job : Uuid → EmailJob → Bool
is_open_job u j =
    j.id == u
    && (str_eq j.status "pending"
        || str_eq j.status "queued"
        || str_eq j.status "processing"
        || str_eq j.status "retrying")

abbrev pub started : Time → EmailJob → EmailJob
started now j = record j {
  status = "processing";
  attempt_count = suc j.attempt_count;
  processing_at = some now;
  last_attempt_at = some now;
  updated_at = now;
}

unfoldable pub start_email_job_attempt : Uuid → Tx EmailJob
start_email_job_attempt u = update_job (is_open_job u) started

abbrev pub value_or : {A : Type 0} → Option A → A → Option A
value_or none a = some a
value_or (some b) a = some b

abbrev pub mailed : String → Time → EmailJob → EmailJob
mailed message_id now j = record j {
  status = "sent";
  provider_message_id = some message_id;
  delivery_status = if is_some j.delivery_event_at then j.delivery_status else "accepted";
  accepted_at = value_or j.accepted_at now;
  last_error = none;
  sent_at = some now;
  updated_at = now;
}

unfoldable pub mark_email_job_sent : Uuid → String → Tx EmailJob
mark_email_job_sent u message_id = update_job (has_job_id u) (mailed message_id)

-- WHERE id = $1 AND status <> 'sent'
abbrev pub is_unsent : Uuid → EmailJob → Bool
is_unsent u j = j.id == u && not (str_eq j.status "sent")

abbrev pub retrying : Message → Time → EmailJob → EmailJob
retrying reason now j = record j { status = "retrying"; last_error = some reason; updated_at = now }

unfoldable pub mark_email_job_retrying : Uuid → Message → Tx EmailJob
mark_email_job_retrying u reason = update_job (is_unsent u) (retrying reason)

abbrev pub dead_lettered : Message → Time → EmailJob → EmailJob
dead_lettered reason now j = record j {
  status = "dead_letter";
  last_error = some reason;
  dead_lettered_at = some now;
  updated_at = now;
}

unfoldable pub mark_email_job_dead_letter : Uuid → Message → Tx EmailJob
mark_email_job_dead_letter u reason = update_job (is_unsent u) (dead_lettered reason)

-- WHERE id = $1 AND job_type = 'verify_email'
abbrev pub is_verification : Uuid → EmailJob → Bool
is_verification u j = j.id == u && str_eq j.job_type "verify_email"

abbrev pub with_token : List ℕ → Time → Time → EmailJob → EmailJob
with_token hash expires_at now j = record j {
  verification_token_hash = hash;
  verification_token_expires_at = some expires_at;
  updated_at = now;
}

unfoldable pub set_email_job_verification_token : Uuid → List ℕ → Time → Tx EmailJob
set_email_job_verification_token u hash expires_at =
    update_job (is_verification u) (with_token hash expires_at)

-- UpdateEmailJobDeliveryParams
pub record UpdateEmailJobDeliveryParams : Type 0 where
  pub provider_message_id : String
  pub delivery_status : String
  pub occurred_at : Time
  pub bounce_type : Option String
  pub bounce_subtype : Option String
  pub bounce_message : Option String
  pub id : Uuid

-- WHERE id = $7 AND (delivery_event_at IS NULL OR delivery_event_at < $3)
abbrev pub takes_report : UpdateEmailJobDeliveryParams → EmailJob → Bool
takes_report p j =
    j.id == p.id
    && elim j.delivery_event_at as (λ _. Bool) [ none ↦ Bool.true | some t ↦ ltb t p.occurred_at ]

abbrev pub reported : UpdateEmailJobDeliveryParams → Time → EmailJob → EmailJob
reported p now j =
    let is = λ (s : String). str_eq p.delivery_status s in
    record j {
      provider_message_id = value_or j.provider_message_id p.provider_message_id;
      delivery_status = p.delivery_status;
      delivery_event_at = some p.occurred_at;
      accepted_at = if is "accepted" then value_or j.accepted_at p.occurred_at else j.accepted_at;
      delivered_at = if is "delivered" then some p.occurred_at else j.delivered_at;
      bounced_at = if is "bounced" || is "suppressed" then some p.occurred_at else j.bounced_at;
      bounce_type = if is "bounced" then p.bounce_type else j.bounce_type;
      bounce_subtype = if is "bounced" then p.bounce_subtype else j.bounce_subtype;
      bounce_message = if is "bounced" then p.bounce_message else j.bounce_message;
      updated_at = now;
    }

unfoldable pub update_email_job_delivery : UpdateEmailJobDeliveryParams → Tx EmailJob
update_email_job_delivery p = update_job (takes_report p) (reported p)

abbrev pub has_webhook_id : String → EmailDeliveryEvent → Bool
has_webhook_id w e = str_eq e.webhook_id w

abbrev pub with_delivery_event : EmailDeliveryEvent → Db → Db
with_delivery_event e d = record d { email_delivery_events = d.email_delivery_events ++ e ∷ [] }

-- ON CONFLICT (webhook_id) DO NOTHING. `received_at` is the column's default, now().
unfoldable pub create_email_delivery_event : (Time → EmailDeliveryEvent) → Tx EmailDeliveryEvent
create_email_delivery_event event = query (λ d.
    if is_some (find_first (has_webhook_id (event d.clock).webhook_id) d.email_delivery_events)
    then err no_rows
    else ok (event d.clock, with_delivery_event (event d.clock) d))

unfoldable pub get_email_delivery_event : String → Tx EmailDeliveryEvent
get_email_delivery_event w =
    query (λ d. one (find_first (has_webhook_id w) d.email_delivery_events) (λ e. (e, d)))
