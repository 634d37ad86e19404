-- ===== src/Worker/Relay.antt =====
-- The relay that hands the outbox's events to the task queue: worker/outbox_relay.go. The task queue is
-- outside the repository: `enqueue` is its answer to a task. Durations are Go's nanoseconds.
pub mod Leases
pub mod Claims
pub mod Delay
pub mod Publishing
use monierave.Base.{
  ℕ, zero, suc, ◌+◌, ◌*◌, ◌/◌, ◌-◌, String, List, [], ◌∷◌, Option, none, some, Bool, true, false,
  ltb, str_eq, if◌then◌else◌,
}
use monierave.Models.{
  Uuid, Time, OutboxEvent, EmailJob, Message, plain, of_error, Error, task_not_enqueued,
}
use monierave.Store.{Tx, Result, ok, err, pure, raise, ◌>>=◌, ◌>>◌, random_below}
use monierave.Queries.Outbox.{
  ClaimOutboxEventsParams, claim_outbox_events, get_email_job, mark_outbox_event_published,
  mark_email_job_queued, release_outbox_event, delete_expired_published_outbox_events,
}
use monierave.Banking.Notification.{time_now}

-- The fields of `RelayConfig` that the modelled operations read.
pub record RelayConfig : Type 0 where
  pub instance_id : String
  pub batch_size : ℕ
  pub claim_lease : ℕ
  pub outbox_retention : ℕ

-- PayloadSendEmail, with the options of the task.
pub record Task : Type 0 where
  pub job_id : Uuid
  pub event_id : Uuid
  pub correlation_id : Uuid
  pub event_type : String
  pub queue : String
  pub max_retry : ℕ

-- What the queue answers: it took the task, it has one of that id already, or an error.
pub data Enqueued : Type 0 where
  accepted task_id_conflict : Enqueued
  refused_task : String → Enqueued

abbrev pub took : Enqueued → Bool
took accepted = true
took task_id_conflict = true
took (refused_task text) = false

abbrev pub queue_of : EmailJob → String
queue_of job = if str_eq job.job_type "verify_email" then "critical" else "default"

abbrev pub id_or : Uuid → Option Uuid → Uuid
id_or fallback none = fallback
id_or fallback (some u) = u

abbrev pub task_of : OutboxEvent → EmailJob → Task
task_of event job = record {
  job_id = event.payload.job_id;
  event_id = id_or event.id event.payload.event_id;
  correlation_id = id_or event.correlation_id event.payload.correlation_id;
  event_type = event.event_type;
  queue = queue_of job;
  max_retry = job.max_attempts - 1;
}

abbrev pub nanoseconds : ℕ
nanoseconds = 1_000_000_000

-- `math.Pow(2, exponent)`
unfoldable pub power_of_two : ℕ → ℕ
power_of_two zero = 1
power_of_two (suc n) = 2 * power_of_two n

abbrev pub smaller : ℕ → ℕ → ℕ
smaller a b = if ltb a b then a else b

unfoldable pub retry_base : ℕ → ℕ
unfolding power_of_two
retry_base attempt =
    let base = power_of_two (smaller attempt 8) * nanoseconds in
    if ltb (5 * 60 * nanoseconds) base then 5 * 60 * nanoseconds else base

-- `rand.Int63n`, which never fails; a draw that is missing stands for zero.
abbrev pub drawn_or_zero : Option ℕ → ℕ
drawn_or_zero none = 0
drawn_or_zero (some n) = n

unfoldable pub outbox_retry_delay : ℕ → Tx ℕ
unfolding retry_base
outbox_retry_delay attempt = do
  jitter ← random_below (retry_base attempt / 5 + 1)
  pure (retry_base attempt + drawn_or_zero jitter)

-- A call whose error the caller looks at.
unfoldable pub tried : {A : Type 0} → Tx A → Tx (Result A)
tried m w = let (r, w') = m w in (ok r, w')

-- Time columns have microseconds.
unfoldable pub release : OutboxEvent → Message → Error → Tx (Unit {0})
release event reason publish_err = do
  now ← time_now
  delay ← outbox_retry_delay event.publish_attempts
  release_outbox_event event.id (now + delay / 1_000) reason
  raise publish_err

unfoldable pub finish : OutboxEvent → Tx (Unit {0})
finish event = do
  mark_outbox_event_published event.id
  tried (mark_email_job_queued event.email_job_id)
  pure tt

abbrev pub deliver : OutboxEvent → Enqueued → Tx (Unit {0})
deliver event accepted = finish event
deliver event task_id_conflict = finish event
deliver event (refused_task text) = release event (plain text) (task_not_enqueued text)

abbrev pub publish_loaded : (Task → Enqueued) → OutboxEvent → Result EmailJob → Tx (Unit {0})
publish_loaded enqueue event (err e) = release event (of_error e) e
publish_loaded enqueue event (ok job) = deliver event (enqueue (task_of event job))

unfoldable pub publish_event : (Task → Enqueued) → OutboxEvent → Tx (Unit {0})
publish_event enqueue event = do
  loaded ← tried (get_email_job event.email_job_id)
  publish_loaded enqueue event loaded

-- The errors of single events are logged.
unfoldable pub publish_each : (Task → Enqueued) → List OutboxEvent → Tx (Unit {0})
publish_each enqueue [] = pure tt
publish_each enqueue (event ∷ events) = do
  tried (publish_event enqueue event)
  publish_each enqueue events

unfoldable pub publish_batch : RelayConfig → (Task → Enqueued) → Tx (Unit {0})
publish_batch config enqueue = do
  now ← time_now
  events ← claim_outbox_events (record {
    claimed_by = config.instance_id;
    claimed_until = now + config.claim_lease / 1_000;
    batch_size = config.batch_size;
  })
  publish_each enqueue events
