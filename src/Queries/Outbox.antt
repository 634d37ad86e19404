-- ===== src/Queries/Outbox.antt =====
-- The queries of the relay: outbox_events (db/sqlc/outbox.sql.go), and two on email_jobs
-- (db/sqlc/email_job.sql.go). SKIP LOCKED skips nothing, since transactions run one after another.
use monierave.Base.{
  ℕ, suc, String, List, Option, none, some, Bool, false, ◌&&◌, ◌||◌, not, ◌==◌, ltb, leb, str_eq,
  map, find_first, select, update_where, order_by, take, length, if◌then◌else◌,
}
use monierave.Models.{Uuid, Time, OutboxEvent, EmailJob, Message}
use monierave.Models.Tables.{Db}
use monierave.Store.{Tx, query, one, ok}
use monierave.Queries.Ledger.{is_some}

-- ClaimOutboxEventsParams
pub record ClaimOutboxEventsParams : Type 0 where
  pub claimed_by : String
  pub claimed_until : Time
  pub batch_size : ℕ

-- A lease that is NULL is never over.
abbrev pub lease_over : Time → Option Time → Bool
lease_over now none = false
lease_over now (some t) = ltb t now

-- WHERE available_at <= now() AND (status = 'pending' OR (status = 'publishing' AND claimed_until < now()))
abbrev pub is_due : Time → OutboxEvent → Bool
is_due now e =
    leb e.available_at now
    && (str_eq e.status "pending" || str_eq e.status "publishing" && lease_over now e.claimed_until)

unfoldable pub candidates : ℕ → Time → List OutboxEvent → List OutboxEvent
candidates n now rows =
    take n (order_by (λ e v. ltb e.created_at v.created_at) (select (is_due now) rows))

-- FROM candidates WHERE event.id = candidates.id
abbrev pub is_among : List OutboxEvent → OutboxEvent → Bool
is_among cs e = is_some (find_first (λ c. c.id == e.id) cs)

abbrev pub claimed : ClaimOutboxEventsParams → OutboxEvent → OutboxEvent
claimed p e = record e {
  status = "publishing";
  claimed_by = some p.claimed_by;
  claimed_until = some p.claimed_until;
  publish_attempts = suc e.publish_attempts;
}

abbrev pub with_events : Db → List OutboxEvent → Db
with_events d rows = record d { outbox_events = rows }

unfoldable pub claim_outbox_events : ClaimOutboxEventsParams → Tx (List OutboxEvent)
unfolding candidates
claim_outbox_events p = query (λ d.
    let cs = candidates p.batch_size d.clock d.outbox_events in
    ok (
      map (claimed p) (select (is_among cs) d.outbox_events),
      with_events d (update_where (is_among cs) (claimed p) d.outbox_events),
    ))

abbrev pub has_event_id : Uuid → OutboxEvent → Bool
has_event_id u e = e.id == u

abbrev pub event_by_id : Uuid → List OutboxEvent → Option OutboxEvent
event_by_id u = find_first (has_event_id u)

unfoldable pub get_outbox_event : Uuid → Tx OutboxEvent
get_outbox_event u = query (λ d. one (event_by_id u d.outbox_events) (λ e. (e, d)))

unfoldable pub get_outbox_event_by_email_job_id : Uuid → Tx OutboxEvent
get_outbox_event_by_email_job_id u =
    query (λ d. one (find_first (λ e. e.email_job_id == u) d.outbox_events) (λ e. (e, d)))

abbrev pub published : Time → OutboxEvent → OutboxEvent
published now e = record e {
  status = "published";
  published_at = some now;
  claimed_by = none;
  claimed_until = none;
  last_error = none;
}

unfoldable pub mark_outbox_event_published : Uuid → Tx OutboxEvent
mark_outbox_event_published u = query (λ d. one (event_by_id u d.outbox_events) (λ e. (
  published d.clock e,
  with_events d (update_where (has_event_id u) (published d.clock) d.outbox_events),
)))

abbrev pub released : Time → Message → OutboxEvent → OutboxEvent
released available reason e = record e {
  status = "pending";
  available_at = available;
  claimed_by = none;
  claimed_until = none;
  last_error = some reason;
}

unfoldable pub release_outbox_event : Uuid → Time → Message → Tx OutboxEvent
release_outbox_event u available reason = query (λ d. one (event_by_id u d.outbox_events) (λ e. (
  released available reason e,
  with_events d (update_where (has_event_id u) (released available reason) d.outbox_events),
)))

-- WHERE status = 'published' AND published_at < $1
abbrev pub is_expired : Time → OutboxEvent → Bool
is_expired t e = str_eq e.status "published" && lease_over t e.published_at

unfoldable pub delete_expired_published_outbox_events : Time → Tx ℕ
delete_expired_published_outbox_events t = query (λ d. ok (
  length (select (is_expired t) d.outbox_events),
  with_events d (select (λ e. not (is_expired t e)) d.outbox_events),
))

abbrev pub job_by_id : Uuid → List EmailJob → Option EmailJob
job_by_id u = find_first (λ j. j.id == u)

unfoldable pub get_email_job : Uuid → Tx EmailJob
get_email_job u = query (λ d. one (job_by_id u d.email_jobs) (λ j. (j, d)))

-- CASE WHEN status = 'pending' …
abbrev pub queued : Time → EmailJob → EmailJob
queued now j = record j {
  status = if str_eq j.status "pending" then "queued" else j.status;
  queued_at = if str_eq j.status "pending" then some now else j.queued_at;
  updated_at = now;
}

unfoldable pub mark_email_job_queued : Uuid → Tx EmailJob
mark_email_job_queued u = query (λ d. one (job_by_id u d.email_jobs) (λ j. (
  queued d.clock j,
  record d { email_jobs = update_where (λ k. k.id == u) (queued d.clock) d.email_jobs },
)))
