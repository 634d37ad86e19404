-- ===== src/Tests/Relaying.antt =====
-- Two relays, an event and a task queue that takes every task.
use monierave.Base.{
  ℕ, ◌*◌, ◌≤◌, ◌≡◌, refl, ◌≢◌, [], ◌∷◌, none, some, true, false, Bool, List, Every, arith, str_eq,
  pos, find_first, select, update_where, order_by, take, insert_row,
}
use monierave.Models.{OutboxEvent, EmailJob, notification}
use monierave.Models.Tables.{Db}
use monierave.Store.{World, Result, ok, query, pure, raise, ◌>>=◌, random_below}
use monierave.Store.Rules.{Runs, AnyError}
use monierave.Queries.Outbox.{
  ClaimOutboxEventsParams, claimed, has_event_id, claim_outbox_events, candidates, get_email_job,
  mark_outbox_event_published, mark_email_job_queued, release_outbox_event,
}
use monierave.Banking.Notification.{time_now}
use monierave.Worker.Relay.{
  RelayConfig, Task, Enqueued, accepted, refused_task, outbox_retry_delay, power_of_two, smaller,
  nanoseconds, retry_base, tried, release, finish, publish_event, publish_each, publish_batch,
}
use monierave.Store.After.{after}
use monierave.Worker.Relay.Leases.{none_yet, one_more, claim, elsewhere}
use monierave.Worker.Relay.Claims.{claim_outbox_events-exclusive}
use monierave.Worker.Relay.Publishing.{Published, NotPublished, publish_event-outcome}
use monierave.Worker.Relay.Delay.{outbox_retry_delay-bounds}
use monierave.Tests.Data.{sample_db}
use monierave.Tests.Scenario.{quiet_world}

abbrev event : OutboxEvent
event = record {
  id = 8_001;
  email_job_id = 8_101;
  event_type = "transaction.posted";
  payload = record { job_id = 8_101; event_id = some 8_001; correlation_id = some 900 };
  status = "pending";
  publish_attempts = 0;
  available_at = 0;
  claimed_by = none;
  claimed_until = none;
  last_error = none;
  created_at = 0;
  published_at = none;
  correlation_id = 900;
  entity_type = "banking_transaction";
  entity_id = 500;
}

abbrev pub job : EmailJob
job = record {
  id = 8_101;
  parent_job_id = none;
  job_type = "financial_notification";
  username = "alice";
  recipient = "alice@example.com";
  payload = notification (record {
    event_id = 8_001;
    correlation_id = 900;
    event_type = "transaction.posted";
    reference = "TXN-1";
    amount = pos 5;
    currency = "USD";
    direction = "incoming";
    occurred_at = 0;
    account_status = "";
    reason = "";
  });
  status = "pending";
  attempt_count = 0;
  max_attempts = 5;
  provider_message_id = none;
  last_error = none;
  created_at = 0;
  updated_at = 0;
  queued_at = none;
  processing_at = none;
  last_attempt_at = none;
  sent_at = none;
  dead_lettered_at = none;
  delivery_status = "pending";
  delivery_event_at = none;
  accepted_at = none;
  delivered_at = none;
  bounced_at = none;
  bounce_type = none;
  bounce_subtype = none;
  bounce_message = none;
  verification_token_hash = [];
  verification_token_expires_at = none;
}

abbrev outbox_db : Db
outbox_db = record sample_db { outbox_events = event ∷ []; email_jobs = job ∷ [] }

abbrev first_relay : ClaimOutboxEventsParams
first_relay = record { claimed_by = "one"; claimed_until = 30_001_000; batch_size = 50 }

abbrev second_relay : ClaimOutboxEventsParams
second_relay = record first_relay { claimed_by = "two" }

abbrev takes_all : Task → Enqueued
takes_all t = accepted

abbrev takes_none : Task → Enqueued
takes_none t = refused_task "no connection"

abbrev outbox_world : World
outbox_world = record quiet_world { db = outbox_db }

abbrev claimed_world : World
claimed_world = (claim_outbox_events first_relay outbox_world).1

first_claim :
    claim_outbox_events first_relay outbox_world
    ≡ (ok (claimed first_relay event ∷ []), claimed_world)
unfolding find_first select update_where order_by insert_row take query candidates
    claim_outbox_events
first_claim = refl

abbrev later_db : Db
later_db = record claimed_world.db { clock = 2_000_000 }

claimed_event :
    find_first (has_event_id 8_001) (claimed first_relay event ∷ [])
    ≡ some (claimed first_relay event)
unfolding find_first
claimed_event = refl

-- Another relay asks two seconds later, after a claim of its own that came too early.
claim_outbox_events-exclusive_example :
    Runs AnyError
      (λ second _. Every (λ f. f.id ≢ 8_001) second)
      (claim_outbox_events second_relay)
      (after (claim_outbox_events second_relay) quiet_world later_db)
unfolding query claim_outbox_events
claim_outbox_events-exclusive_example =
    claim_outbox_events-exclusive first_relay second_relay outbox_world claimed_world
      (claimed first_relay event ∷ []) 8_001 (claimed first_relay event)
      (after (claim_outbox_events second_relay) quiet_world later_db) first_claim claimed_event
      (one_more later_db _ (one_more claimed_world.db _ none_yet (elsewhere later_db refl))
        (claim second_relay quiet_world))
      ((tt, tt), (omega arith)) (omega arith)

publish_event-outcome_example :
    Runs
      (λ _ d'. NotPublished event outbox_db d')
      (λ _ d'. Published takes_all event outbox_db d')
      (publish_event takes_all event)
      outbox_db
publish_event-outcome_example = publish_event-outcome takes_all event outbox_db

outbox_retry_delay-bounds_example :
    Runs AnyError
      (λ delay d'.
        (power_of_two (smaller 3 8) * nanoseconds ≤ delay)
        × (5 * delay ≤ 6 * power_of_two (smaller 3 8) * nanoseconds)
        × (nanoseconds ≤ delay)
        × (delay ≤ 307_200_000_000)
        × (d' ≡ outbox_db))
      (outbox_retry_delay 3)
      outbox_db
outbox_retry_delay-bounds_example = outbox_retry_delay-bounds 3 outbox_db

abbrev relay : RelayConfig
relay = record {
  instance_id = "one";
  batch_size = 50;
  claim_lease = 30_000_000_000;
  outbox_retention = 0;
}

abbrev statuses : {A : Type 0} → Result A × World → List (ℕ × Bool)
statuses (r, w) = shown w.db.outbox_events
  where
    shown : List OutboxEvent → List (ℕ × Bool)
    shown [] = []
    shown (e ∷ es) = (e.publish_attempts, str_eq e.status "published") ∷ shown es

-- A batch publishes the event; with a queue that refuses, it waits after one attempt.
relay_runs :
    (statuses (publish_batch relay takes_all (record quiet_world { db = outbox_db }))
      ≡ (1, true) ∷ [])
    × (statuses (publish_batch relay takes_none (record quiet_world { db = outbox_db }))
        ≡ (1, false) ∷ [])
unfolding find_first select update_where order_by insert_row take query pure raise ◌>>=◌
    random_below time_now candidates claim_outbox_events get_email_job mark_outbox_event_published
    mark_email_job_queued release_outbox_event power_of_two retry_base outbox_retry_delay tried
    release finish publish_event publish_each publish_batch
relay_runs = (refl, refl)
