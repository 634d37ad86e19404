-- ===== src/Worker/Relay/Publishing.antt =====
-- The relay marks an event as published only once the task queue has it, and gives it back otherwise.

use monierave.Base.{◌≤◌, ◌≡◌, refl, List, some, true, ap, arith, update_where}
use monierave.Models.{
  Time, OutboxEvent, EmailJob, Message, plain, of_error, Error, task_not_enqueued,
}
use monierave.Models.Tables.{Db}
use monierave.Store.{Tx, Result, ok, err, World}
use monierave.Store.Rules.{
  Runs, Post, pure_rule, raise_rule, then_rule, bind_rule, random_below_rule, query_here_rule,
  Answer-one, same_start,
}
use monierave.Queries.Outbox.{
  event_by_id, has_event_id, published, released, with_events, job_by_id, get_email_job,
  mark_outbox_event_published, mark_email_job_queued, release_outbox_event,
}
use monierave.Banking.Notification.{time_now_rule}
use monierave.Worker.Relay.{
  Task, Enqueued, accepted, task_id_conflict, refused_task, took, task_of, tried,
  outbox_retry_delay, release, finish, deliver, publish_loaded, publish_event,
}

-- The event's task is in the queue, and the event is published.
pub record Published (enqueue : Task → Enqueued) (event : OutboxEvent) (d d' : Db) : Type 0 where
  pub job : EmailJob
  pub found : job_by_id event.email_job_id d.email_jobs ≡ some job
  pub queue_took : took (enqueue (task_of event job)) ≡ true
  pub events :
      d'.outbox_events ≡ update_where (has_event_id event.id) (published d.clock) d.outbox_events
  pub same_books : d'.books ≡ d.books

-- No event is published: the events are as they were, or this one waits for a later attempt.
pub data NotPublished (event : OutboxEvent) (d : Db) : Db → Type 0 where
  as_before :
      (d' : Db) → d'.outbox_events ≡ d.outbox_events → d'.books ≡ d.books → NotPublished event d d'
  waiting :
      (d' : Db) (available : Time) (reason : Message)
      → d.clock ≤ available
      → d'.outbox_events
        ≡ update_where (has_event_id event.id) (released available reason) d.outbox_events
      → d'.books ≡ d.books
      → NotPublished event d d'

module _ {A : Type 0} (E : Error → Db → Type 0) (Q : A → Db → Type 0) where
  -- Either end of a call, for the caller that looks at its error.
  abbrev pub Either : Result A → Db → Type 0
  Either (ok a) d = Q a d
  Either (err e) d = E e d

  Post-tried :
      (F : Error → Db → Type 0) (r : Result A × World) → Post E Q r → Post F Either (ok r.0, r.1)
  Post-tried F (ok a, w) h = h
  Post-tried F (err e, w) h = h

  pub tried_rule :
      {F : Error → Db → Type 0} {m : Tx A} {d : Db} → Runs E Q m d → Runs F Either (tried m) d
  unfolding tried
  tried_rule {F} {m} {d} h = record { at = λ w. Post-tried F (m (record w { db = d })) (h.at w) }

module _ (enqueue : Task → Enqueued) (event : OutboxEvent) (d : Db) where
  abbrev Kept : Error → Db → Type 0
  Kept e d' = NotPublished event d d'

  same : NotPublished event d d
  same = as_before d refl refl

  release_rule :
      (reason : Message) (e : Error)
      → Runs Kept (λ _ d'. Published enqueue event d d') (release event reason e) d
  unfolding release outbox_retry_delay release_outbox_event
  release_rule reason e = then_rule (
      time_now_rule (
        then_rule (
          then_rule (
            random_below_rule _ λ jitter. pure_rule _ (
              then_rule (
                query_here_rule _ (λ _. same)
                  (Answer-one Kept _ d (event_by_id event.id d.outbox_events) _ (λ _. same)
                    λ row found. raise_rule e (waiting _ _ reason (omega arith) refl refl))))))))

  finish_rule :
      (job : EmailJob)
      → job_by_id event.email_job_id d.email_jobs ≡ some job
      → took (enqueue (task_of event job)) ≡ true
      → Runs Kept (λ _ d'. Published enqueue event d d') (finish event) d
  unfolding finish mark_outbox_event_published mark_email_job_queued
  finish_rule job found took_it = then_rule (
      query_here_rule _ (λ _. same)
        (Answer-one Kept _ d (event_by_id event.id d.outbox_events) _ (λ _. same)
          λ row row_found.
            bind_rule
              (tried_rule (λ _ d'. Published enqueue event d d')
                (λ _ d'. Published enqueue event d d')
                (query_here_rule _ (λ _. done)
                  (Answer-one (λ _ d'. Published enqueue event d d') _ _
                    (job_by_id event.email_job_id d.email_jobs) _ (λ _. done)
                    (λ _ _. of_jobs done))))
              (λ r d' h. pure_rule tt (either r d' h))))
    where
      marked : Db
      marked =
          with_events d (update_where (has_event_id event.id) (published d.clock) d.outbox_events)

      done : Published enqueue event d marked
      done = record {
        job = job;
        found = found;
        queue_took = took_it;
        events = refl;
        same_books = refl;
      }

      of_jobs :
          {jobs : List EmailJob}
          → Published enqueue event d marked
          → Published enqueue event d (record marked { email_jobs = jobs })
      of_jobs h = record {
        job = job;
        found = found;
        queue_took = took_it;
        events = refl;
        same_books = refl;
      }

      either :
          (r : Result EmailJob) (d' : Db)
          → Either (λ _ x. Published enqueue event d x) (λ _ x. Published enqueue event d x) r d'
          → Published enqueue event d d'
      either (ok j) d' h = h
      either (err e) d' h = h

  deliver_rule :
      (job : EmailJob)
      → job_by_id event.email_job_id d.email_jobs ≡ some job
      → (answer : Enqueued) → enqueue (task_of event job) ≡ answer
      → Runs Kept (λ _ d'. Published enqueue event d d') (deliver event answer) d
  deliver_rule job found accepted e = finish_rule job found (ap took e)
  deliver_rule job found task_id_conflict e = finish_rule job found (ap took e)
  deliver_rule job found (refused_task text) e = release_rule (plain text) (task_not_enqueued text)

  loaded_rule :
      (r : Result EmailJob) (d1 : Db)
      → Either
          (λ _ x. x ≡ d)
          (λ j x. (x ≡ d) × (job_by_id event.email_job_id d.email_jobs ≡ some j))
          r
          d1
      → Runs Kept (λ _ d'. Published enqueue event d d') (publish_loaded enqueue event r) d1
  loaded_rule (err e) d1 h = same_start h (release_rule (of_error e) e)
  loaded_rule (ok job) d1 (h, found) =
      same_start h (deliver_rule job found (enqueue (task_of event job)) refl)

  -- An attempt to publish an event either succeeds, and then the queue has the task of the event and its
  -- job and the event is marked as published, or it returns an error and no event is published: the
  -- events are as they were, or this one is pending again, due now at the earliest. The books are as
  -- they were.
  pub publish_event-outcome :
      Runs
        (λ _ d'. NotPublished event d d')
        (λ _ d'. Published enqueue event d d')
        (publish_event enqueue event)
        d
  unfolding publish_event get_email_job
  publish_event-outcome =
      bind_rule
        (tried_rule (λ _ x. x ≡ d)
          (λ j x. (x ≡ d) × (job_by_id event.email_job_id d.email_jobs ≡ some j))
          (query_here_rule _ (λ _. refl)
            (Answer-one (λ _ x. x ≡ d) _ d (job_by_id event.email_job_id d.email_jobs) _ (λ _. refl)
              (λ j found. (refl, found)))))
        (λ r d1 h. loaded_rule r d1 h)
