-- ===== src/Queries/Emails/Rules.antt =====
-- A rule for each shape of query on the e-mail jobs.
use monierave.Base.{◌≡◌, String, none, some, Bool, true, false, find_first, update_where}
use monierave.Models.{Uuid, Time, EmailJob, EmailDeliveryEvent, Error, no_rows, Fault, db_fault}
use monierave.Models.Tables.{Db}
use monierave.Store.Rules.{Runs, query_here_rule, Answer-one}
use monierave.Store.Rows.{Answer-unless}
use monierave.Queries.Ledger.{is_some}
use monierave.Queries.Outbox.{job_by_id, get_email_job}
use monierave.Queries.Emails.{
  with_jobs, update_job, get_email_job_for_update, has_message_id, has_webhook_id,
  get_email_job_by_provider_message_id_for_update, with_delivery_event, create_email_delivery_event,
}

module _ {E : Error → Db → Type 0} {d : Db} (fault : (f : Fault) → E (db_fault f) d) where
  pub update_job_rule :
      {Q : EmailJob → Db → Type 0} (p : EmailJob → Bool) (f : Time → EmailJob → EmailJob)
      → (find_first p d.email_jobs ≡ none → E no_rows d)
      → ((j : EmailJob)
          → find_first p d.email_jobs ≡ some j
          → Q (f d.clock j) (with_jobs d (update_where p (f d.clock) d.email_jobs)))
      → Runs E Q (update_job p f) d
  update_job_rule {Q} p f missing found =
      query_here_rule _ fault (Answer-one E Q d (find_first p d.email_jobs) _ missing found)

  pub get_email_job_for_update_rule :
      {Q : EmailJob → Db → Type 0} (u : Uuid)
      → (job_by_id u d.email_jobs ≡ none → E no_rows d)
      → ((j : EmailJob) → job_by_id u d.email_jobs ≡ some j → Q j d)
      → Runs E Q (get_email_job_for_update u) d
  unfolding get_email_job_for_update
  get_email_job_for_update_rule {Q} u missing found =
      query_here_rule _ fault (Answer-one E Q d (job_by_id u d.email_jobs) _ missing found)

  pub get_email_job_rule :
      {Q : EmailJob → Db → Type 0} (u : Uuid)
      → (job_by_id u d.email_jobs ≡ none → E no_rows d)
      → ((j : EmailJob) → job_by_id u d.email_jobs ≡ some j → Q j d)
      → Runs E Q (get_email_job u) d
  unfolding get_email_job
  get_email_job_rule {Q} u missing found =
      query_here_rule _ fault (Answer-one E Q d (job_by_id u d.email_jobs) _ missing found)

  pub get_by_message_rule :
      {Q : EmailJob → Db → Type 0} (m : String)
      → (find_first (has_message_id m) d.email_jobs ≡ none → E no_rows d)
      → ((j : EmailJob) → find_first (has_message_id m) d.email_jobs ≡ some j → Q j d)
      → Runs E Q (get_email_job_by_provider_message_id_for_update m) d
  unfolding get_email_job_by_provider_message_id_for_update
  get_by_message_rule {Q} m missing found =
      query_here_rule _ fault
        (Answer-one E Q d (find_first (has_message_id m) d.email_jobs) _ missing found)

  pub create_email_delivery_event_rule :
      {Q : EmailDeliveryEvent → Db → Type 0} (event : Time → EmailDeliveryEvent)
      → (is_some (find_first (has_webhook_id (event d.clock).webhook_id) d.email_delivery_events)
            ≡ true
          → E no_rows d)
      → (is_some (find_first (has_webhook_id (event d.clock).webhook_id) d.email_delivery_events)
            ≡ false
          → Q (event d.clock) (with_delivery_event (event d.clock) d))
      → Runs E Q (create_email_delivery_event event) d
  unfolding create_email_delivery_event
  create_email_delivery_event_rule {Q} event known fresh =
      query_here_rule _ fault (Answer-unless E Q d _ _ known fresh)
