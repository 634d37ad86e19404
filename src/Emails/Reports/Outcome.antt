-- ===== src/Emails/Reports/Outcome.antt =====
-- What a report of the provider leaves.
use monierave.Base.{
  ◌≡◌, refl, String, List, [], ◌∷◌, ◌++◌, Option, none, some, Bool, true, false, Bool-cases, inl,
  inr, find_first, update_where, LetterCase,
}
use monierave.Models.{Uuid, EmailJob, User}
use monierave.Models.Tables.{Db}
use monierave.Store.Rules.{Runs, AnyError, pure_rule, then_rule}
use monierave.Store.Rows.{row_rule, not_missing}
use monierave.Store.Atomic.{exec_tx-atomic}
use monierave.Queries.Ledger.{is_some}
use monierave.Queries.Records.{create_audit_log_rule}
use monierave.Queries.Outbox.{job_by_id}
use monierave.Queries.Emails.{
  has_message_id, has_webhook_id, takes_report, reported, with_delivery_event, with_jobs,
  update_email_job_delivery,
}
use monierave.Queries.Emails.Rules.{
  update_job_rule, get_email_job_for_update_rule, get_by_message_rule,
  create_email_delivery_event_rule,
}
use monierave.Queries.Users.{
  DeliverabilityParams, takes_deliverability, with_deliverability, with_users, update_user_row_rule,
  update_current_user_email_deliverability,
}
use monierave.Emails.Reports.{
  ProcessEmailDeliveryEventParams, ProcessEmailDeliveryEventResult, ReportedJob, matched, unmatched,
  has_other_message, job_of_id, find_by_id, find_email_job_for_delivery_event,
  update_user_deliverability, user_deliverability_for_event, delivery_params, delivery_event,
  is_applicable, apply_if, apply_report, process_email_delivery_event,
  process_email_delivery_event_tx, bounce_timestamp,
}

module _ (lc : LetterCase) (p : ProcessEmailDeliveryEventParams) (d : Db) where
  -- The job that the report is about: the one that the message belongs to, or the one that the report
  -- names, if no other message belongs to it.
  pub data Addressed (job : EmailJob) : Type 0 where
    by_message :
        find_first (has_message_id p.provider_message_id) d.email_jobs ≡ some job → Addressed job
    by_id :
        (u : Uuid)
        → p.job_id ≡ some u
        → job_by_id u d.email_jobs ≡ some job
        → has_other_message p.provider_message_id job ≡ false
        → Addressed job

  -- No job is the report's: its message belongs to none, and it names none, or one that is missing, or
  -- one that another message belongs to.
  pub data Unaddressed : Option Uuid → Type 0 where
    unnamed :
        find_first (has_message_id p.provider_message_id) d.email_jobs ≡ none
        → p.job_id ≡ none
        → Unaddressed none
    missing :
        (u : Uuid)
        → find_first (has_message_id p.provider_message_id) d.email_jobs ≡ none
        → p.job_id ≡ some u
        → job_by_id u d.email_jobs ≡ none
        → Unaddressed (some u)
    of_other_message :
        (u : Uuid) (job : EmailJob)
        → find_first (has_message_id p.provider_message_id) d.email_jobs ≡ none
        → p.job_id ≡ some u
        → job_by_id u d.email_jobs ≡ some job
        → has_other_message p.provider_message_id job ≡ true
        → Unaddressed (some u)

  abbrev pub Found : ReportedJob → Type 0
  Found (matched job) = Addressed job
  Found (unmatched u) = Unaddressed u

  -- Why a report that is recorded changes no job.
  pub data Ineffective : ReportedJob → Type 0 where
    unaddressed : (u : Option Uuid) → Unaddressed u → Ineffective (unmatched u)
    inapplicable :
        (job : EmailJob) → Addressed job → is_applicable p job ≡ false → Ineffective (matched job)
    not_taken :
        (job : EmailJob)
        → Addressed job
        → find_first (takes_report (delivery_params p job)) d.email_jobs ≡ none
        → Ineffective (matched job)

  abbrev user_params : EmailJob → String → DeliverabilityParams
  user_params job status = record {
    deliverability_status = status;
    occurred_at = p.occurred_at;
    bounced_at = bounce_timestamp lc p;
    username = job.username;
    recipient = job.recipient;
  }

  -- The users are as they were, since the report says nothing of a user or no user takes it, or the one
  -- whose address it is has a new deliverability. The flag is the answer that the call gives.
  pub data UserTold (job : EmailJob) : Bool → List User → Type 0 where
    nothing_to_tell : user_deliverability_for_event lc p ≡ none → UserTold job false d.users
    nobody :
        (status : String)
        → user_deliverability_for_event lc p ≡ some status
        → find_first (takes_deliverability lc (user_params job status)) d.users ≡ none
        → UserTold job false d.users
    told :
        (status : String)
        → user_deliverability_for_event lc p ≡ some status
        → UserTold job true (
            update_where
              (takes_deliverability lc (user_params job status))
              (with_deliverability (user_params job status) d.clock)
              d.users)

  abbrev pub known : Bool
  known = is_some (find_first (has_webhook_id p.webhook_id) d.email_delivery_events)

  -- A report that was there already changes nothing. A new one is recorded, and changes the state of
  -- the job that it is about, by a step that is allowed, and no other job.
  pub data Processed : ProcessEmailDeliveryEventResult → Db → Type 0 where
    seen_before :
        (r : ProcessEmailDeliveryEventResult) → known ≡ true → r.duplicate ≡ true → Processed r d
    noted :
        (r : ProcessEmailDeliveryEventResult) (job : ReportedJob)
        → known ≡ false
        → Ineffective job
        → (r.duplicate ≡ false) × (r.state_updated ≡ false)
        → Processed r (with_delivery_event (delivery_event p job d.clock) d)
    applied :
        (r : ProcessEmailDeliveryEventResult) (d' : Db) (job row : EmailJob)
        → known ≡ false
        → Addressed job
        → is_applicable p job ≡ true
        → find_first (takes_report (delivery_params p job)) d.email_jobs ≡ some row
        → (r.duplicate ≡ false)
          × (r.state_updated ≡ true)
          × (r.email_job ≡ matched (reported (delivery_params p job) d.clock row))
        → d'.email_jobs
          ≡ update_where
              (takes_report (delivery_params p job))
              (reported (delivery_params p job) d.clock)
              d.email_jobs
        → d'.email_delivery_events
          ≡ d.email_delivery_events ++ delivery_event p (matched job) d.clock ∷ []
        → UserTold job r.user_state_updated d'.users
        → d'.books ≡ d.books
        → Processed r d'

  module _
      (no_message : find_first (has_message_id p.provider_message_id) d.email_jobs ≡ none) where
    job_of_id-Found :
        (u : Uuid) (o : Option EmailJob)
        → p.job_id ≡ some u
        → job_by_id u d.email_jobs ≡ o
        → Found (job_of_id p u o)
    job_of_id-Found u none e h = missing u no_message e h
    job_of_id-Found u (some job) e h =
        elim (Bool-cases (has_other_message p.provider_message_id job)) [
          | inl other ↦ rw other (of_other_message u job no_message e h other)
          | inr own ↦ rw own (by_id u e h own)
        ]

    find_by_id-Found :
        {Q : ReportedJob → Db → Type 0} (k : (job : ReportedJob) → Found job → Q job d)
        (o : Option Uuid)
        → p.job_id ≡ o
        → Runs AnyError Q (find_by_id p o) d
    find_by_id-Found k none e = pure_rule _ (k _ (unnamed no_message e))
    find_by_id-Found k (some u) e = then_rule (
        row_rule (
          get_email_job_for_update_rule (λ g. not_missing g) u
            (λ h _. pure_rule _ (k _ (job_of_id-Found u none e h)))
            (λ j h. pure_rule _ (k _ (job_of_id-Found u (some j) e h)))))

  find-Found :
      {Q : ReportedJob → Db → Type 0}
      → ((job : ReportedJob) → Found job → Q job d)
      → Runs AnyError Q (find_email_job_for_delivery_event p) d
  unfolding find_email_job_for_delivery_event
  find-Found k = then_rule (
      row_rule (
        get_by_message_rule (λ g. not_missing g) p.provider_message_id
          (λ h _. find_by_id-Found h k p.job_id refl) (λ j h. pure_rule _ (k _ (by_message h)))))

  -- The database once the report is recorded.
  abbrev noted_db : ReportedJob → Db
  noted_db job = with_delivery_event (delivery_event p job d.clock) d

  module _ (job : EmailJob) (rows : List EmailJob) where
    abbrev moved_db : Db
    moved_db = with_jobs (noted_db (matched job)) rows

    told-UserTold :
        {Q : Option User → Db → Type 0} (o : Option String)
        → user_deliverability_for_event lc p ≡ o
        → ((user : Option User) (users : List User)
            → UserTold job (is_some user) users
            → Q user (with_users moved_db users))
        → Runs AnyError Q (update_user_deliverability lc p job o) moved_db
    unfolding update_current_user_email_deliverability
    told-UserTold none e k = pure_rule _ (k none d.users (nothing_to_tell e))
    told-UserTold {Q} (some status) e k = row_rule (
        update_user_row_rule (λ g. not_missing g) (takes_deliverability lc (user_params job status))
          (with_deliverability (user_params job status)) (λ h _. k none d.users (nobody status e h))
          (λ user h. k (some _) _ (told status e)))

  module _ (job : EmailJob) (about : Addressed job) (fresh : known ≡ false) where
    apply-Processed :
        (b : Bool)
        → is_applicable p job ≡ b
        → Runs AnyError Processed
            (apply_if lc p (delivery_event p (matched job) d.clock) job b)
            (noted_db (matched job))
    unfolding update_email_job_delivery
    apply-Processed false e =
        pure_rule _ (noted _ (matched job) fresh (inapplicable job about e) (refl, refl))
    apply-Processed true e =
        (then_rule (
          row_rule (
            update_job_rule (λ g. not_missing g) (takes_report (delivery_params p job))
              (reported (delivery_params p job))
              (λ h _.
                pure_rule _ (noted _ (matched job) fresh (not_taken job about h) (refl, refl)))
              (λ row found. then_rule (
                told-UserTold job _ (user_deliverability_for_event lc p) refl (λ user users h.
                  then_rule (
                    create_audit_log_rule (λ _ _. tt) _
                      (pure_rule _ (
                        applied _ _ job row fresh about e found (refl, refl, refl) refl refl h
                          refl)))))))))

  recorded-Processed :
      (job : ReportedJob)
      → Found job
      → known ≡ false
      → Runs AnyError Processed
          (apply_report lc p (delivery_event p job d.clock) job)
          (noted_db job)
  recorded-Processed (matched job) about fresh =
      apply-Processed job about fresh (is_applicable p job) refl
  recorded-Processed (unmatched u) about fresh =
      pure_rule _ (noted _ (unmatched u) fresh (unaddressed u about) (refl, refl))

  process-Processed : Runs AnyError Processed (process_email_delivery_event lc p) d
  unfolding process_email_delivery_event
  process-Processed = then_rule (
      find-Found (λ job about. then_rule (
        row_rule (
          create_email_delivery_event_rule (λ g. not_missing g) (delivery_event p job)
            (λ seen _. pure_rule _ (seen_before _ seen refl))
            (λ fresh. recorded-Processed job about fresh)))))

  -- A report is counted once: one that was there already changes nothing. A new one is recorded, and
  -- changes nothing else only if no job is the report's, or what it tells is no step that is allowed and
  -- later than the job's last one, or no row of the job takes the report. Otherwise it changes the state
  -- of the job that its message belongs to, or that it names, and the deliverability of the user if it
  -- says something of it and a user takes it, and it changes no other job and not the books. A call that
  -- fails leaves the whole database as it was.
  pub process_email_delivery_event_tx-Processed :
      Runs (λ _ d'. d' ≡ d) Processed (process_email_delivery_event_tx lc p) d
  unfolding process_email_delivery_event_tx
  process_email_delivery_event_tx-Processed = exec_tx-atomic _ d process-Processed
