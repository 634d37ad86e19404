-- ===== src/Worker/Sending/Attempts.antt =====
-- An attempt to send an e-mail: how far it came, and what a change of the job's row leaves.
use monierave.Base.{
  suc, ◌<◌, ◌≤◌, ◌⊎◌, inl, inr, ◌≡◌, ◌≢◌, refl, ◌∙◌, String, some, Bool, true, false, ◌==◌, str_eq,
  and_true, find_first, update_where, arith,
}
use monierave.Models.{Uuid, EmailJob}
use monierave.Models.Tables.{Db}
use monierave.Store.{Tx}
use monierave.Store.Rules.{Runs, pure_rule, raise_rule, then_rule}
use monierave.Queries.Outbox.{job_by_id}
use monierave.Queries.Emails.{
  with_jobs, has_job_id, mailed, is_unsent, retrying, dead_lettered, mark_email_job_sent,
  mark_email_job_retrying, mark_email_job_dead_letter,
}
use monierave.Queries.Emails.Rules.{update_job_rule}
use monierave.Queries.Emails.Unique.{UniqueJobs, update-JobUpdated}
use monierave.Worker.Sending.{
  Processor, Mail, verification_email, financial_notification, Sent, accepted, failed, gives_up,
  sending_failed, finish_attempt,
}

-- The job that a message is made for.
abbrev pub job_of : Mail → EmailJob
job_of (verification_email job link) = job
job_of (financial_notification job) = job

module _ (processor : Processor) (u : Uuid) (d : Db) where
  -- What an attempt has made of the job so far: one more attempt is counted, the job is sent where it
  -- was to be sent, and no other job and no account is touched.
  pub record Attempted (j k : EmailJob) (d' : Db) : Type 0 where
    pub row : job_by_id u d'.email_jobs ≡ some k
    pub counted : k.attempt_count ≡ suc j.attempt_count
    pub same_limit : k.max_attempts ≡ j.max_attempts
    pub same_recipient : k.recipient ≡ j.recipient
    pub unique : UniqueJobs d'.email_jobs
    pub others : (v : Uuid) → v ≢ u → job_by_id v d'.email_jobs ≡ job_by_id v d.email_jobs
    pub same_books : d'.books ≡ d.books

  -- The mailer took a message for the job.
  pub record Mailed (j : EmailJob) (message_id : String) : Type 0 where
    pub mail : Mail
    pub answer : processor.mailer mail ≡ accepted message_id
    pub recipient : (job_of mail).recipient ≡ j.recipient

  pub record Sendable (j : EmailJob) : Type 0 where
    pub found : job_by_id u d.email_jobs ≡ some j
    pub unsent : str_eq j.status "sent" ≡ false
    pub alive : str_eq j.status "dead_letter" ≡ false

  pub data Done (d' : Db) : Type 0 where
    already_sent :
        (j : EmailJob) → job_by_id u d.email_jobs ≡ some j → j.status ≡ "sent" → d' ≡ d → Done d'
    sent_now :
        (j k : EmailJob) (message_id : String)
        → Sendable j
        → Attempted j k d'
        → Mailed j message_id
        → (k.status ≡ "sent") × (k.provider_message_id ≡ some message_id)
        → Done d'

  -- How far an attempt that failed came.
  pub data Stage (j k : EmailJob) : Type 0 where
    unfinished : k.status ≡ "processing" → Stage j k
    to_retry : k.status ≡ "retrying" → k.attempt_count < k.max_attempts → Stage j k
    given_up :
        (permanent : Bool)
        → k.status ≡ "dead_letter"
        → (permanent ≡ true) ⊎ (k.max_attempts ≤ k.attempt_count)
        → Stage j k

  pub data Failed (d' : Db) : Type 0 where
    untouched : d' ≡ d → Failed d'
    attempted : (j k : EmailJob) → Sendable j → Attempted j k d' → Stage j k → Failed d'

  abbrev pub Ends : Tx (Unit {0}) → Db → Type 0
  Ends m d1 = Runs (λ _ d'. Failed d') (λ _ d'. Done d') m d1

  module _ (j : EmailJob) (sendable : Sendable j) where
    -- While the attempt runs.
    abbrev pub Running : EmailJob → Db → Type 0
    Running k d' = Attempted j k d' × (k.status ≡ "processing")

    pub stopped : (k : EmailJob) (d' : Db) → Running k d' → Failed d'
    stopped k d' (a, s) = attempted j k sendable a (unfinished s)

    -- An update of the job's row, by the state before it.
    pub Attempted-update :
        (k m : EmailJob) (d1 : Db) (p : EmailJob → Bool) (f : EmailJob → EmailJob)
        → ((x : EmailJob) → p x ≡ true → (x.id == u) ≡ true)
        → ((x : EmailJob) → (f x).id ≡ x.id)
        → (f k).attempt_count ≡ k.attempt_count
        → (f k).max_attempts ≡ k.max_attempts
        → (f k).recipient ≡ k.recipient
        → find_first p d1.email_jobs ≡ some m
        → Attempted j k d1
        → Attempted j (f k) (with_jobs d1 (update_where p f d1.email_jobs))
    Attempted-update k m d1 p f narrow keeps c l t found a =
        let up = update-JobUpdated u p f narrow keeps d1.email_jobs a.unique k m a.row found in
        record {
          row = up.row;
          counted = c ∙ a.counted;
          same_limit = l ∙ a.same_limit;
          same_recipient = t ∙ a.same_recipient;
          unique = up.unique;
          others = λ v other. up.others v other ∙ a.others v other;
          same_books = a.same_books;
        }

    by_id : (x : EmailJob) → has_job_id u x ≡ true → (x.id == u) ≡ true
    by_id x h = h

    by_unsent : (x : EmailJob) → is_unsent u x ≡ true → (x.id == u) ≡ true
    by_unsent x h = (and_true h).0

    reason_of :
        (s : EmailJob) (k : EmailJob) (permanent : Bool)
        → s.attempt_count ≡ k.attempt_count
        → s.max_attempts ≡ k.max_attempts
        → gives_up s permanent ≡ true
        → (permanent ≡ true) ⊎ (k.max_attempts ≤ k.attempt_count)
    reason_of s k true c l h = inl refl
    reason_of s k false c l h = inr (ground (arith, c, l, h))

    -- The end of an attempt, once the mailer has answered.
    module _ (s k : EmailJob) (d1 : Db) (running : Running k d1)
        (same_count : s.attempt_count ≡ k.attempt_count)
        (same_max : s.max_attempts ≡ k.max_attempts) where
      failed-Ends :
          (permanent b : Bool) → gives_up s permanent ≡ b → Ends (sending_failed u permanent b) d1
      unfolding mark_email_job_dead_letter mark_email_job_retrying
      failed-Ends permanent true e = then_rule (
          update_job_rule (λ _. stopped k d1 running) (is_unsent u) (dead_lettered _)
            (λ _. stopped k d1 running)
            (λ m found. raise_rule _ (
              attempted j _ sendable
                (Attempted-update k m d1 (is_unsent u) (dead_lettered _ d1.clock) by_unsent
                  (λ x. refl) refl refl refl found running.0)
                (given_up permanent refl (reason_of s k permanent same_count same_max e)))))
      failed-Ends permanent false e = then_rule (
          update_job_rule (λ _. stopped k d1 running) (is_unsent u) (retrying _)
            (λ _. stopped k d1 running)
            (λ m found. raise_rule _ (
              attempted j _ sendable
                (Attempted-update k m d1 (is_unsent u) (retrying _ d1.clock) by_unsent (λ x. refl)
                  refl refl refl found running.0)
                (to_retry refl (below permanent e)))))
        where
          below : (q : Bool) → gives_up s q ≡ false → k.attempt_count < k.max_attempts
          below true h = cc
          below false h = ground (arith, same_count, same_max, h)

      pub answered-Ends :
          (answer : Sent)
          → ((message_id : String) → answer ≡ accepted message_id → Mailed j message_id)
          → Ends (finish_attempt u s answer) d1
      unfolding mark_email_job_sent
      answered-Ends (failed permanent) mail = failed-Ends permanent (gives_up s permanent) refl
      answered-Ends (accepted message_id) mail = then_rule (
          update_job_rule (λ _. stopped k d1 running) (has_job_id u) (mailed message_id)
            (λ _. stopped k d1 running)
            (λ m found. pure_rule _ (
              sent_now j _ message_id sendable
                (Attempted-update k m d1 (has_job_id u) (mailed message_id d1.clock) by_id
                  (λ x. refl) refl refl refl found running.0)
                (mail message_id refl) (refl, refl))))
