-- ===== src/Worker/Sending/Outcome.antt =====
-- What an attempt to send an e-mail leaves of its job.
use monierave.Base.{ℕ, ◌≡◌, String, List}
use monierave.Models.{Uuid, Time, EmailJob}
use monierave.Models.Tables.{Db}
use monierave.Queries.Emails.{with_token}
use monierave.Worker.Sending.{Processor, Sent, accepted}
use monierave.Worker.Sending.Attempts.{Sendable, Running, Mailed}

module _ (processor : Processor) (u : Uuid) (d : Db) where
  module _ (j : EmailJob) (sendable : Sendable processor u d j) where
    -- The mailer's answer to the job's row `s`, and the row that is left.
    module _ {Q : Sent → Db → Type 0} (s : EmailJob) (d1 : Db)
        (running : Running processor u d j sendable s d1)
        (go : (answer : Sent) (k : EmailJob) (d2 : Db)
          → Running processor u d j sendable k d2
          → s.attempt_count ≡ k.attempt_count
          → s.max_attempts ≡ k.max_attempts
          → ((message_id : String)
              → answer ≡ accepted message_id
              → Mailed processor u d j message_id)
          → Q answer d2) where
      module _ (token : String) (hash : List ℕ) (deadline : Time) where
        abbrev Stored : EmailJob → Db → Type 0
        Stored row d2 = Running processor u d j sendable (with_token hash deadline d1.clock s) d2
