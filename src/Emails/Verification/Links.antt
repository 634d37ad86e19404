-- ===== src/Emails/Verification/Links.antt =====
-- Following the link of a verification e-mail.
use monierave.Base.{
  ◌≡◌, refl, ◌<◌, ◌⊎◌, inl, inr, Option, none, some, Bool, true, false, ◌||◌, not, str_eq, eq_iff,
  or_false, true_of_not, and_true, update_where, LetterCase, equal_fold, arith,
}
use monierave.Models.{Time, User, EmailJob}
use monierave.Models.Tables.{Db}
use monierave.Store.Rules.{Runs, AnyError, pure_rule, then_rule, on_error_rule, fail_if_rule}
use monierave.Store.Atomic.{exec_tx-atomic}
use monierave.Queries.Ledger.{is_some}
use monierave.Queries.Records.{user_by_name, create_audit_log_rule}
use monierave.Queries.Outbox.{job_by_id}
use monierave.Queries.Emails.Rules.{get_email_job_for_update_rule}
use monierave.Queries.Users.{
  has_address, verified, mark_user_email_verified, update_user_row_rule, get_user_for_update_rule,
}
use monierave.Banking.Notification.{time_now_rule}
use monierave.Sessions.{constant_time_hash_equal}
use monierave.Sessions.Hashes.{constant_time_hash_equal_iff}
use monierave.Emails.Verification.{
  VerifyUserEmailTxParams, token_expired, is_verified, mark_verified, verify_user_email,
  verify_user_email_tx,
}

module _ (lc : LetterCase) (p : VerifyUserEmailTxParams) (d : Db) where
  -- What the link proves: it carries the token of a job of the user, for the user's address of now, and
  -- in time; nothing bars the user.
  pub record Proved (job : EmailJob) (user : User) : Type 0 where
    pub job_found : job_by_id p.job_id d.email_jobs ≡ some job
    pub own_job : job.username ≡ p.username
    pub sent_there : equal_fold lc job.recipient p.email ≡ true
    pub token : job.verification_token_hash ≡ p.token_hash
    pub deadline : Time
    pub expires : job.verification_token_expires_at ≡ some deadline
    pub in_time : d.clock < deadline
    pub user_found : user_by_name p.username d.users ≡ some user
    pub current_address : equal_fold lc user.email p.email ≡ true
    pub not_disabled : str_eq user.account_status "disabled" ≡ false
    pub deliverable : str_eq user.email_deliverability_status "undeliverable" ≡ false

  -- The result is an active user with a verified address. Only rows of that name and address changed.
  pub record Confirmed (r : User) (d' : Db) : Type 0 where
    pub job : EmailJob
    pub user : User
    pub proved : Proved job user
    pub active : r.account_status ≡ "active"
    pub verified_at : is_some r.email_verified_at ≡ true
    pub users :
        (d' ≡ d)
        ⊎ (d'.users ≡ update_where (has_address lc p.username p.email) (verified d.clock) d.users)
    pub rest : d' ≡ record d {
      users = d'.users;
      audit_logs = d'.audit_logs;
      next_audit_id = d'.next_audit_id;
    }

  deadline_known :
      (o : Option Time)
      → token_expired d.clock o ≡ false
      → (t : Time) × (o ≡ some t) × (d.clock < t)
  deadline_known none h = cc
  deadline_known (some t) h = (t, refl, ground arith)

  Proved-of :
      (job : EmailJob) (user : User)
      → job_by_id p.job_id d.email_jobs ≡ some job
      → (not (str_eq job.username p.username) || not (equal_fold lc job.recipient p.email)) ≡ false
      → token_expired d.clock job.verification_token_expires_at ≡ false
      → not (constant_time_hash_equal job.verification_token_hash p.token_hash) ≡ false
      → user_by_name p.username d.users ≡ some user
      → not (equal_fold lc user.email p.email) ≡ false
      → str_eq user.account_status "disabled" ≡ false
      → str_eq user.email_deliverability_status "undeliverable" ≡ false
      → Proved job user
  Proved-of job user found mine live hash here current enabled good =
      let (own, there) = or_false _ _ mine in
      let (t, expires, in_time) = deadline_known job.verification_token_expires_at live in
      record {
        job_found = found;
        own_job = (eq_iff job.username p.username).0 (true_of_not own);
        sent_there = true_of_not there;
        token =
            (constant_time_hash_equal_iff job.verification_token_hash p.token_hash).0
              (true_of_not hash);
        deadline = t;
        expires = expires;
        in_time = in_time;
        user_found = here;
        current_address = true_of_not current;
        not_disabled = enabled;
        deliverable = good;
      }

  mark-Confirmed :
      (job : EmailJob) (user : User)
      → Proved job user
      → (b : Bool) → is_verified user ≡ b
      → Runs AnyError Confirmed (mark_verified lc p job user b) d
  unfolding mark_user_email_verified
  mark-Confirmed job user proved true e =
      let (active, at) = and_true e in
      pure_rule _ (record {
        job = job;
        user = user;
        proved = proved;
        active = (eq_iff user.account_status "active").0 active;
        verified_at = at;
        users = inl refl;
        rest = refl;
      })
  mark-Confirmed job user proved false e = then_rule (
      update_user_row_rule (λ _. tt) (has_address lc p.username p.email) verified (λ _. tt)
        λ row found. then_rule (
          create_audit_log_rule (λ _ _. tt) _
            (pure_rule _ (record {
              job = job;
              user = user;
              proved = proved;
              active = refl;
              verified_at = refl;
              users = inr refl;
              rest = refl;
            }))))

  verify_user_email-Confirmed : Runs AnyError Confirmed (verify_user_email lc p) d
  unfolding verify_user_email
  verify_user_email-Confirmed = then_rule (
      on_error_rule _ (
        get_email_job_for_update_rule (λ _. tt) _ (λ _. tt)
          λ job found. then_rule (
            fail_if_rule _ (λ _. tt)
              λ mine. then_rule (
                time_now_rule (
                  then_rule (
                    fail_if_rule _ (λ _. tt)
                      λ live. then_rule (
                        fail_if_rule _ (λ _. tt)
                          λ hash. then_rule (
                            get_user_for_update_rule (λ _. tt) _ (λ _. tt)
                              λ user here. then_rule (
                                fail_if_rule _ (λ _. tt)
                                  λ current. then_rule (
                                    fail_if_rule _ (λ _. tt)
                                      λ enabled. then_rule (
                                        fail_if_rule _ (λ _. tt)
                                          λ good.
                                            mark-Confirmed job user
                                              (Proved-of job user found mine live hash here current
                                                enabled good)
                                              (is_verified user) refl)))))))))))

  -- A verification that succeeds was proved by a link: its token is that of a job of the user, sent to
  -- the user's address of now, and not expired, and the user is neither disabled nor undeliverable. It
  -- returns an active user with a verified address, and changes at most the rows of that name and
  -- address and the audit log. One that fails leaves the whole database as it was.
  pub verify_user_email_tx-Confirmed : Runs (λ _ d'. d' ≡ d) Confirmed (verify_user_email_tx lc p) d
  unfolding verify_user_email_tx
  verify_user_email_tx-Confirmed = exec_tx-atomic _ d verify_user_email-Confirmed
