-- ===== src/Emails/Verification/Requests.antt =====
-- Asking for another verification e-mail.
use monierave.Base.{
  ℕ, ◌+◌, ◌-◌, ◌≤◌, ◌≡◌, refl, String, List, [], ◌∷◌, Option, none, some, false, ◌&&◌, str_eq,
  select, order_by, update_where, Every, Every-order_by, subst, sym, ◌∙◌, some_eq, Every-weaken,
  greatest-Every, LetterCase, arith, ltb,
}
use monierave.Models.{User, EmailJob, Uuid, no_rows}
use monierave.Models.Tables.{Db}
use monierave.Store.{Result, ok, err, row_or_none}
use monierave.Store.Rules.{Runs, AnyError, Answer, query_here_rule, then_rule, fail_if_rule}
use monierave.Store.Rows.{row_rule, not_missing}
use monierave.Store.Atomic.{exec_tx-atomic}
use monierave.Queries.Ledger.{is_some}
use monierave.Queries.Records.{user_by_name}
use monierave.Queries.Emails.{to_current_address, get_latest_email_job_for_current_address}
use monierave.Queries.Users.{
  has_name, restarted, with_users, restart_user_email_verification, update_user_row_rule,
  get_user_for_update_rule,
}
use monierave.Banking.Notification.{time_now_rule}
use monierave.Emails.Verification.{
  VerificationMailResult, send_verification, asked_lately, email_verification_request_cooldown,
  request_email_verification, request_email_verification_tx,
}
use monierave.Emails.Verification.Mail.{
  verification_mail, with_verification_mail, send_verification_rule,
}

module _ (lc : LetterCase) (name : String) (d : Db) where
  -- The jobs of the user's address of now.
  abbrev pub current_jobs : List EmailJob
  current_jobs = select (to_current_address lc d.users name) d.email_jobs

  -- A minute old, at least.
  abbrev pub Old : EmailJob → Type 0
  Old j = j.created_at + email_verification_request_cooldown ≤ d.clock

  -- What a request that goes through saw and left.
  pub record Requested (r : VerificationMailResult) (d' : Db) : Type 0 where
    pub user : User
    pub found : user_by_name name d.users ≡ some user
    pub unverified : (is_some user.email_verified_at && str_eq user.account_status "active") ≡ false
    pub deliverable : str_eq user.email_deliverability_status "undeliverable" ≡ false
    pub waited : Every Old current_jobs
    pub job : Uuid
    pub event : Uuid
    pub result :
        r
        ≡ verification_mail
            (restarted d.clock user)
            (with_users d (update_where (has_name name) (restarted d.clock) d.users))
            job
            event
    pub stored :
        d'
        ≡ with_verification_mail
            (restarted d.clock user)
            (with_users d (update_where (has_name name) (restarted d.clock) d.users))
            job
            event

  abbrev newest_first : List EmailJob
  newest_first = order_by (λ i j. ltb j.created_at i.created_at) current_jobs

  -- The answer of the query for the latest job, from the jobs in their order.
  abbrev latest : List EmailJob → Option EmailJob
  latest [] = none
  latest (j ∷ js) = some j

  waited_lem :
      (js : List EmailJob)
      → newest_first ≡ js
      → asked_lately d.clock (latest js) ≡ false
      → Every Old current_jobs
  waited_lem [] e h =
      (Every-order_by (λ i j. ltb j.created_at i.created_at) Old current_jobs).0
        (subst (Every Old) (sym e) tt)
  waited_lem (j ∷ js) e h =
      Every-weaken current_jobs (λ y k. later y.created_at k)
        (greatest-Every (λ (i : EmailJob). i.created_at) current_jobs js j
          (d.clock - email_verification_request_cooldown) e (ground (arith, h)))
    where
      later :
          (t : ℕ)
          → t ≤ d.clock - email_verification_request_cooldown
          → t + email_verification_request_cooldown ≤ d.clock
      later t k = ground (arith, h, k)

  module _ (Q : Option EmailJob → Db → Type 0) where
    answered :
        (js : List EmailJob)
        → newest_first ≡ js
        → ((ks : List EmailJob) → newest_first ≡ ks → Q (latest ks) d)
        → Answer
            (λ e d'. e ≡ no_rows → Q none d')
            (λ j d'. Q (some j) d')
            d
            (elim js as (λ _. Result (EmailJob × Db)) [ [] ↦ err no_rows | j ∷ ks ↦ ok (j, d) ])
    answered [] e k = λ _. k [] e
    answered (j ∷ js) e k = k (j ∷ js) e

    latest_rule :
        ((js : List EmailJob) → newest_first ≡ js → Q (latest js) d)
        → Runs AnyError Q (row_or_none (get_latest_email_job_for_current_address lc name)) d
    unfolding get_latest_email_job_for_current_address
    latest_rule k = row_rule (query_here_rule _ (λ g. not_missing g) (answered newest_first refl k))

  same_user :
      {Q : VerificationMailResult → Db → Type 0} {d' : Db} (row user : User)
      → row ≡ user
      → Runs AnyError Q (send_verification (restarted d.clock user)) d'
      → Runs AnyError Q (send_verification (restarted d.clock row)) d'
  same_user {Q} {d'} row user e h =
      subst (λ (u : User). Runs AnyError Q (send_verification (restarted d.clock u)) d') (sym e) h

  request-Requested : Runs AnyError Requested (request_email_verification lc name) d
  unfolding request_email_verification restart_user_email_verification
  request-Requested = then_rule (
      get_user_for_update_rule (λ _. tt) _ (λ _. tt)
        λ user found. then_rule (
          fail_if_rule _ (λ _. tt)
            λ unverified. then_rule (
              fail_if_rule _ (λ _. tt)
                λ good. then_rule (
                  latest_rule _ λ js order. then_rule (
                    time_now_rule (
                      then_rule (
                        fail_if_rule _ (λ _. tt)
                          λ quiet. then_rule (
                            update_user_row_rule (λ _. tt) (has_name name) restarted (λ _. tt)
                              λ row row_found.
                                same_user row user (some_eq (sym row_found ∙ found)) (
                                  send_verification_rule (restarted d.clock user) λ job event.
                                    record {
                                      user = user;
                                      found = found;
                                      unverified = unverified;
                                      deliverable = good;
                                      waited = waited_lem js order quiet;
                                      job = job;
                                      event = event;
                                      result = refl;
                                      stored = refl;
                                    })))))))))

  -- A request for another e-mail that goes through comes from a user who is not verified and whose
  -- address is not undeliverable, a minute or more after every job for the address of now; it starts the
  -- verification again, with one job for the address, the event that announces it, and the audit rows
  -- that the triggers write of the two, and nothing else. One that fails leaves the whole database as it was.
  pub request_email_verification_tx-Requested :
      Runs (λ _ d'. d' ≡ d) Requested (request_email_verification_tx lc name) d
  unfolding request_email_verification_tx
  request_email_verification_tx-Requested = exec_tx-atomic _ d request-Requested
