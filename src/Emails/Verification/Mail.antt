-- ===== src/Emails/Verification/Mail.antt =====
-- What a verification e-mail leaves, and what registration does.
use monierave.Base.{
  ◌≡◌, refl, [], ◌∷◌, ◌++◌, none, some, find_first, find_first-append, LetterCase, eq_iff, ◌∙◌,
  arith,
}
use monierave.Models.{Uuid, User}
use monierave.Models.Tables.{Db}
use monierave.Store.Rules.{Runs, AnyError, pure_rule, then_rule, new_uuid_rule}
use monierave.Store.Atomic.{exec_tx-atomic}
use monierave.Queries.Records.{
  user_by_name, new_email_job, with_email_job, create_email_job_rule, new_outbox_event,
  with_outbox_event, create_outbox_event_rule,
}
use monierave.Queries.Users.{
  CreateUserParams, new_user, user_violation, with_users, create_user_rule, has_name,
}
use monierave.Emails.Verification.{
  verification_job, verification_event, create_verification_email_job, VerificationMailResult,
  send_verification, create_user_tx,
}

module _ (user : User) (d : Db) (job event : Uuid) where
  abbrev pub verification_mail : VerificationMailResult
  verification_mail = record {
    user = user;
    email_job = new_email_job (verification_job user.username user.email job) d;
    outbox_event = new_outbox_event (verification_event job event) d;
  }

  -- One job for the user's address, the event that announces it, and their audit rows.
  abbrev pub with_verification_mail : Db
  with_verification_mail =
      with_outbox_event verification_mail.outbox_event
        (with_email_job verification_mail.email_job d)

pub send_verification_rule :
    {Q : VerificationMailResult → Db → Type 0} {d : Db} (user : User)
    → ((job event : Uuid)
        → Q (verification_mail user d job event) (with_verification_mail user d job event))
    → Runs AnyError Q (send_verification user) d
unfolding create_verification_email_job
send_verification_rule user h = then_rule (
    then_rule (
      new_uuid_rule λ job. then_rule (
        create_email_job_rule (λ _ _. tt) _
          (then_rule (
            new_uuid_rule λ event. then_rule (
              create_outbox_event_rule (λ _ _. tt) _ (pure_rule _ (pure_rule _ (h job event)))))))))

-- The user that a registration stores, and its e-mail.
pub record Registered (lc : LetterCase) (p : CreateUserParams) (d : Db) (r : VerificationMailResult)
    (d' : Db) : Type 0 where
  pub job : Uuid
  pub event : Uuid
  pub nobody_else : user_violation lc p d.users ≡ none
  pub result :
      r
      ≡ verification_mail
          (new_user p d.clock)
          (with_users d (d.users ++ new_user p d.clock ∷ []))
          job
          event
  pub stored :
      d'
      ≡ with_verification_mail
          (new_user p d.clock)
          (with_users d (d.users ++ new_user p d.clock ∷ []))
          job
          event
  pub row : user_by_name p.username d'.users ≡ some (new_user p d.clock)

new_row :
    (lc : LetterCase) (p : CreateUserParams) (d : Db)
    → user_violation lc p d.users ≡ none
    → user_by_name p.username (d.users ++ new_user p d.clock ∷ []) ≡ some (new_user p d.clock)
unfolding user_violation find_first
new_row lc p d h =
    let own = (eq_iff p.username p.username).1 refl in
    let none_yet : user_by_name p.username d.users ≡ none = ground arith in
    find_first-append (has_name p.username) d.users (new_user p d.clock ∷ [])
    ∙ rw (none_yet, own) refl

-- A registration that succeeds took a name and an address that no user had, and stored the user, not
-- verified and not active, with one e-mail job for the address, the event that announces it, and the
-- audit rows that the triggers write of the two, and nothing else; one that fails leaves the whole
-- database as it was.
pub create_user_tx-Registered :
    (lc : LetterCase) (p : CreateUserParams) (d : Db)
    → Runs (λ _ d'. d' ≡ d) (Registered lc p d) (create_user_tx lc p) d
unfolding create_user_tx
create_user_tx-Registered lc p d = exec_tx-atomic _ d (
    then_rule (
      create_user_rule (λ _. tt) lc p
        λ fresh. send_verification_rule (new_user p d.clock) λ job event. record {
          job = job;
          event = event;
          nobody_else = fresh;
          result = refl;
          stored = refl;
          row = new_row lc p d fresh;
        }))
