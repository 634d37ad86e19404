-- ===== src/Banking/Lifecycle/Status.antt =====
-- How an operator's change of an account's status can end.
use monierave.Base.{
  ℕ, ◌≡◌, refl, String, true, false, Option, none, some, Bool-cases, inl, inr, sym, subst,
  find_first_sound, update_where, str_eq, arith,
}
use monierave.Models.{Uuid, Time, Account, AccountStatus, is_closed, Error, joined}
use monierave.Models.Tables.{Db, Books}
use monierave.Store.Rules.{
  Runs, AnyError, pure_rule, raise_rule, then_rule, bind_rule, catch_rule, weaken, on_error_rule,
  fail_if_rule, same_start, query_here_rule,
}
use monierave.Store.Atomic.{TxError-unchanged, exec_tx_rule}
use monierave.Queries.Accounts.{
  account_by_public_id, get_account_by_public_id_for_update_rule, settable, with_status,
  set_account_status_rule,
}
use monierave.Books.Invariant.{IsConsistent}
use monierave.Books.Status.{with_rows, IsConsistent-updated}
use monierave.Banking.Audit.{create_operator_audit, create_operator_audit_rule, OperatorAuditParams}
use monierave.Queries.Records.{create_audit_log}
use monierave.Banking.Notification.{create_financial_notification_rule}
use monierave.Banking.Transfer.Outcome.{SameMoney, SameMoney-refl}
use monierave.Banking.Lifecycle.{
  AccountStatusTxParams, AccountStatusTxResult, validate_operator_action, target_of, invalid_action,
  set_account_status_with_queries, audit_operator_failure, set_account_status_tx, same_status,
}

-- An operator's valid action on an account that was not closed and had another status.
pub record StatusChanged (p : AccountStatusTxParams) (d : Db) (r : AccountStatusTxResult) (d' : Db)
    : Type 0 where
  pub valid : invalid_action p.actor p.reason ≡ false
  pub target : AccountStatus
  pub account : Account
  pub found : account_by_public_id p.account_public_id d.accounts ≡ some account
  pub was_open : is_closed account.status ≡ false
  pub other_status : same_status account.status target ≡ false
  pub stays_open : is_closed target ≡ false
  pub status : r.account.status ≡ target
  pub books :
      d'.books
      ≡ with_rows d.books
          (update_where (settable account.id target) (with_status target d.clock) d.accounts)

settable-open :
    (id : ℕ) (t : AccountStatus) (x : Account) → settable id t x ≡ true → is_closed t ≡ false
settable-open id t x h = ground arith

set_account_status_with_queries-changed :
    (p : AccountStatusTxParams) (u : Uuid) (t : AccountStatus) (d : Db)
    → invalid_action p.actor p.reason ≡ false
    → Runs AnyError (StatusChanged p d) (set_account_status_with_queries p u t) d
unfolding set_account_status_with_queries
set_account_status_with_queries-changed p u t d valid = then_rule (
    on_error_rule _ (
      get_account_by_public_id_for_update_rule (λ _ _. tt) _ (λ _. tt)
        λ a found. then_rule (
          fail_if_rule _ (λ _. tt)
            λ open_status. then_rule (
              fail_if_rule _ (λ _. tt)
                λ other. then_rule (
                  set_account_status_rule (λ _ _. tt) _ t (λ _. tt)
                    λ row row_found. then_rule (
                      create_operator_audit_rule (λ _ _. tt) _
                        (then_rule (
                          create_financial_notification_rule (λ _ _. tt) _ (λ _. tt)
                            λ user ev j _. pure_rule _ (record {
                              valid = valid;
                              target = t;
                              account = a;
                              found = found;
                              was_open = open_status;
                              other_status = other;
                              stays_open =
                                  settable-open a.id t row
                                    (find_first_sound (settable a.id t) d.accounts row row_found);
                              status = refl;
                              books = refl;
                            })))))))))

-- A round trip outside a transaction, which leaves nothing behind where it is refused.
create_operator_audit-SameMoney :
    (p : OperatorAuditParams) (d : Db)
    → Runs (λ _ d'. SameMoney d d') (λ _ d'. SameMoney d d') (create_operator_audit p) d
unfolding create_operator_audit create_audit_log
create_operator_audit-SameMoney p d =
    query_here_rule _ (λ f. SameMoney-refl d)
      (record { same_books = refl; same_users = refl; same_keys = refl })

pub audit_operator_failure-SameMoney :
    {A : Type 0} {Q : A → Db → Type 0} (p : OperatorAuditParams) (e : Error) (d : Db)
    → Runs (λ _ d'. SameMoney d d') Q (audit_operator_failure p e) d
unfolding audit_operator_failure
audit_operator_failure-SameMoney p e d =
    bind_rule
      (catch_rule (create_operator_audit-SameMoney _ d) λ x d' same. raise_rule (joined e x) same)
      (λ _ d' same. raise_rule e same)

module _ {E : Error → Db → Type 0} {d : Db} where
  pub validate_operator_action_rule :
      {Q : Uuid → Db → Type 0} (actor reason : String) (o : Option Uuid)
      → ((e : Error) → E e d)
      → ((u : Uuid) → invalid_action actor reason ≡ false → Q u d)
      → Runs E Q (validate_operator_action actor reason o) d
  unfolding validate_operator_action
  validate_operator_action_rule actor reason none bad good = raise_rule _ (bad _)
  validate_operator_action_rule actor reason (some u) bad good =
      then_rule (fail_if_rule _ (λ _. bad _) λ valid. pure_rule u (good u valid))

  target_of_rule :
      {Q : AccountStatus → Db → Type 0} (s : String)
      → ((e : Error) → E e d)
      → ((t : AccountStatus) → Q t d)
      → Runs E Q (target_of s) d
  unfolding target_of
  target_of_rule s bad good = elim (Bool-cases (str_eq s "frozen")) [
    | inl hit ↦ rw hit (pure_rule _ (good _))
    | inr miss ↦ rw miss (elim (Bool-cases (str_eq s "active")) [
      | inl hit ↦ rw hit (pure_rule _ (good _))
      | inr other ↦ rw other (raise_rule _ (bad _))
    ])
  ]

status-IsConsistent :
    (id : ℕ) (t : AccountStatus) (now : Time) (b : Books)
    → is_closed t ≡ false
    → IsConsistent b
    → IsConsistent (with_rows b (update_where (settable id t) (with_status t now) b.accounts))
status-IsConsistent id t now b h c =
    IsConsistent-updated (settable id t) (with_status t now) (λ x. refl) (λ x. refl)
      (λ x _ e. ground arith) b c

pub set_account_status_tx-outcome :
    (p : AccountStatusTxParams) (d : Db)
    → IsConsistent d.books
    → Runs
        (λ _ d'. SameMoney d d')
        (λ r d'. StatusChanged p d r d' × IsConsistent d'.books)
        (set_account_status_tx p)
        d
unfolding set_account_status_tx
set_account_status_tx-outcome p d c = then_rule (
    validate_operator_action_rule _ _ _ (λ _. SameMoney-refl d)
      λ u valid. then_rule (
        target_of_rule _ (λ _. SameMoney-refl d)
          λ t.
            catch_rule
              (weaken (exec_tx_rule (set_account_status_with_queries-changed p u t d valid))
                (λ r d' s. (
                  s,
                  subst IsConsistent (sym s.books)
                      (status-IsConsistent s.account.id s.target d.clock d.books s.stays_open c),
                ))
                (λ e d' h. TxError-unchanged h))
              (λ e d' same. same_start same (audit_operator_failure-SameMoney _ e d))))
