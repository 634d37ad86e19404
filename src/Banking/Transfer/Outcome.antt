-- ===== src/Banking/Transfer/Outcome.antt =====
-- How `transfer_tx` can end: with a transfer that keeps the books consistent, or with an error and
-- the books as they were, the attempt on record at most.
use monierave.Base.{◌≡◌, refl, subst, sym}
use monierave.Models.{Uuid, Error, joined}
use monierave.Models.Tables.{Db}
use monierave.Store.Rules.{
  Runs, AnyError, pure_rule, raise_rule, bind_rule, then_rule, catch_rule, weaken,
  uuid_hex_text_rule,
}
use monierave.Store.Atomic.{TxError-unchanged, exec_tx_rule}
use monierave.Books.Invariant.{IsConsistent}
use monierave.Banking.Audit.{create_financial_audit_rule, audit_correlation_rule}
use monierave.Banking.Notification.{create_financial_notification_rule}
use monierave.Banking.Transfer.{
  TransferTxParams, record_transfer_failure, audit_transfer_failure, transfer_tx,
}
use monierave.Banking.Transfer.Effect.{TransferEffect, transfer_with_queries-effect}
use monierave.Banking.Transfer.Invariant.{transfer-IsConsistent}

-- No account, ledger row, user or idempotency key differs: only records of what happened may.
pub record SameMoney (d d' : Db) : Type 0 where
  pub same_books : d'.books ≡ d.books
  pub same_users : d'.users ≡ d.users
  pub same_keys : d'.idempotency_keys ≡ d.idempotency_keys

pub SameMoney-refl : (d : Db) → SameMoney d d
SameMoney-refl d = record { same_books = refl; same_users = refl; same_keys = refl }

pub SameMoney-of_eq : {d d' e : Db} → d' ≡ d → SameMoney d' e → SameMoney d e
SameMoney-of_eq {e} p h = subst (λ x. SameMoney x e) p h

record_transfer_failure-SameMoney :
    (p : TransferTxParams) (correlation : Uuid) (e : Error) (d : Db)
    → Runs AnyError (λ _ d'. SameMoney d d') (record_transfer_failure p correlation e) d
unfolding record_transfer_failure
record_transfer_failure-SameMoney p correlation e d = then_rule (
    create_financial_audit_rule (λ _ _. tt) _
      (then_rule (
        uuid_hex_text_rule correlation λ hex. then_rule (
          create_financial_notification_rule (λ _ _. tt) _ (λ _. tt)
            λ u ev j _.
              pure_rule tt (record { same_books = refl; same_users = refl; same_keys = refl })))))

-- What the caller gets of an error: the error, or the error beside that of its own record.
pub data Reported (e : Error) : Error → Type 0 where
  as_it_is : Reported e e
  beside_record : (x : Error) → Reported e (joined e x)

pub audit_transfer_failure-Reported :
    {A : Type 0} {Q : A → Db → Type 0} (p : TransferTxParams) (correlation : Uuid) (e : Error)
    (d : Db)
    → Runs (λ x d'. SameMoney d d' × Reported e x) Q (audit_transfer_failure p correlation e) d
unfolding audit_transfer_failure
audit_transfer_failure-Reported p correlation e d =
    bind_rule
      (catch_rule (exec_tx_rule (record_transfer_failure-SameMoney p correlation e d)) λ x d' h.
        raise_rule (joined e x)
          (subst (SameMoney d) (sym (TxError-unchanged h)) (SameMoney-refl d), beside_record x))
      (λ _ d' h. raise_rule e (h, as_it_is))

-- From consistent books, a transfer either takes effect, and the books stay consistent, or returns an
-- error and changes no account, ledger row, user or idempotency key, whichever round trips the
-- database refuses.
pub transfer_tx-outcome :
    (p : TransferTxParams) (d : Db)
    → IsConsistent d.books
    → Runs
        (λ _ d'. SameMoney d d')
        (λ r d'. TransferEffect p d r d' × IsConsistent d'.books)
        (transfer_tx p)
        d
unfolding transfer_tx
transfer_tx-outcome p d c = then_rule (
    audit_correlation_rule p.correlation_id λ correlation.
      catch_rule
        (weaken (exec_tx_rule (transfer_with_queries-effect p correlation d))
          (λ r d' t. (t, transfer-IsConsistent t c)) (λ e d' h. h))
        λ e d' h.
          weaken (audit_transfer_failure-Reported p correlation e d') (λ r d'' q. q)
            (λ x d'' (s, _). SameMoney-of_eq (TxError-unchanged h) s))
