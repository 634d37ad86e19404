-- ===== src/Banking/Transfer/Success.antt =====
-- A permitted transfer takes effect unless the outside fails.
use monierave.Base.{◌≤ℤ◌, max_int64, ltb_ℤ, false, ◌≡◌, subst, arith}
use monierave.Models.{Error}
use monierave.Models.Tables.{Db}
use monierave.Store.Rules.{Runs, then_rule, catch_rule, weaken, both_rule}
use monierave.Store.Atomic.{Infrastructure, of_join, TxError-Infrastructure, exec_tx_rule}
use monierave.Books.Invariant.{IsConsistent}
use monierave.Banking.Audit.{audit_correlation_rule}
use monierave.Banking.Transfer.{TransferTxParams, transfer_tx}
use monierave.Banking.Transfer.Effect.{TransferEffect}
use monierave.Banking.Transfer.Invariant.{limits_per}
use monierave.Banking.Transfer.Outcome.{
  SameMoney, Reported, as_it_is, beside_record, audit_transfer_failure-Reported,
  transfer_tx-outcome,
}
use monierave.Banking.Transfer.Permitted.{Permitted}
use monierave.Banking.Transfer.Available.{transfer_available}

permitted_range : (p : TransferTxParams) (d : Db) → Permitted p d → p.amount ≤ℤ max_int64
permitted_range p d x =
    let e = limits_per p.currency x.per_transfer_limit x.daily_limit x.limits in
    let w = subst (λ z. ltb_ℤ z p.amount ≡ false) e x.within_limit in ground arith

Reported-outside : {e x : Error} → Infrastructure e → Reported e x → Infrastructure x
Reported-outside h as_it_is = h
Reported-outside {e} h (beside_record x) = of_join e x h

only_outside :
    (p : TransferTxParams) (d : Db)
    → IsConsistent d.books
    → Permitted p d
    → Runs (λ e _. Infrastructure e) (λ _ _. Unit {0}) (transfer_tx p) d
unfolding transfer_tx
only_outside p d c x = then_rule (
    audit_correlation_rule p.correlation_id λ correlation.
      catch_rule (exec_tx_rule (transfer_available x c (permitted_range p d x) correlation))
        λ e d' h.
          weaken (audit_transfer_failure-Reported p correlation e d') (λ _ _ q. q)
            (λ y _ (_, r). Reported-outside (TxError-Infrastructure h) r))

-- From consistent books, a transfer that is permitted takes effect unless the database refuses a round
-- trip, which it also does where the drawn id is in use. Permitted is a positive amount that the
-- sender's balance covers, within both limits, from an account of the caller that is neither frozen nor
-- closed to another one that is not closed, both of the given currency and with known owners. If the
-- database refuses, no account, ledger row, user or idempotency key differs.
pub transfer_tx-Permitted :
    (p : TransferTxParams) (d : Db)
    → IsConsistent d.books
    → Permitted p d
    → Runs
        (λ e d'. Infrastructure e × SameMoney d d')
        (λ r d'. TransferEffect p d r d' × IsConsistent d'.books)
        (transfer_tx p)
        d
transfer_tx-Permitted p d c x =
    weaken (both_rule (only_outside p d c x) (transfer_tx-outcome p d c)) (λ _ _ (_, h). h)
      (λ _ _ h. h)
