-- ===== src/Banking/Reversal/Once.antt =====
-- Which transactions can be reversed.
use mathlib.Core.Bool.{false≢true}
use monierave.Base.{
  ◌≡◌, refl, Bool, true, false, ◌&&◌, not, List, [], ◌∷◌, Option, none, some, sym, ◌∙◌, ap, arith,
}
use monierave.Models.{Uuid, BankingTransaction, is_posted, is_reversal}
use monierave.Models.Tables.{Db}
use monierave.Store.Rules.{
  Runs, AnyError, any_rule, pure_rule, then_rule, catch_rule, weaken, on_error_rule, fail_if_rule,
  same_start,
}
use monierave.Store.Atomic.{TxError-unchanged, exec_tx_rule}
use monierave.Queries.Ledger.{transaction_by_id}
use monierave.Queries.Ledger.Rules.{get_banking_transaction_for_update_rule}
use monierave.Banking.Notification.{create_financial_notification_rule}
use monierave.Banking.Transfer.Outcome.{SameMoney, SameMoney-refl}
use monierave.Banking.Lifecycle.Status.{
  validate_operator_action_rule, audit_operator_failure-SameMoney,
}
use monierave.Banking.Reversal.{
  ReverseTransactionTxParams, notify_each, reverse_with_queries, reverse_transaction_tx,
}
use monierave.Banking.ReversalPlan.{Updated}

-- A row that may be reversed: it is there, it was posted, and it is no reversal itself.
abbrev pub may_reverse : Option BankingTransaction → Bool
may_reverse none = false
may_reverse (some t) = is_posted t.status && not (is_reversal t.transaction_type)

pub notify_each-books :
    (p : ReverseTransactionTxParams) (u : Uuid) (o m : BankingTransaction) (us : List Updated)
    (d : Db)
    → Runs AnyError (λ _ d'. d'.books ≡ d.books) (notify_each p u o m us) d
unfolding notify_each
notify_each-books p u o m [] d = pure_rule tt refl
notify_each-books p u o m (x ∷ us) d = then_rule (
    create_financial_notification_rule (λ _ _. tt) _ (λ _. tt)
      λ user ev j _. notify_each-books p u o m us _)

reversible_before :
    (o : Option BankingTransaction) (t : BankingTransaction)
    → o ≡ some t
    → is_reversal t.transaction_type ≡ false
    → not (is_posted t.status) ≡ false
    → may_reverse o ≡ true
reversible_before o t found no_reversal posted = ap may_reverse found ∙ ground arith

reverse_with_queries-allowed :
    (p : ReverseTransactionTxParams) (u : Uuid) (d : Db)
    → Runs AnyError
        (λ _ _. may_reverse (transaction_by_id p.transaction_id d.transactions) ≡ true)
        (reverse_with_queries p u)
        d
unfolding reverse_with_queries
reverse_with_queries-allowed p u d = then_rule (
    on_error_rule _ (
      get_banking_transaction_for_update_rule (λ _ _. tt) _ (λ _. tt)
        λ o found. then_rule (
          fail_if_rule _ (λ _. tt)
            λ no_reversal. then_rule (
              fail_if_rule _ (λ _. tt)
                λ _. then_rule (
                  fail_if_rule _ (λ _. tt)
                    λ posted.
                      weaken (any_rule _ d)
                        (λ _ _ _. reversible_before _ o found no_reversal posted) (λ _ _ _. tt))))))

-- Only a transaction that is there, posted and no reversal itself is reversed.
pub reverse_transaction_tx-allowed :
    (p : ReverseTransactionTxParams) (d : Db)
    → Runs
        (λ _ d'. SameMoney d d')
        (λ _ _. may_reverse (transaction_by_id p.transaction_id d.transactions) ≡ true)
        (reverse_transaction_tx p)
        d
unfolding reverse_transaction_tx
reverse_transaction_tx-allowed p d = then_rule (
    validate_operator_action_rule _ _ _ (λ _. SameMoney-refl d)
      λ u valid.
        catch_rule (exec_tx_rule (reverse_with_queries-allowed p u d))
          λ e d' h. same_start (TxError-unchanged h) (audit_operator_failure-SameMoney _ e d))

-- A transaction that is missing, not posted, reversed already, or a reversal itself is never
-- reversed: every attempt returns an error, and no account, ledger row, user or idempotency key
-- differs after it.
pub reverse_transaction_tx-refused :
    (p : ReverseTransactionTxParams) (d : Db)
    → may_reverse (transaction_by_id p.transaction_id d.transactions) ≡ false
    → Runs (λ _ d'. SameMoney d d') (λ _ _. ⊥) (reverse_transaction_tx p) d
reverse_transaction_tx-refused p d stuck =
    weaken (reverse_transaction_tx-allowed p d) (λ _ _ may. false≢true (sym stuck ∙ may))
      (λ _ _ s. s)
