-- ===== src/Banking/Reversal/Permanent.antt =====
-- The row of a reversed transaction under the operations on the ledger.
use monierave.Base.{◌≡◌, ◌⊎◌, inl, inr, sym, ◌∙◌, ap, subst, arith}
use monierave.Models.{Uuid, TransferTxResult}
use monierave.Models.Tables.{Db, Books}
use monierave.Store.After.{kept_after}
use monierave.Store.Rules.{Runs, weaken}
use monierave.Books.Invariant.{IsConsistent}
use monierave.Banking.Transfer.{TransferTxParams}
use monierave.Banking.Idempotency.{IdempotentTransferTxParams}
use monierave.Banking.Transfer.Outcome.{SameMoney, transfer_tx-outcome}
use monierave.Banking.Transfer.Effect.{TransferEffect}
use monierave.Banking.Idempotency.Outcome.{idempotent_transfer_tx-outcome, Replays, Stores}
use monierave.Banking.Movement.Invariant.{settlement_movement_tx-outcome}
use monierave.Banking.Opening.Outcome.{create_account_tx-outcome}
use monierave.Banking.Lifecycle.Closing.{close_account_tx-outcome}
use monierave.Banking.Lifecycle.Status.{set_account_status_tx-outcome}
use monierave.Banking.Reversal.{ReverseTransactionTxParams, reverse_transaction_tx}
use monierave.Banking.Reversal.Once.{may_reverse, reverse_transaction_tx-refused}
use monierave.Banking.Reversal.Invariant.{reverse_transaction_tx-Reversed}
use monierave.Banking.Reachable.{
  Step, transfer, keyed_transfer, movement, opening, closing, status_change, reversal, elsewhere,
  Step-IsConsistent,
}
use monierave.Banking.Reversal.Marked.{IsReversed, IsReversed-entered, IsReversed-marked, of_rows}

of_books :
    {u : Uuid} {b b' : Books} → b' ≡ b → IsReversed u b.transactions → IsReversed u b'.transactions
of_books {u} e h = subst (λ (x : Books). IsReversed u x.transactions) (sym e) h

of_same :
    {u : Uuid} {d d' : Db} → d' ≡ d → IsReversed u d.transactions → IsReversed u d'.transactions
of_same {u} e h = subst (λ (x : Db). IsReversed u x.transactions) (sym e) h

transfer-IsReversed :
    (u : Uuid) (p : TransferTxParams) (d : Db) (r : TransferTxResult) (d' : Db)
    → TransferEffect p d r d'
    → IsReversed u d.transactions
    → IsReversed u d'.transactions
transfer-IsReversed u p d r d' t h =
    of_books t.books (IsReversed-entered u d.transactions d.clock _ h)

stored-IsReversed :
    (u : Uuid) (p : IdempotentTransferTxParams) (d : Db) (r : TransferTxResult) (d' : Db)
    → Replays p d r d' ⊎ Stores p d r d'
    → IsReversed u d.transactions
    → IsReversed u d'.transactions
stored-IsReversed u p d r d' (inl x) h = of_books x.books h
stored-IsReversed u p d r d' (inr x) h =
    of_books x.same_end
      (transfer-IsReversed u p.transfer x.start r x.end x.effect (of_books x.same_start.0 h))

module _ (u : Uuid) where
  Kept : Db → Type 0
  Kept d = IsReversed u d.transactions

  Step-IsReversed :
      (d d' : Db)
      → IsConsistent d.books
      → Step d d'
      → IsReversed u d.transactions
      → IsReversed u d'.transactions
  unfolding Kept
  Step-IsReversed d _ c (transfer p w) h = kept_after Kept w (
      weaken (transfer_tx-outcome p d c) (λ r d' t. transfer-IsReversed u p d r d' t.0 h)
        (λ _ _ s. of_books s.same_books h))
  Step-IsReversed d _ c (keyed_transfer p w) h = kept_after Kept w (
      weaken (idempotent_transfer_tx-outcome p d c) (λ r d' t. stored-IsReversed u p d r d' t.1 h)
        (λ _ _ s. of_books s.same_books h))
  Step-IsReversed d _ c (movement p w bounded) h = kept_after Kept w (
      weaken (settlement_movement_tx-outcome p d c bounded)
        (λ _ _ t. of_books t.0.books (IsReversed-entered u d.transactions d.clock _ h))
        (λ _ _ e. of_same e h))
  Step-IsReversed d _ c (opening p w) h = kept_after Kept w (
      weaken (create_account_tx-outcome p d c) (λ _ _ o. of_books o.books h) (λ _ _ e. of_same e h))
  Step-IsReversed d _ c (closing p w) h = kept_after Kept w (
      weaken (close_account_tx-outcome p d c) (λ _ _ t. of_books t.0.books h)
        (λ _ _ e. of_same e h))
  Step-IsReversed d _ c (status_change p w) h = kept_after Kept w (
      weaken (set_account_status_tx-outcome p d c) (λ _ _ t. of_books t.0.books h)
        (λ _ _ s. of_books s.same_books h))
  Step-IsReversed d _ c (reversal p w) h = kept_after Kept w (
      weaken (reverse_transaction_tx-Reversed p d c)
        (λ _ _ x. of_rows x.rows (
          IsReversed-marked u _ d.clock p.transaction_id
            (IsReversed-entered u d.transactions d.clock x.entry h)))
        (λ _ _ s. of_books s.same_books h))
  Step-IsReversed d d' c (elsewhere _ e) h = of_books e h

-- What the ledger's operations make of a database.
pub data Steps (d : Db) : Db → Type 0 where
  none_yet : Steps d d
  one_more : (d1 d2 : Db) → Steps d d1 → Step d1 d2 → Steps d d2

Steps-IsReversed :
    (u : Uuid) (d d' : Db)
    → IsConsistent d.books
    → IsReversed u d.transactions
    → Steps d d'
    → IsConsistent d'.books × IsReversed u d'.transactions
Steps-IsReversed u d _ c h none_yet = (c, h)
Steps-IsReversed u d _ c h (one_more d1 d2 before step) =
    let (c1, h1) = Steps-IsReversed u d d1 c h before in
    (Step-IsConsistent d1 d2 c1 step, Step-IsReversed u d1 d2 c1 step h1)

-- A transaction that was reversed is never reversed again: after any sequence of operations on the
-- ledger, the deposits and withdrawals of amounts within int64, from consistent books on, it is there
-- and marked as reversed, and every attempt to reverse it returns an error and changes no account,
-- ledger row, user or idempotency key.
pub reversed_once_for_good :
    (p : ReverseTransactionTxParams) (d d' : Db)
    → IsConsistent d.books
    → IsReversed p.transaction_id d.transactions
    → Steps d d'
    → IsReversed p.transaction_id d'.transactions
      × Runs (λ _ x. SameMoney d' x) (λ _ _. ⊥) (reverse_transaction_tx p) d'
reversed_once_for_good p d d' c h steps =
    let (_, k) = Steps-IsReversed p.transaction_id d d' c h steps in
    (k, reverse_transaction_tx-refused p d' (ap may_reverse k.found ∙ ground (arith, k.mark)))
