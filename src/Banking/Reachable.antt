-- ===== src/Banking/Reachable.antt =====
-- What happens to the ledger: the operations one after another, each under any
-- refusals of the database and any draws, from the opening books on.
use monierave.Base.{count_where, ◌≡◌, refl, ◌≤ℤ◌, max_int64, find_first, arith, subst, sym}
use monierave.Models.Tables.{Db, opening_books}
use monierave.Store.{World}
use monierave.Store.After.{after, kept_after}
use monierave.Store.Rules.{weaken}
use monierave.Books.Sums.{sum_if, count_if}
use monierave.Books.Invariant.{IsConsistent}
use monierave.Banking.Transfer.{TransferTxParams, transfer_tx}
use monierave.Banking.Transfer.Outcome.{SameMoney, transfer_tx-outcome}
use monierave.Banking.Idempotency.{IdempotentTransferTxParams, idempotent_transfer_tx}
use monierave.Banking.Idempotency.Outcome.{idempotent_transfer_tx-outcome}
use monierave.Banking.Movement.{MovementParams, settlement_movement_tx}
use monierave.Banking.Movement.Invariant.{settlement_movement_tx-outcome}
use monierave.Banking.Opening.{CreateAccountTxParams, create_account_tx}
use monierave.Banking.Opening.Outcome.{create_account_tx-outcome}
use monierave.Banking.Lifecycle.{
  CloseAccountTxParams, close_account_tx, AccountStatusTxParams, set_account_status_tx,
}
use monierave.Banking.Lifecycle.Closing.{close_account_tx-outcome}
use monierave.Banking.Lifecycle.Status.{set_account_status_tx-outcome}
use monierave.Banking.Reversal.{ReverseTransactionTxParams, reverse_transaction_tx}
use monierave.Banking.Reversal.Invariant.{reverse_transaction_tx-Reversed}

-- One operation of the store, or anything that leaves the ledger's tables alone.
pub data Step (d : Db) : Db → Type 0 where
  transfer : (p : TransferTxParams) (w : World) → Step d (after (transfer_tx p) w d)
  keyed_transfer :
      (p : IdempotentTransferTxParams) (w : World) → Step d (after (idempotent_transfer_tx p) w d)
  movement :
      (p : MovementParams) (w : World)
      → p.amount ≤ℤ max_int64
      → Step d (after (settlement_movement_tx p) w d)
  opening : (p : CreateAccountTxParams) (w : World) → Step d (after (create_account_tx p) w d)
  closing : (p : CloseAccountTxParams) (w : World) → Step d (after (close_account_tx p) w d)
  status_change :
      (p : AccountStatusTxParams) (w : World) → Step d (after (set_account_status_tx p) w d)
  reversal :
      (p : ReverseTransactionTxParams) (w : World) → Step d (after (reverse_transaction_tx p) w d)
  elsewhere : (d' : Db) → d'.books ≡ d.books → Step d d'

pub data Reachable : Db → Type 0 where
  start : (d : Db) → d.books ≡ opening_books → Reachable d
  next : (d d' : Db) → Reachable d → Step d d' → Reachable d'

pub opening-IsConsistent : IsConsistent opening_books
unfolding find_first sum_if count_if count_where
opening-IsConsistent = record {
  unique_accounts = tt;
  unique_ledgers = (refl, (refl, tt));
  unique_transactions = tt;
  cached = λ id a l e el. cc;
  sound = λ id a e. cc;
  has_ledgers = λ id a e. cc;
  balanced = λ u t e s. cc;
  known = λ u e. refl;
  zero_sum = refl;
  sound_postings = tt;
  unique_holders = λ n l h e held. ground arith;
  one_reversal = λ u. omega arith;
  fresh = record {
    account_unused = λ n h. refl;
    owner_unused = λ n h. refl;
    ledger_unused = λ n h. ground arith;
    posting_unused = λ n h. refl;
  };
}

Consistent : Db → Type 0
Consistent d = IsConsistent d.books

unchanged : {d d' : Db} → d' ≡ d → IsConsistent d.books → IsConsistent d'.books
unchanged e c = subst (λ (x : Db). IsConsistent x.books) (sym e) c

same_books : {d d' : Db} → SameMoney d d' → IsConsistent d.books → IsConsistent d'.books
same_books s c = subst IsConsistent (sym s.same_books) c

pub Step-IsConsistent : (d d' : Db) → IsConsistent d.books → Step d d' → IsConsistent d'.books
unfolding Consistent
Step-IsConsistent d _ c (transfer p w) =
    kept_after Consistent w
      (weaken (transfer_tx-outcome p d c) (λ _ _ (_, k). k) (λ _ _ s. same_books s c))
Step-IsConsistent d _ c (keyed_transfer p w) =
    kept_after Consistent w
      (weaken (idempotent_transfer_tx-outcome p d c) (λ _ _ (_, _, k). k) (λ _ _ s. same_books s c))
Step-IsConsistent d _ c (movement p w bounded) = kept_after Consistent w (
    weaken (settlement_movement_tx-outcome p d c bounded) (λ _ _ (_, k). k)
      (λ _ _ e. unchanged e c))
Step-IsConsistent d _ c (opening p w) =
    kept_after Consistent w
      (weaken (create_account_tx-outcome p d c) (λ _ _ o. o.consistent) (λ _ _ e. unchanged e c))
Step-IsConsistent d _ c (closing p w) =
    kept_after Consistent w
      (weaken (close_account_tx-outcome p d c) (λ _ _ (_, k). k) (λ _ _ e. unchanged e c))
Step-IsConsistent d _ c (status_change p w) =
    kept_after Consistent w
      (weaken (set_account_status_tx-outcome p d c) (λ _ _ (_, k). k) (λ _ _ s. same_books s c))
Step-IsConsistent d _ c (reversal p w) = kept_after Consistent w (
    weaken (reverse_transaction_tx-Reversed p d c) (λ _ _ r. r.consistent)
      (λ _ _ s. same_books s c))
Step-IsConsistent d d' c (elsewhere _ e) = subst IsConsistent (sym e) c

-- However transfers, with a key or without, deposits and withdrawals of amounts within int64,
-- openings, closings, status changes and reversals follow one another and fail, from the opening books on, the
-- books are consistent: every cached balance is the sum of its postings, no account is overdrawn, a closed one is empty, every
-- transaction that took effect is balanced, none is reversed by two, and the whole book adds up to zero.
pub Reachable-IsConsistent : (d : Db) → Reachable d → IsConsistent d.books
Reachable-IsConsistent d (start _ e) = subst IsConsistent (sym e) opening-IsConsistent
Reachable-IsConsistent d (next before _ r s) =
    Step-IsConsistent before d (Reachable-IsConsistent before r) s
