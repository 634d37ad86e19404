-- ===== src/Banking/Transfer/Invariant.antt =====
-- A transfer that succeeds keeps the books consistent.
use monierave.Base.{
  neg64_back, positive_Negatable, String, ◌≡◌, refl, false, none, ℤ, pos, ◌+ℤ◌, ◌≤ℤ◌, ltb_ℤ,
  max_int64, neg64, neg64_opposite, arith, by_key-of_found, or_false, List, subst, sym, ◌∙◌, ap,
  some_eq, UniqueKeys,
}
use monierave.Models.{Account, TransferTxResult, is_closed, BankingTransaction}
use monierave.Models.Tables.{Db}
use monierave.Store.{ok}
use monierave.Queries.Ledger.{
  transaction_by_id, transaction_violation, TransactionParams, holds_for,
}
use monierave.Books.Invariant.{IsConsistent, account_key, ledger_key}
use monierave.Books.Credits.{
  only, after_credit, AccountsMoved, AccountsMoved-trans, AccountsMoved-after_credit,
  SoundBalances-after_credit, UniqueKeys-after_credit, account_by_id-covered,
}
use monierave.Books.Posts.{LedgersMoved-trans, LedgersMoved-customer}
use monierave.Books.Movement.{IsConsistent-moved}
use monierave.Banking.Transfer.{TransferTxParams, transfer_limits}
use monierave.Banking.Transfer.Effect.{TransferEffect, debit_row, credit_row, transfer_row}

pub transaction_by_id-of_violation :
    (p : TransactionParams) (rows : List BankingTransaction)
    → transaction_violation p rows ≡ none
    → transaction_by_id p.id rows ≡ none
unfolding transaction_violation
transaction_by_id-of_violation p rows h = ground arith

pub limits_per : (c : String) (x y : ℤ) → transfer_limits c ≡ ok (x, y) → x ≡ pos 1_000_000
unfolding transfer_limits
limits_per c x y h = ground arith

module _ {p : TransferTxParams} {d : Db} {r : TransferTxResult} {d' : Db}
    (t : TransferEffect p d r d') where
  open t use {
    from, to, locked, both_open, per_transfer_limit, daily_limit, limits, within_limit, from_ledger,
    from_ledger_row, to_ledger, to_ledger_row, positive, id, hex, fresh, debited, debited_row,
    credited_to, credited_row, books,
  }

  pub amount_in_range : p.amount ≤ℤ max_int64
  amount_in_range =
      let e = limits_per p.currency per_transfer_limit daily_limit limits in
      let w = subst (λ x. ltb_ℤ x p.amount ≡ false) e within_limit in ground arith

  pub opposite_amounts : neg64 p.amount +ℤ p.amount ≡ pos 0
  opposite_amounts = neg64_opposite p.amount positive amount_in_range

  module _ (c : IsConsistent d.books) where
    open c use {unique_accounts, unique_ledgers, sound}

    -- The account debited is the one that was locked, and so is the account credited, up to its
    -- balance.
    pub debited-eq-from : debited ≡ from
    debited-eq-from = some_eq (
        sym (
          account_by_id-covered from.id (neg64 p.amount) d.clock d.accounts debited unique_accounts
            debited_row)
        ∙ locked.from_row)

    debit_moved :
        AccountsMoved
          (only from.id (neg64 p.amount))
          d.accounts
          (after_credit from.id (neg64 p.amount) d.clock d.accounts)
    debit_moved =
        AccountsMoved-after_credit from.id (neg64 p.amount) d.clock d.accounts debited
          unique_accounts debited_row

    unique_after_debit :
        UniqueKeys account_key (after_credit from.id (neg64 p.amount) d.clock d.accounts)
    unique_after_debit =
        UniqueKeys-after_credit from.id (neg64 p.amount) d.clock d.accounts unique_accounts

    debited_open : is_closed debited.status ≡ false
    debited_open =
        subst (λ (a : Account). is_closed a.status ≡ false) (sym debited-eq-from)
          (or_false (is_closed from.status) _ both_open).0

    credited_open : is_closed credited_to.status ≡ false
    credited_open =
        let (b, eb, _, same) = debit_moved to.id credited_to (
          account_by_id-covered to.id p.amount d.clock _ credited_to unique_after_debit
            credited_row) in
        ap is_closed same
        ∙ subst (λ (a : Account). is_closed a.status ≡ false) (some_eq (sym locked.to_row ∙ eb))
            (or_false (is_closed from.status) _ both_open).1

    pub transfer-IsConsistent : IsConsistent d'.books
    transfer-IsConsistent = subst IsConsistent (sym books) (
        IsConsistent-moved d.books d.clock (transfer_row p d from to from_ledger to_ledger id hex)
          (debit_row p d from to from_ledger to_ledger id hex)
          (credit_row p d from to from_ledger to_ledger id hex) _ _ c _
          (AccountsMoved-trans _ _ d.accounts _ _ debit_moved (
            AccountsMoved-after_credit to.id p.amount d.clock _ credited_to unique_after_debit
              credited_row))
          _ from_ledger to_ledger (λ n. refl)
          (UniqueKeys-after_credit to.id p.amount d.clock _ unique_after_debit)
          (SoundBalances-after_credit to.id p.amount d.clock _ credited_to unique_after_debit
            credited_row credited_open
            (SoundBalances-after_credit from.id (neg64 p.amount) d.clock _ debited unique_accounts
              debited_row debited_open sound))
          (LedgersMoved-trans (only from.id (neg64 p.amount)) (only to.id p.amount)
            d.ledger_accounts _ _ _
            (LedgersMoved-customer d.ledger_accounts unique_ledgers d.postings _ from.id from_ledger
              from_ledger_row refl)
            (LedgersMoved-customer d.ledger_accounts unique_ledgers _ _ to.id to_ledger
              to_ledger_row refl))
          (transaction_by_id-of_violation _ d.transactions fresh) refl refl refl refl
          opposite_amounts
          (neg64_back p.amount (positive_Negatable p.amount positive amount_in_range)).0
          (positive_Negatable p.amount positive amount_in_range)
          (by_key-of_found ledger_key (holds_for from.id) d.ledger_accounts from_ledger
            unique_ledgers from_ledger_row)
          (by_key-of_found ledger_key (holds_for to.id) d.ledger_accounts to_ledger unique_ledgers
            to_ledger_row))
