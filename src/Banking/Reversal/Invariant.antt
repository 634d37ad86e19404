-- ===== src/Banking/Reversal/Invariant.antt =====
-- What a reversal does to the books: every customer's balance moves back, and the books stay
-- consistent.

use monierave.Base.{
  ℕ, ◌≤◌, ◌≡◌, refl, true, false, List, [], ◌∷◌, ◌++◌, none, ℤ, pos, ◌+ℤ◌, int_laws, arith, ap, sym,
  ◌∙◌, subst, not, pos_part, neg_part, find_first_sound, ==_iff, UniqueKeys, update_where,
}
use monierave.Models.{Uuid, BankingTransaction, LedgerPosting, Account, is_posted, is_pending}
use monierave.Models.Tables.{Db}
use monierave.Store.Rules.{
  Runs, AnyError, pure_rule, then_rule, bind_rule, catch_rule, on_error_rule, same_start, lift_rule,
  fail_if_rule, query_rule,
}
use monierave.Store.Atomic.{TxError-unchanged, exec_tx_rule}
use monierave.Queries.Ledger.{
  TransactionParams, transaction_by_id, has_transaction_id, with_transactions, new_transaction,
  transaction_violation, reversed_twice, reversible, as_reversed,
}
use monierave.Queries.Ledger.Rules.{
  get_banking_transaction_for_update_rule, mark_banking_transaction_posted_rule,
  mark_banking_transaction_reversed_rule,
}
use monierave.Queries.Reversal.{ReversalSource, reversal_sources, list_reversal_source_postings}
use monierave.Books.Invariant.{IsConsistent, settled, account_key, SoundBalances}
use monierave.Books.Sums.{posting_sum, posting_count, book_total}
use monierave.Books.Credits.{AccountsMoved}
use monierave.Books.Entry.{entered_books, IsConsistent-entered}
use monierave.Books.Marking.{marked_books, IsConsistent-marked}
use monierave.Books.Sources.{
  SoundSources, OppositeRows, source_total, source_change, opposites, reversal_sources-SoundSources,
  posted_rows-OppositeRows,
}
use monierave.Books.Posts.{LedgersMoved}
use monierave.Books.Transactions.{posted_into}
use monierave.Books.Undoing.{posted_db-eq, with_postings, next_after, LedgersMoved-opposites}
use monierave.Banking.Audit.{create_operator_audit_rule}
use monierave.Banking.Posting.{PostingParams, transaction_params}
use monierave.Banking.Posting.Rules.{posted_rows, create_balanced_transaction_rule}
use monierave.Banking.Transfer.Invariant.{transaction_by_id-of_violation}
use monierave.Banking.Transfer.Outcome.{SameMoney, SameMoney-refl}
use monierave.Banking.Lifecycle.Status.{
  validate_operator_action_rule, audit_operator_failure-SameMoney,
}
use monierave.Banking.Reversal.{
  ReverseTransactionTxParams, reversal_pending, make_reversal, reverse_with_queries,
  reverse_transaction_tx,
}
use monierave.Banking.Reversal.Locking.{lock_accounts_for_operator_rule, reversal_plan_sound}
use monierave.Banking.Reversal.Paying.{reverse_balances_rule}
use monierave.Banking.Reversal.Once.{notify_each-books}

-- The mark of a reversal on the accounts, and the books that it leaves: one more transaction, posted,
-- and the original as reversed.
pub record Reversed (u : Uuid) (ss : List ReversalSource) (d d' : Db) : Type 0 where
  pub moved : AccountsMoved (source_change ss) d.accounts d'.accounts
  pub entry : BankingTransaction
  pub rows :
      d'.transactions
      ≡ update_where (reversible u) (as_reversed d.clock) (posted_into d.clock d.transactions entry)
  pub consistent : IsConsistent d'.books

single-of_violation :
    (p : TransactionParams) (rows : List BankingTransaction)
    → transaction_violation p rows ≡ none
    → reversed_twice p.reversal_of rows ≡ false
unfolding transaction_violation
single-of_violation p rows h = ground arith

zero_left : (x y : ℤ) → x +ℤ y ≡ pos 0 → y ≡ pos 0 → x ≡ pos 0
zero_left x y h k = omega (int_laws, ap pos_part h, ap neg_part h, ap pos_part k, ap neg_part k)

module _ (d : Db) (c : IsConsistent d.books) (o : Uuid) (ss : List ReversalSource)
    (sources : SoundSources o d.ledger_accounts d.postings ss)
    (balanced : posting_sum o d.postings ≡ pos 0) (enough : 2 ≤ posting_count o d.postings) where
  open c use {unique_accounts, unique_ledgers, sound, unique_holders}

  module _ (t : BankingTransaction) (next : ℕ) (rows : List LedgerPosting)
      (made : OppositeRows t.id d.ledger_accounts ss rows)
      (ledgers : LedgersMoved (source_change ss) d.ledger_accounts d.postings (d.postings ++ rows))
      (unknown : transaction_by_id t.id d.transactions ≡ none)
      (waiting : is_pending t.status ≡ true)
      (single : reversed_twice t.reversal_of d.transactions ≡ false) where
    IsConsistent-reversed :
        (accounts : List Account)
        → AccountsMoved (source_change ss) d.accounts accounts
        → UniqueKeys account_key accounts
        → SoundBalances accounts
        → IsConsistent (marked_books (entered_books d.books d.clock t rows accounts next) o d.clock)
    IsConsistent-reversed accounts moved unique sound_after =
        IsConsistent-marked (entered_books d.books d.clock t rows accounts next) o d.clock (
          IsConsistent-entered d.books d.clock t rows accounts next c (source_change ss) moved
            (source_change ss) (λ id. refl) unique sound_after ledgers unknown waiting single
            made.own
            (zero_left (book_total rows) (source_total ss) made.total (sources.total ∙ balanced))
            (subst (λ n. 2 ≤ n) (sym (made.count ∙ sources.count)) enough) made.every)

  -- The database once the reversal's rows are there, its balances not yet.
  abbrev rows_in : BankingTransaction → Uuid → List PostingParams → Db
  rows_in t id ps =
      let d1 = with_transactions d (d.transactions ++ t ∷ []) in
      with_postings d1 (d1.postings ++ posted_rows id ps d1) (next_after ps d1.next_posting_id)

  Reversed-of :
      (t : BankingTransaction) (ps : List PostingParams)
      → ps ≡ opposites ss
      → transaction_by_id t.id d.transactions ≡ none
      → is_pending t.status ≡ true
      → reversed_twice t.reversal_of d.transactions ≡ false
      → (accounts : List Account) → AccountsMoved (source_change ss) d.accounts accounts
      → UniqueKeys account_key accounts
      → SoundBalances accounts
      → IsConsistent (
          marked_books
            (entered_books d.books d.clock t
              (posted_rows t.id ps (with_transactions d (d.transactions ++ t ∷ [])))
              accounts
              (next_after ps d.next_posting_id))
            o
            d.clock)
  Reversed-of t ps e unknown waiting single =
      let d1 = with_transactions d (d.transactions ++ t ∷ []) in
      IsConsistent-reversed t (next_after ps d.next_posting_id) (posted_rows t.id ps d1)
        (subst (λ qs. OppositeRows t.id d.ledger_accounts ss (posted_rows t.id qs d1)) (sym e)
          (posted_rows-OppositeRows t.id d.ledger_accounts ss d1 sources.every))
        (subst
          (λ qs.
            LedgersMoved (source_change ss) d.ledger_accounts d.postings
              (d.postings ++ posted_rows t.id qs d1))
          (sym e)
          (LedgersMoved-opposites d.ledger_accounts unique_ledgers unique_holders t.id ss d1
            d.postings sources.every))
        unknown waiting single

  make_reversal-Reversed :
      (p : ReverseTransactionTxParams) (u : Uuid) (original : BankingTransaction)
      → original.id ≡ o
      → Runs AnyError (λ _ d'. Reversed o ss d d') (make_reversal p u original ss) d
  unfolding make_reversal
  make_reversal-Reversed p u original same_id = then_rule (
      lift_rule _
        (λ (ps, ids) plan.
          let (opposite, customers) = reversal_plan_sound d.accounts ss ps ids plan in
          bind_rule (lock_accounts_for_operator_rule ids d) λ (locked, ordered) d0 (same, open_all).
            same_start same (
              then_rule (
                fail_if_rule _ (λ _. tt)
                  λ none_closed. then_rule (
                    create_balanced_transaction_rule (λ _ _. tt) _ ps (λ _. tt) (λ _. tt)
                      (λ _ _. tt) (λ _ _ _. tt)
                      λ id hex positive sum fresh.
                        let t =
                          new_transaction (transaction_params (reversal_pending p original) id hex)
                            d.clock in
                        same_start
                          (posted_db-eq id ps (with_transactions d (d.transactions ++ t ∷ [])))
                          (bind_rule
                            (reverse_balances_rule d.ledger_accounts ss [] (rows_in t id ps)
                              sources.every (customers (open_all none_closed)) unique_accounts
                              sound)
                            λ updated d1 paid. same_start paid.db (
                              then_rule (
                                mark_banking_transaction_posted_rule (λ _ _. tt) _ (λ _. tt)
                                  λ t1 found1. then_rule (
                                    mark_banking_transaction_reversed_rule (λ _ _. tt) _ (λ _. tt)
                                      λ t2 found2. then_rule (
                                        create_operator_audit_rule (λ _ _. tt) _
                                          (bind_rule (notify_each-books p u _ _ _ _) λ _ d2 books.
                                            pure_rule _ (record {
                                              moved =
                                                  subst
                                                    (λ b.
                                                      AccountsMoved (source_change ss) d.accounts
                                                        b.accounts)
                                                    (sym books) paid.moved;
                                              entry = t;
                                              rows =
                                                  subst
                                                    (λ v.
                                                      d2.transactions
                                                      ≡ update_where (reversible v)
                                                          (as_reversed d.clock)
                                                          (posted_into d.clock d.transactions t))
                                                    same_id (ap (λ b. b.transactions) books);
                                              consistent = subst IsConsistent (sym books) (
                                                  subst
                                                    (λ v. IsConsistent (
                                                      marked_books
                                                        (entered_books d.books d.clock t
                                                          (posted_rows t.id ps (
                                                            with_transactions d
                                                            (d.transactions ++ t ∷ [])))
                                                          paid.accounts
                                                          (next_after ps d.next_posting_id))
                                                        v d.clock))
                                                    (sym same_id)
                                                    (Reversed-of t ps opposite
                                                      (transaction_by_id-of_violation _
                                                        d.transactions fresh)
                                                      refl
                                                      (single-of_violation _ d.transactions fresh)
                                                      paid.accounts paid.moved paid.unique
                                                      paid.sound));
                                            })))))))))))
        (λ _ _. tt))

posted_settled :
    (t : BankingTransaction) → not (is_posted t.status) ≡ false → settled t.status ≡ true
posted_settled t h = ground arith

reverse_with_queries-Reversed :
    (p : ReverseTransactionTxParams) (u : Uuid) (d : Db)
    → IsConsistent d.books
    → Runs AnyError
        (λ _ d'.
          Reversed p.transaction_id
            (reversal_sources p.transaction_id d.ledger_accounts d.postings)
            d
            d')
        (reverse_with_queries p u)
        d
unfolding reverse_with_queries list_reversal_source_postings
reverse_with_queries-Reversed p u d c = then_rule (
    on_error_rule _ (
      get_banking_transaction_for_update_rule (λ _ _. tt) _ (λ _. tt)
        λ o found.
          let same =
            (==_iff o.id p.transaction_id).0
              (find_first_sound (has_transaction_id p.transaction_id) d.transactions o found) in
          then_rule (
            fail_if_rule _ (λ _. tt)
              λ _. then_rule (
                fail_if_rule _ (λ _. tt)
                  λ _. then_rule (
                    fail_if_rule _ (λ _. tt)
                      λ posted. then_rule (
                        query_rule _ (λ _ _. tt)
                          (then_rule (
                            fail_if_rule _ (λ _. tt)
                              λ _.
                                let (zero, two) =
                                  c.balanced p.transaction_id o found (posted_settled o posted) in
                                subst
                                  (λ v.
                                    Runs AnyError
                                      (λ _ d'.
                                        Reversed p.transaction_id
                                          (reversal_sources p.transaction_id d.ledger_accounts
                                            d.postings)
                                          d d')
                                      (make_reversal p u o
                                        (reversal_sources v d.ledger_accounts d.postings))
                                      d)
                                  (sym same)
                                  (make_reversal-Reversed d c p.transaction_id _
                                    (reversal_sources-SoundSources p.transaction_id
                                      d.ledger_accounts d.postings c.sound_postings)
                                    zero two p u o same)))))))))

-- From consistent books, a reversal either succeeds, and then every account's balance has moved by
-- the negated amounts of the transaction's postings on the customer's ledger account, no account's
-- status differs, one transaction is added and the original is marked as reversed, and the books are
-- consistent, or it returns an error and no account, ledger row,
-- user or idempotency key differs.
pub reverse_transaction_tx-Reversed :
    (p : ReverseTransactionTxParams) (d : Db)
    → IsConsistent d.books
    → Runs
        (λ _ d'. SameMoney d d')
        (λ _ d'.
          Reversed p.transaction_id
            (reversal_sources p.transaction_id d.ledger_accounts d.postings)
            d
            d')
        (reverse_transaction_tx p)
        d
unfolding reverse_transaction_tx
reverse_transaction_tx-Reversed p d c = then_rule (
    validate_operator_action_rule _ _ _ (λ _. SameMoney-refl d)
      λ u valid.
        catch_rule (exec_tx_rule (reverse_with_queries-Reversed p u d c))
          λ e d' h. same_start (TxError-unchanged h) (audit_operator_failure-SameMoney _ e d))
