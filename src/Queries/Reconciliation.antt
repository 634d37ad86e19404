-- ===== src/Queries/Reconciliation.antt =====
-- The queries of db/sqlc/reconciliation.sql.go: the accounts whose cached balance is not the sum of
-- their postings, the transactions that took effect without balancing, and the transactions that are
-- reversed by more than one.
use monierave.Base.{
  ℕ, String, List, Option, none, some, Bool, true, false, ◌&&◌, ◌||◌, ℤ, pos, ◌==ℤ◌, ◌==◌, ltb, not,
  if◌then◌else◌, find_first, select_rows, order_by, count_where,
}
use monierave.Models.{
  Uuid, Account, BankingTransaction, TransactionStatus, LedgerAccount, LedgerPosting, is_posted,
  is_reversed,
}
use monierave.Models.Tables.{Books}
use monierave.Store.{Tx, query, ok}
use monierave.Queries.Ledger.{customer_ledger, ledger_by_id, reverses, is_some}
use monierave.Books.Sums.{ledger_balance, posting_sum, posting_count}

-- ListAccountReconciliationIssuesRow
pub record AccountIssueRow : Type 0 where
  pub account_public_id : Uuid
  pub currency : String
  pub cached_balance : ℤ
  pub customer_ledger_account_id : Option ℕ
  pub ledger_balance : ℤ

-- WHERE $1 IS NULL OR account.public_id = $1
abbrev pub account_in_scope : Option Uuid → Account → Bool
account_in_scope none a = true
account_in_scope (some u) a = a.public_id == u

-- The row of an account and its ledger account, under HAVING.
abbrev pub account_row :
    List LedgerPosting → Account → Option LedgerAccount → Option AccountIssueRow
account_row postings a none = some (record {
  account_public_id = a.public_id;
  currency = a.currency;
  cached_balance = a.balance;
  customer_ledger_account_id = none;
  ledger_balance = pos 0;
})
account_row postings a (some l) =
    if a.balance ==ℤ ledger_balance l.id postings
    then none
    else some (record {
      account_public_id = a.public_id;
      currency = a.currency;
      cached_balance = a.balance;
      customer_ledger_account_id = some l.id;
      ledger_balance = ledger_balance l.id postings;
    })

abbrev pub account_issue : Option Uuid → Books → Account → Option AccountIssueRow
account_issue scope b a =
    let row = account_row b.postings a (customer_ledger a.id b.ledger_accounts) in
    if account_in_scope scope a then row else none

unfoldable pub account_issues : Option Uuid → Books → List AccountIssueRow
account_issues scope b =
    select_rows (account_issue scope b) (order_by (λ x y. ltb x.public_id y.public_id) b.accounts)

unfoldable pub list_account_reconciliation_issues : Option Uuid → Tx (List AccountIssueRow)
unfolding account_issues
list_account_reconciliation_issues scope = query (λ d. ok (account_issues scope d.books, d))

abbrev pub is_number : ℕ → Option ℕ → Bool
is_number n none = false
is_number n (some m) = m == n

abbrev pub is_ledger_of : ℕ → Option LedgerAccount → Bool
is_ledger_of id none = false
is_ledger_of id (some l) = is_number id l.customer_account_id

-- WHERE $1 IS NULL OR EXISTS (… a posting of the transaction on a ledger account of the customer …)
abbrev pub transaction_in_scope : Option ℕ → Books → BankingTransaction → Bool
transaction_in_scope none b t = true
transaction_in_scope (some id) b t = is_some (
    find_first
      (λ (p : LedgerPosting).
        p.transaction_id == t.id
        && is_ledger_of id (ledger_by_id p.ledger_account_id b.ledger_accounts))
      b.postings)

-- ListTransactionReconciliationIssuesRow
pub record TransactionIssueRow : Type 0 where
  pub transaction_id : Uuid
  pub reference : String
  pub status : TransactionStatus
  pub posting_count : ℕ
  pub posting_total : ℤ

abbrev pub transaction_issue : Option ℕ → Books → BankingTransaction → Option TransactionIssueRow
transaction_issue scope b t =
    if (is_posted t.status || is_reversed t.status)
      && transaction_in_scope scope b t
      && (ltb (posting_count t.id b.postings) 2 || not (posting_sum t.id b.postings ==ℤ pos 0))
    then some (record {
      transaction_id = t.id;
      reference = t.reference;
      status = t.status;
      posting_count = posting_count t.id b.postings;
      posting_total = posting_sum t.id b.postings;
    })
    else none

-- ORDER BY transaction.created_at, transaction.id
abbrev pub sooner : BankingTransaction → BankingTransaction → Bool
sooner t v = ltb t.created_at v.created_at || t.created_at == v.created_at && ltb t.id v.id

unfoldable pub transaction_issues : Option ℕ → Books → List TransactionIssueRow
transaction_issues scope b =
    select_rows (transaction_issue scope b) (order_by sooner b.transactions)

unfoldable pub list_transaction_reconciliation_issues : Option ℕ → Tx (List TransactionIssueRow)
unfolding transaction_issues
list_transaction_reconciliation_issues scope = query (λ d. ok (transaction_issues scope d.books, d))

-- ListDuplicateReversalIssuesRow
pub record DuplicateReversalRow : Type 0 where
  pub original_transaction_id : Uuid
  pub original_reference : String
  pub reversal_count : ℕ

abbrev pub duplicate_reversal : Option ℕ → Books → BankingTransaction → Option DuplicateReversalRow
duplicate_reversal scope b t =
    if transaction_in_scope scope b t && ltb 1 (count_where (reverses t.id) b.transactions)
    then some (record {
      original_transaction_id = t.id;
      original_reference = t.reference;
      reversal_count = count_where (reverses t.id) b.transactions;
    })
    else none

unfoldable pub duplicate_reversals : Option ℕ → Books → List DuplicateReversalRow
duplicate_reversals scope b =
    select_rows (duplicate_reversal scope b) (order_by sooner b.transactions)

unfoldable pub list_duplicate_reversal_issues : Option ℕ → Tx (List DuplicateReversalRow)
unfolding duplicate_reversals
list_duplicate_reversal_issues scope = query (λ d. ok (duplicate_reversals scope d.books, d))
