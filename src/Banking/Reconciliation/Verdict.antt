-- ===== src/Banking/Reconciliation/Verdict.antt =====
-- The verdict of a reconciliation: a report without issues says that everything in its scope agrees,
-- and consistent books always get one.

use monierave.Base.{
  ℕ, ◌≡◌, refl, true, List, [], ◌∷◌, ◌++◌, Option, none, some, sym, ap, subst, ==_iff, Every,
  Every-weaken, Every-iff, Every-both, length, ◌↔◌, ↔_trans, Every-by_key, order_by, select_rows,
  ltb, select_rows-Every, Every-order_by,
}
use monierave.Models.{Uuid, BankingTransaction}
use monierave.Models.Tables.{Db, Books}
use monierave.Store.Rules.{
  Runs, pure_rule, then_rule, bind_rule, on_error_rule, new_uuid_rule, query_here_rule, Answer-one,
  weaken, same_start,
}
use monierave.Queries.Accounts.{account_by_public_id, get_account_by_public_id}
use monierave.Queries.Records.{create_audit_log}
use monierave.Queries.Reconciliation.{
  account_in_scope, account_issue, account_issues, transaction_in_scope, transaction_issue,
  transaction_issues, duplicate_reversal, duplicate_reversals, list_account_reconciliation_issues,
  list_transaction_reconciliation_issues, list_duplicate_reversal_issues, sooner,
}
use monierave.Books.Invariant.{IsConsistent, account_key, transaction_key}
use monierave.Banking.Notification.{time_now_rule}
use monierave.Banking.Reconciliation.{
  ReconciliationParams, ReconciliationReport, ReconciliationIssue, account_issue_list,
  transaction_issue_list, reversal_issue_list, customer_account, reconcile,
}
use monierave.Banking.Reconciliation.Agreement.{
  account_id, AccountAgrees, TransactionAgrees, customer_of, Agrees, accounts_clear,
  reversals_clear, transactions_clear, append_empty, account_agrees, transaction_row_agrees,
  reversal_row_agrees,
}

module _ (scope : Option Uuid) (b : Books) where
  issues_with : Option ℕ → List ReconciliationIssue
  issues_with customer =
      account_issue_list (account_issues scope b)
      ++ transaction_issue_list (transaction_issues customer b)
      ++ reversal_issue_list (duplicate_reversals customer b)

  all_accounts :
      (length (account_issue_list (account_issues scope b)) ≡ 0)
      ↔ Every (λ a. account_in_scope scope a ≡ true → AccountAgrees b a) b.accounts
  unfolding account_issues
  all_accounts =
      let ordered = order_by (λ x y. ltb x.public_id y.public_id) b.accounts in
      ↔_trans (accounts_clear b (select_rows (account_issue scope b) ordered)) (
        ↔_trans (select_rows-Every (account_issue scope b) ordered) (
          ↔_trans
            (Every-order_by (λ x y. ltb x.public_id y.public_id)
              (λ a. account_issue scope b a ≡ none) b.accounts)
            (Every-iff b.accounts (account_agrees b scope))))

  module _ (customer : Option ℕ) where
    all_transactions :
        (length (transaction_issue_list (transaction_issues customer b)) ≡ 0)
        ↔ Every (λ t. transaction_issue customer b t ≡ none) b.transactions
    unfolding transaction_issues
    all_transactions =
        ↔_trans (transactions_clear b customer (order_by sooner b.transactions))
          (Every-order_by sooner (λ t. transaction_issue customer b t ≡ none) b.transactions)

    all_reversals :
        (length (reversal_issue_list (duplicate_reversals customer b)) ≡ 0)
        ↔ Every (λ t. duplicate_reversal customer b t ≡ none) b.transactions
    unfolding duplicate_reversals
    all_reversals =
        let ordered = order_by sooner b.transactions in
        ↔_trans (reversals_clear b (select_rows (duplicate_reversal customer b) ordered)) (
          ↔_trans (select_rows-Every (duplicate_reversal customer b) ordered)
            (Every-order_by sooner (λ t. duplicate_reversal customer b t ≡ none) b.transactions))

    both_agree :
        (t : BankingTransaction)
        → ((transaction_issue customer b t ≡ none) × (duplicate_reversal customer b t ≡ none))
          ↔ (transaction_in_scope customer b t ≡ true → TransactionAgrees b t)
    both_agree t =
        let (to, back) = transaction_row_agrees b customer t in
        let (out, there) = reversal_row_agrees b customer t in
        (
          λ (h, k) within. (to h within, out k within),
          λ h. (back (λ within. (h within).0), there (λ within. (h within).1)),
        )

  -- The issues are none exactly where everything in the scope agrees.
  issues_with-Agrees : (length (issues_with (customer_of scope b)) ≡ 0) ↔ Agrees scope b
  unfolding issues_with
  issues_with-Agrees = (
    λ h.
        let (most, hr) = (append_empty b (accounts_part ++ transactions_part) _).0 h in
        let (ha, ht) = (append_empty b accounts_part transactions_part).0 most in
        record {
          accounts = all_accounts.0 ha;
          transactions =
              Every-weaken b.transactions (λ t. (both_agree customer t).0)
                (Every-both _ _ b.transactions ((all_transactions customer).0 ht)
                  ((all_reversals customer).0 hr));
        },
    λ h. (append_empty b (accounts_part ++ transactions_part) _).1 (
      (append_empty b accounts_part transactions_part).1 (
        all_accounts.1 h.accounts,
        (all_transactions customer).1
            (Every-weaken b.transactions (λ t k. ((both_agree customer t).1 k).0) h.transactions),
      ),
      (all_reversals customer).1
          (Every-weaken b.transactions (λ t k. ((both_agree customer t).1 k).1) h.transactions),
    ),
  )
    where
      customer : Option ℕ
      customer = customer_of scope b

      accounts_part : List ReconciliationIssue
      accounts_part = account_issue_list (account_issues scope b)

      transactions_part : List ReconciliationIssue
      transactions_part = transaction_issue_list (transaction_issues customer b)

-- Consistent books agree, whatever the scope.
Agrees-of_consistent : (scope : Option Uuid) (b : Books) → IsConsistent b → Agrees scope b
Agrees-of_consistent scope b c = record {
  accounts =
      Every-weaken b.accounts
        (λ a e _. let (l, el) = c.has_ledgers a.id a e in (l, el, c.cached a.id a l e el))
        (Every-by_key account_key b.accounts c.unique_accounts);
  transactions =
      Every-weaken b.transactions (λ t e _. (λ s. c.balanced t.id t e s, c.one_reversal t.id))
        (Every-by_key transaction_key b.transactions c.unique_transactions);
}

-- What a reconciliation reports of the database that it found: the books are as they were, and the
-- verdict is that of the scope.
pub record Reported (p : ReconciliationParams) (d : Db) (r : ReconciliationReport) (d' : Db)
    : Type 0 where
  pub same_books : d'.books ≡ d.books
  pub verdict : (r.consistent ≡ true) ↔ Agrees p.account_public_id d.books
  pub no_issues : (r.consistent ≡ true) ↔ (length r.issues ≡ 0)

customer_account_rule :
    (scope : Option Uuid) (d : Db)
    → Runs
        (λ _ d'. d' ≡ d)
        (λ c d'. (c ≡ customer_of scope d.books) × (d' ≡ d))
        (customer_account scope)
        d
unfolding customer_account get_account_by_public_id
customer_account_rule none d = pure_rule none (refl, refl)
customer_account_rule (some u) d = then_rule (
    on_error_rule _ (
      query_here_rule _ (λ _. refl)
        (Answer-one (λ _ d'. d' ≡ d) _ d (account_by_public_id u d.accounts) _ (λ _. refl)
          λ a found. pure_rule _ (ap account_id (sym found), refl))))

-- A reconciliation changes no account and no ledger row, whether it succeeds or not. One that succeeds
-- reports the books as consistent exactly where everything in its scope agrees: every account in it has a
-- ledger account whose postings add up to the cached balance, every transaction in it that took
-- effect has two postings at least, which add up to nothing, and is reversed by one at most.
pub reconcile-Reported :
    (p : ReconciliationParams) (d : Db) → Runs (λ _ d'. d' ≡ d) (Reported p d) (reconcile p) d
unfolding reconcile list_account_reconciliation_issues list_transaction_reconciliation_issues
    list_duplicate_reversal_issues create_audit_log issues_with
reconcile-Reported p d = then_rule (
    new_uuid_rule λ run. then_rule (
      time_now_rule (
        bind_rule (customer_account_rule p.account_public_id d) λ customer d0 (same_customer, same).
          same_start same (
            then_rule (
              query_here_rule _ (λ _. refl)
                (then_rule (
                  query_here_rule _ (λ _. refl)
                    (then_rule (
                      query_here_rule _ (λ _. refl)
                        (then_rule (
                          query_here_rule _ (λ _. refl)
                            (pure_rule _ (record {
                              same_books = refl;
                              verdict = ↔_trans (==_iff _ 0) (
                                  subst
                                    (λ k.
                                      (length (issues_with p.account_public_id d.books k) ≡ 0)
                                      ↔ Agrees p.account_public_id d.books)
                                    (sym same_customer)
                                    (issues_with-Agrees p.account_public_id d.books));
                              no_issues = ==_iff _ 0;
                            })))))))))))))

-- On consistent books, a reconciliation of any scope that succeeds reports no issue; whether it succeeds
-- or not, it changes no account and no ledger row.
pub reconcile-IsConsistent :
    (p : ReconciliationParams) (d : Db)
    → IsConsistent d.books
    → Runs
        (λ _ d'. d' ≡ d)
        (λ r d'. (r.consistent ≡ true) × (r.issues ≡ []) × (d'.books ≡ d.books))
        (reconcile p)
        d
reconcile-IsConsistent p d c =
    weaken (reconcile-Reported p d)
      (λ r d' h.
        let clear = h.verdict.1 (Agrees-of_consistent p.account_public_id d.books c) in
        (clear, empty r.issues (h.no_issues.0 clear), h.same_books))
      (λ _ _ e. e)
  where
    empty : (xs : List ReconciliationIssue) → length xs ≡ 0 → xs ≡ []
    empty [] h = refl
    empty (x ∷ xs) h = cc
