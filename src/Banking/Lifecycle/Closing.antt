-- ===== src/Banking/Lifecycle/Closing.antt =====
-- How closing an account can end.
use monierave.Base.{
  ℕ, ◌≡◌, refl, Bool, true, false, not, some, ℤ, pos, ◌==ℤ◌, sym, subst, find_first, update_where,
  str_eq, arith,
}
use monierave.Models.{Time, Account, is_closed}
use monierave.Models.Tables.{Db, Books}
use monierave.Store.Rules.{
  Runs, AnyError, pure_rule, then_rule, weaken, on_error_rule, fail_if_rule,
}
use monierave.Store.Atomic.{TxError-unchanged, exec_tx_rule}
use monierave.Queries.Accounts.{
  account_by_public_id, get_account_by_public_id_for_update_rule, close_account_rule, closable,
  as_closed,
}
use monierave.Books.Invariant.{IsConsistent}
use monierave.Books.Status.{with_rows, IsConsistent-updated}
use monierave.Banking.Audit.{create_financial_audit_rule}
use monierave.Banking.Notification.{create_financial_notification_rule}
use monierave.Banking.Lifecycle.{CloseAccountTxParams, close_account_with_queries, close_account_tx}

-- The caller's account was open and empty, and its row is now the closed one.
pub record Closed (p : CloseAccountTxParams) (d : Db) (a : Account) (d' : Db) : Type 0 where
  pub account : Account
  pub found : account_by_public_id p.public_id d.accounts ≡ some account
  pub owned : str_eq account.owner p.username ≡ true
  pub was_open : is_closed account.status ≡ false
  pub empty_balance : account.balance ≡ pos 0
  pub row : Account
  pub row_found : find_first (closable account.id) d.accounts ≡ some row
  pub result : a ≡ as_closed d.clock row
  pub books :
      d'.books
      ≡ with_rows d.books (update_where (closable account.id) (as_closed d.clock) d.accounts)

not-false : (b : Bool) → not b ≡ false → b ≡ true
not-false b h = ground arith

zero_of_test : (x : ℤ) → not (x ==ℤ pos 0) ≡ false → x ≡ pos 0
zero_of_test x h = ground arith

close_account_with_queries-Closed :
    (p : CloseAccountTxParams) (d : Db)
    → Runs AnyError (Closed p d) (close_account_with_queries p) d
unfolding close_account_with_queries
close_account_with_queries-Closed p d = then_rule (
    on_error_rule _ (
      get_account_by_public_id_for_update_rule (λ _ _. tt) _ (λ _. tt)
        λ a found. then_rule (
          fail_if_rule _ (λ _. tt)
            λ own. then_rule (
              fail_if_rule _ (λ _. tt)
                λ open_status. then_rule (
                  fail_if_rule _ (λ _. tt)
                    λ empty. then_rule (
                      close_account_rule (λ _ _. tt) _ (λ _. tt)
                        λ row row_found. then_rule (
                          create_financial_audit_rule (λ _ _. tt) _
                            (then_rule (
                              create_financial_notification_rule (λ _ _. tt) _ (λ _. tt)
                                λ u ev j _. pure_rule _ (record {
                                  account = a;
                                  found = found;
                                  owned = not-false _ own;
                                  was_open = open_status;
                                  empty_balance = zero_of_test a.balance empty;
                                  row = row;
                                  row_found = row_found;
                                  result = refl;
                                  books = refl;
                                }))))))))))

closable-empty : (id : ℕ) (x : Account) → closable id x ≡ true → x.balance ≡ pos 0
closable-empty id x h = ground arith

closed-IsConsistent :
    (id : ℕ) (now : Time) (b : Books)
    → IsConsistent b
    → IsConsistent (with_rows b (update_where (closable id) (as_closed now) b.accounts))
closed-IsConsistent id now b c =
    IsConsistent-updated (closable id) (as_closed now) (λ x. refl) (λ x. refl)
      (λ x h _. closable-empty id x h) b c

-- From consistent books, closing an account either closes the caller's own open account with a zero
-- balance, and the books stay consistent, or returns an error and leaves the whole database as it was.
pub close_account_tx-outcome :
    (p : CloseAccountTxParams) (d : Db)
    → IsConsistent d.books
    → Runs (λ _ d'. d' ≡ d) (λ a d'. Closed p d a d' × IsConsistent d'.books) (close_account_tx p) d
unfolding close_account_tx
close_account_tx-outcome p d c =
    weaken (exec_tx_rule (close_account_with_queries-Closed p d))
      (λ a d' t.
        (t, subst IsConsistent (sym t.books) (closed-IsConsistent t.account.id d.clock d.books c)))
      (λ e d' h. TxError-unchanged h)
