-- ===== src/Banking/Movement/Effect.antt =====
-- What a deposit or a withdrawal that succeeds has done.
use monierave.Base.{
  ℕ, suc, String, ◌≡◌, refl, Bool, true, false, ◌&&◌, none, some, ℤ, pos, leb_ℤ, neg64,
  if◌then◌else◌, find_first, by_key-key, sym, subst,
}
use monierave.Models.{
  Uuid, Account, LedgerAccount, BankingTransaction, LedgerPosting, is_withdrawal, is_closed,
  is_frozen,
}
use monierave.Models.Tables.{Db}
use monierave.Store.Rules.{Runs, AnyError, pure_rule, on_error_rule, fail_if_rule, then_rule}
use monierave.Queries.Accounts.{
  account_by_id, account_by_public_id, covers, credited, with_accounts,
  add_account_balance_internal, get_account_by_public_id_rule, get_account_for_update_rule,
  add_account_balance_internal_rule,
}
use monierave.Queries.Ledger.{
  customer_ledger, settlement_ledger, new_transaction, transaction_violation, new_posting,
}
use monierave.Queries.Ledger.Rules.{
  get_settlement_ledger_account_rule, mark_banking_transaction_posted_rule,
}
use monierave.Books.Invariant.{account_key}
use monierave.Books.Credits.{after_credit}
use monierave.Books.Movement.{moved_books}
use monierave.Banking.Audit.{create_financial_audit_rule}
use monierave.Banking.Notification.{create_financial_notification_rule}
use monierave.Banking.Posting.{transaction_params, subtract_account_balance}
use monierave.Banking.Posting.Rules.{
  create_balanced_transaction_rule, customer_ledger_account_rule, subtract_account_balance_rule,
}
use monierave.Banking.Movement.{
  MovementParams, MoneyMovementTxResult, customer_change, settlement_change, movement_pending,
  move_balance, settlement_movement,
}

module _ (p : MovementParams) (actor : String) (d : Db) (account : Account) (s c : LedgerAccount)
    (id : Uuid) (hex : String) where
  abbrev pub movement_row : BankingTransaction
  movement_row =
      new_transaction (transaction_params (movement_pending p actor account) id hex) d.clock

  abbrev pub settlement_row : LedgerPosting
  settlement_row = new_posting id s.id (settlement_change p) d

  abbrev pub customer_row : LedgerPosting
  customer_row = record (new_posting id c.id (customer_change p) d) { id = suc d.next_posting_id }

pub record MovementEffect (p : MovementParams) (actor : String) (d : Db) (r : MoneyMovementTxResult)
    (d' : Db) : Type 0 where
  pub account : Account
  pub asked :
      (a : Account) × (account_by_public_id p.account_public_id d.accounts ≡ some a)
      × (a.id ≡ account.id)
  pub row : account_by_id account.id d.accounts ≡ some account
  pub not_closed : is_closed account.status ≡ false
  pub may_send : (is_withdrawal p.transaction_type && is_frozen account.status) ≡ false
  pub customer : LedgerAccount
  pub customer_ledger_row : customer_ledger account.id d.ledger_accounts ≡ some customer
  pub settlement : LedgerAccount
  pub settlement_ledger_row : settlement_ledger account.currency d.ledger_accounts ≡ some settlement
  pub id : Uuid
  pub hex : String
  pub positive : leb_ℤ p.amount (pos 0) ≡ false
  pub fresh :
      transaction_violation
        (transaction_params (movement_pending p actor account) id hex)
        d.transactions
      ≡ none
  pub changed : Account
  pub changed_row : find_first (covers account.id (customer_change p)) d.accounts ≡ some changed
  pub books :
      d'.books
      ≡ moved_books d.books d.clock
          (movement_row p actor d account settlement customer id hex)
          (settlement_row p actor d account settlement customer id hex)
          (customer_row p actor d account settlement customer id hex)
          (after_credit account.id (customer_change p) d.clock d.accounts)
          (suc (suc d.next_posting_id))
  pub account_result : r.account ≡ credited (customer_change p) d.clock changed

move_balance_by :
    {Q : Account → Db → Type 0} {d : Db} (w : Bool) (x : ℤ) (id : ℕ)
    → ((a : Account)
        → find_first (covers id (if w then neg64 x else x)) d.accounts ≡ some a
        → Q
            (credited (if w then neg64 x else x) d.clock a)
            (with_accounts d (after_credit id (if w then neg64 x else x) d.clock d.accounts)))
    → Runs AnyError Q
        (if w then subtract_account_balance id x else add_account_balance_internal id x)
        d
move_balance_by true x id h = subtract_account_balance_rule (λ _ _. tt) id x (λ _. tt) h
move_balance_by false x id h = add_account_balance_internal_rule (λ _ _. tt) id x (λ _. tt) h

move_balance_rule :
    {Q : Account → Db → Type 0} {d : Db} (p : MovementParams) (account : Account)
    → ((a : Account)
        → find_first (covers account.id (customer_change p)) d.accounts ≡ some a
        → Q
            (credited (customer_change p) d.clock a)
            (with_accounts d (after_credit account.id (customer_change p) d.clock d.accounts)))
    → Runs AnyError Q (move_balance p account) d
unfolding move_balance
move_balance_rule p account h =
    move_balance_by (is_withdrawal p.transaction_type) p.amount account.id h

pub settlement_movement-effect :
    (p : MovementParams) (actor : String) (correlation : Uuid) (d : Db)
    → Runs AnyError (MovementEffect p actor d) (settlement_movement p actor correlation) d
unfolding settlement_movement
settlement_movement-effect p actor correlation d = then_rule (
    on_error_rule _ (
      get_account_by_public_id_rule (λ _ _. tt) _ (λ _. tt)
        λ seen es. then_rule (
          get_account_for_update_rule (λ _ _. tt) _ (λ _. tt)
            λ account ea. then_rule (
              fail_if_rule _ (λ _. tt)
                λ closed. then_rule (
                  fail_if_rule _ (λ _. tt)
                    λ frozen. then_rule (
                      customer_ledger_account_rule (λ _ _. tt) _ (λ _. tt)
                        λ c ec. then_rule (
                          get_settlement_ledger_account_rule (λ _ _. tt) _ (λ _. tt)
                            λ s el. then_rule (
                              create_balanced_transaction_rule (λ _ _. tt) _ _ (λ _. tt) (λ _. tt)
                                (λ _ _. tt) (λ _ _ _. tt)
                                λ id hex positive total fresh. then_rule (
                                  create_financial_audit_rule (λ _ _. tt) _
                                    (then_rule (
                                      move_balance_rule p account λ b eb. then_rule (
                                        mark_banking_transaction_posted_rule (λ _ _. tt) _ (λ _. tt)
                                          λ t et. then_rule (
                                            create_financial_audit_rule (λ _ _. tt) _
                                              (then_rule (
                                                create_financial_notification_rule (λ _ _. tt) _
                                                  (λ _. tt)
                                                  λ u e j _. pure_rule _ (record {
                                                    account = account;
                                                    asked = (
                                                      seen,
                                                      es,
                                                      sym (
                                                          by_key-key account_key seen.id d.accounts
                                                            account ea),
                                                    );
                                                    row =
                                                        subst
                                                          (λ k.
                                                            account_by_id k d.accounts
                                                            ≡ some account)
                                                          (sym (
                                                            by_key-key account_key seen.id
                                                            d.accounts account ea))
                                                          ea;
                                                    not_closed = closed;
                                                    may_send = frozen;
                                                    customer = c;
                                                    customer_ledger_row = ec;
                                                    settlement = s;
                                                    settlement_ledger_row = el;
                                                    id = id;
                                                    hex = hex;
                                                    positive = positive;
                                                    fresh = fresh;
                                                    changed = b;
                                                    changed_row = eb;
                                                    books = refl;
                                                    account_result = refl;
                                                  }))))))))))))))))
