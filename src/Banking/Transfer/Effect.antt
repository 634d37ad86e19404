-- ===== src/Banking/Transfer/Effect.antt =====
-- What a transfer that succeeds has done, statement by statement of `transfer_with_queries`.

use monierave.Base.{
  suc, and_true, eq_iff, true_of_not, or_false, ◌||◌, String, ◌≡◌, refl, [], ◌∷◌, ◌++◌, false, not,
  none, some, ℤ, pos, ltb_ℤ, leb_ℤ, ==_iff, str_eq, neg64, sub64, find_first, update_where,
  find_first_sound,
}
use monierave.Models.{
  Uuid, Account, LedgerAccount, BankingTransaction, LedgerPosting, is_frozen, is_closed,
  TransferTxResult,
}
use monierave.Models.Tables.{Db, Books}
use monierave.Store.{ok}
use monierave.Store.Rules.{Runs, AnyError, pure_rule, lift_rule, fail_if_rule, then_rule}
use monierave.Queries.Accounts.{covers, credited, add_account_balance_internal_rule}
use monierave.Queries.Ledger.{
  customer_ledger, new_transaction, transaction_violation, daily_outgoing_total, postable,
  as_posted, new_posting,
}
use monierave.Queries.Ledger.Rules.{
  get_daily_outgoing_transfer_total_rule, mark_banking_transaction_posted_rule,
}
use monierave.Books.Credits.{after_credit}
use monierave.Banking.Audit.{create_financial_audit_rule}
use monierave.Banking.Notification.{create_financial_notification_rule}
use monierave.Banking.Posting.{transaction_params}
use monierave.Banking.Posting.Rules.{
  create_balanced_transaction_rule, customer_ledger_account_rule, subtract_account_balance_rule,
}
use monierave.Banking.Transfer.{
  post_transfer, TransferTxParams, transfer_limits, wrong_currency, transfer_pending,
  transfer_with_queries,
}
use monierave.Banking.Transfer.Locking.{Locked, load_and_lock_transfer_accounts_rule}

-- The books after a transfer: the pending transaction is there and posted, its two postings are
-- there, and the two cached balances have moved.
module _ (p : TransferTxParams) (d : Db) (from to : Account) (from_ledger to_ledger : LedgerAccount)
    (id : Uuid) (hex : String) where
  abbrev pub transfer_row : BankingTransaction
  transfer_row = new_transaction (transaction_params (transfer_pending p) id hex) d.clock

  abbrev pub debit_row : LedgerPosting
  debit_row = new_posting id from_ledger.id (neg64 p.amount) d

  abbrev pub credit_row : LedgerPosting
  credit_row = record (new_posting id to_ledger.id p.amount d) { id = suc d.next_posting_id }

  abbrev pub transferred_books : Books
  transferred_books = record d.books {
    accounts =
        after_credit to.id p.amount d.clock
          (after_credit from.id (neg64 p.amount) d.clock d.accounts);
    transactions =
        update_where (postable id) (as_posted d.clock) (d.transactions ++ transfer_row ∷ []);
    postings = (d.postings ++ debit_row ∷ []) ++ credit_row ∷ [];
    next_posting_id = suc (suc d.next_posting_id);
  }

pub record TransferEffect (p : TransferTxParams) (d : Db) (r : TransferTxResult) (d' : Db)
    : Type 0 where
  pub from : Account
  pub to : Account
  pub locked : Locked p d from to
  pub owned : from.owner ≡ p.username
  pub same_currency : (from.currency ≡ p.currency) × (to.currency ≡ p.currency)
  pub not_frozen : is_frozen from.status ≡ false
  pub both_open : (is_closed from.status || is_closed to.status) ≡ false
  pub per_transfer_limit : ℤ
  pub daily_limit : ℤ
  pub limits : transfer_limits p.currency ≡ ok (per_transfer_limit, daily_limit)
  pub within_limit : ltb_ℤ per_transfer_limit p.amount ≡ false
  pub from_ledger : LedgerAccount
  pub from_ledger_row : customer_ledger from.id d.ledger_accounts ≡ some from_ledger
  pub within_day :
      ltb_ℤ
        (sub64 daily_limit p.amount)
        (daily_outgoing_total from_ledger.id d.clock d.transactions d.postings)
      ≡ false
  pub to_ledger : LedgerAccount
  pub to_ledger_row : customer_ledger to.id d.ledger_accounts ≡ some to_ledger
  pub positive : leb_ℤ p.amount (pos 0) ≡ false
  pub id : Uuid
  pub hex : String
  pub fresh :
      transaction_violation (transaction_params (transfer_pending p) id hex) d.transactions ≡ none
  pub debited : Account
  pub debited_row : find_first (covers from.id (neg64 p.amount)) d.accounts ≡ some debited
  pub credited_to : Account
  pub credited_row :
      find_first (covers to.id p.amount) (after_credit from.id (neg64 p.amount) d.clock d.accounts)
      ≡ some credited_to
  pub books : d'.books ≡ transferred_books p d from to from_ledger to_ledger id hex
  pub keys : d'.idempotency_keys ≡ d.idempotency_keys
  pub clock : d'.clock ≡ d.clock
  pub transaction_result : r.transaction.id ≡ id
  pub from_result : r.from_account ≡ credited (neg64 p.amount) d.clock debited
  pub to_result : r.to_account ≡ credited p.amount d.clock credited_to
  pub postings_result :
      r.postings
      ≡ debit_row p d from to from_ledger to_ledger id hex
        ∷ credit_row p d from to from_ledger to_ledger id hex
        ∷ []

same_currencies :
    (p : TransferTxParams) (from to : Account)
    → wrong_currency p from to ≡ false
    → (from.currency ≡ p.currency) × (to.currency ≡ p.currency)
same_currencies p from to h =
    let both = or_false (not (str_eq from.currency p.currency)) _ h in
    (
      (eq_iff from.currency p.currency).0 (true_of_not both.0),
      (eq_iff to.currency p.currency).0 (true_of_not both.1),
    )

pub transfer_with_queries-effect :
    (p : TransferTxParams) (correlation : Uuid) (d : Db)
    → Runs AnyError (TransferEffect p d) (transfer_with_queries p correlation) d
unfolding transfer_with_queries post_transfer
transfer_with_queries-effect p correlation d = then_rule (
    load_and_lock_transfer_accounts_rule p λ from to locked. then_rule (
      fail_if_rule _ (λ _. tt)
        λ owned. then_rule (
          fail_if_rule _ (λ _. tt)
            λ currency. then_rule (
              fail_if_rule _ (λ _. tt)
                λ frozen. then_rule (
                  fail_if_rule _ (λ _. tt)
                    λ closed. then_rule (
                      lift_rule _
                        (λ (per, daily) limits. then_rule (
                          fail_if_rule _ (λ _. tt)
                            λ within. then_rule (
                              customer_ledger_account_rule (λ _ _. tt) _ (λ _. tt)
                                λ fl efl. then_rule (
                                  get_daily_outgoing_transfer_total_rule (λ _ _. tt) _
                                    (then_rule (
                                      fail_if_rule _ (λ _. tt)
                                        λ day. then_rule (
                                          customer_ledger_account_rule (λ _ _. tt) _ (λ _. tt)
                                            λ tl etl. then_rule (
                                              create_balanced_transaction_rule (λ _ _. tt) _ _
                                                (λ _. tt) (λ _. tt) (λ _ _. tt) (λ _ _ _. tt)
                                                λ id hex positive total fresh. then_rule (
                                                  create_financial_audit_rule (λ _ _. tt) _
                                                    (then_rule (
                                                      subtract_account_balance_rule (λ _ _. tt) _ _
                                                        (λ _. tt)
                                                        λ a ea. then_rule (
                                                          add_account_balance_internal_rule
                                                            (λ _ _. tt) _ _ (λ _. tt)
                                                            λ b eb. then_rule (
                                                            mark_banking_transaction_posted_rule
                                                            (λ _ _. tt) _ (λ _. tt)
                                                            λ t et. then_rule (
                                                            create_financial_audit_rule (λ _ _. tt)
                                                            _
                                                            (then_rule (
                                                            create_financial_notification_rule
                                                            (λ _ _. tt) _ (λ _. tt)
                                                            λ u1 e1 j1 _. then_rule (
                                                            create_financial_notification_rule
                                                            (λ _ _. tt) _ (λ _. tt)
                                                            λ u2 e2 j2 _. pure_rule _ (record {
                                                            from = from;
                                                            to = to;
                                                            locked = locked;
                                                            owned =
                                                            (eq_iff from.owner p.username).0
                                                            (true_of_not owned);
                                                            same_currency =
                                                            same_currencies p from to currency;
                                                            not_frozen = frozen;
                                                            both_open = closed;
                                                            per_transfer_limit = per;
                                                            daily_limit = daily;
                                                            limits = limits;
                                                            within_limit = within;
                                                            from_ledger = fl;
                                                            from_ledger_row = efl;
                                                            within_day = day;
                                                            to_ledger = tl;
                                                            to_ledger_row = etl;
                                                            positive = positive;
                                                            id = id;
                                                            hex = hex;
                                                            fresh = fresh;
                                                            debited = a;
                                                            debited_row = ea;
                                                            credited_to = b;
                                                            credited_row = eb;
                                                            books = refl;
                                                            keys = refl;
                                                            clock = refl;
                                                            transaction_result =
                                                            (==_iff _ _).0
                                                            (and_true (
                                                            find_first_sound (postable id) _ t
                                                            et)).0;
                                                            from_result = refl;
                                                            to_result = refl;
                                                            postings_result = refl;
                                                            }))))))))))))))))))
                        (λ _ _. tt)))))))
