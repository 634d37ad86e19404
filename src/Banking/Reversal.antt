-- ===== src/Banking/Reversal.antt =====
-- Reversing a transaction: `ReverseTransactionTx` of db/sqlc/operator_tx.go.
pub mod Once
pub mod Marked
pub mod Permanent
pub mod Invariant
pub mod Locking
pub mod Paying
use Prim.Native.String.{◌++◌ as append_text}
use monierave.Base.{
  ℕ, String, List, [], ◌∷◌, ◌++◌, Bool, true, false, ◌||◌, not, Option, none, some, ℤ, pos, ltb,
  ltb_ℤ, ◌==◌, neg64, length, find_first, trim_space, if◌then◌else◌, select,
}
use monierave.Models.{
  Uuid, Account, active, is_closed, is_customer, is_posted, is_reversed, is_reversal, reversal,
  BankingTransaction, LedgerPosting, AuditLog, text, uuid_or_empty, Error, not_found_as,
  transaction_not_found, transaction_not_reversible, transaction_already_reversed,
  transaction_not_posted, insufficient_ledger_postings, missing_customer_account, account_closed,
  insufficient_balance, reversal_insufficient_funds,
}
use monierave.Store.{
  Tx, Result, ok, err, pure, raise, lift, ◌>>=◌, ◌>>◌, fail_if, on_error, exec_tx, catch,
}
use monierave.Queries.Accounts.{get_account_for_update, add_account_balance_internal}
use monierave.Queries.Ledger.{
  get_banking_transaction_for_update, mark_banking_transaction_posted,
  mark_banking_transaction_reversed,
}
use monierave.Queries.Reversal.{ReversalSource, list_reversal_source_postings}
use monierave.Banking.Audit.{OperatorAuditParams, create_operator_audit}
use monierave.Banking.Notification.{FinancialNotificationParams, create_financial_notification}
use monierave.Banking.Posting.{
  PendingTransactionParams, PostingParams, create_balanced_transaction, subtract_account_balance,
}
use monierave.Banking.Lifecycle.{validate_operator_action, audit_operator_failure}
use monierave.Banking.ReversalPlan.{
  source_account, opposite_posting, reversal_plan, insert_id, ordered_ids, lock_each,
  lock_accounts_for_operator, any_closed, Updated, put, funds_missing, reverse_balance,
  reverse_balances, entries, accounts_of,
}

pub record ReverseTransactionTxParams : Type 0 where
  pub transaction_id : Uuid
  pub actor : String
  pub reason : String
  pub correlation_id : Option Uuid

pub record ReverseTransactionTxResult : Type 0 where
  pub original : BankingTransaction
  pub reversal : BankingTransaction
  pub postings : List LedgerPosting
  pub accounts : List Account
  pub audit_log : AuditLog

abbrev pub reversal_pending :
    ReverseTransactionTxParams → BankingTransaction → PendingTransactionParams
reversal_pending p original = record {
  transaction_type = reversal;
  currency = original.currency;
  amount = original.amount;
  narration = append_text "Reversal: " (trim_space p.reason);
  initiated_by = trim_space p.actor;
  reversal_of = some original.id;
}

abbrev pub reversal_audit :
    ReverseTransactionTxParams
    → Uuid
    → BankingTransaction
    → BankingTransaction
    → OperatorAuditParams
reversal_audit p correlation original made = record {
  entity_type = "banking_transaction";
  entity_id = original.id;
  correlation_id = correlation;
  event_type = "transaction_reversed";
  actor = p.actor;
  from_state = "posted";
  to_state = "reversed";
  reason = p.reason;
  metadata =
      ("original_reference", text original.reference)
      ∷ ("reversal_transaction_id", uuid_or_empty (some made.id))
      ∷ ("reversal_reference", text made.reference)
      ∷ [];
}

abbrev pub reversal_notification :
    ReverseTransactionTxParams
    → Uuid
    → BankingTransaction
    → BankingTransaction
    → Updated
    → FinancialNotificationParams
reversal_notification p correlation original made u = record {
  username = u.account.owner;
  event_type = "transaction.reversed";
  entity_type = "banking_transaction";
  entity_id = original.id;
  correlation_id = correlation;
  reference = original.reference;
  amount = original.amount;
  currency = original.currency;
  direction = u.direction;
  occurred_at = made.posted_at;
  account_status = "";
  reason = p.reason;
}

unfoldable pub notify_each :
    ReverseTransactionTxParams
    → Uuid
    → BankingTransaction
    → BankingTransaction
    → List Updated
    → Tx (Unit {0})
notify_each p correlation original made [] = pure tt
notify_each p correlation original made (u ∷ us) = do
  create_financial_notification (reversal_notification p correlation original made u)
  notify_each p correlation original made us

-- What is left once the original is known to be reversible.
unfoldable pub make_reversal :
    ReverseTransactionTxParams
    → Uuid
    → BankingTransaction
    → List ReversalSource
    → Tx ReverseTransactionTxResult
make_reversal p correlation original sources = do
  (opposite_postings, account_ids) ← lift (reversal_plan sources)
  (locked_accounts, ordered) ← lock_accounts_for_operator account_ids
  fail_if (any_closed locked_accounts) account_closed
  (pending, postings) ← create_balanced_transaction (reversal_pending p original) opposite_postings
  updated ← reverse_balances sources []
  made ← mark_banking_transaction_posted pending.id
  reversed ← mark_banking_transaction_reversed original.id
  audit ← create_operator_audit (reversal_audit p correlation reversed made)
  notify_each p correlation reversed made (entries ordered updated)
  pure (record {
    original = reversed;
    reversal = made;
    postings = postings;
    accounts = accounts_of (entries ordered updated);
    audit_log = audit;
  })

unfoldable pub reverse_with_queries :
    ReverseTransactionTxParams → Uuid → Tx ReverseTransactionTxResult
reverse_with_queries p correlation = do
  original ←
      on_error (not_found_as transaction_not_found)
        (get_banking_transaction_for_update p.transaction_id)
  fail_if (is_reversal original.transaction_type) transaction_not_reversible
  fail_if (is_reversed original.status) transaction_already_reversed
  fail_if (not (is_posted original.status)) transaction_not_posted
  sources ← list_reversal_source_postings original.id
  fail_if (ltb (length sources) 2) insufficient_ledger_postings
  make_reversal p correlation original sources

abbrev pub reversal_failure_audit : ReverseTransactionTxParams → Uuid → OperatorAuditParams
reversal_failure_audit p correlation = record {
  entity_type = "banking_transaction";
  entity_id = p.transaction_id;
  correlation_id = correlation;
  event_type = "transaction_reversal_failed";
  actor = p.actor;
  from_state = "";
  to_state = "rejected";
  reason = p.reason;
  metadata = [];
}

unfoldable pub reverse_transaction_tx : ReverseTransactionTxParams → Tx ReverseTransactionTxResult
reverse_transaction_tx p = do
  correlation ← validate_operator_action p.actor p.reason p.correlation_id
  catch (exec_tx (reverse_with_queries p correlation))
      (audit_operator_failure (reversal_failure_audit p correlation))
