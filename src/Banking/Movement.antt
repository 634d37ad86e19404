-- ===== src/Banking/Movement.antt =====
-- Simulated deposits and withdrawals (db/sqlc/transaction_tx.go): `DepositTx`, `WithdrawTx` and the
-- `settlementMovementTx` that both are, against the settlement account of the currency.
pub mod Effect
pub mod Invariant
use monierave.Base.{
  String, [], ◌∷◌, Bool, false, ◌&&◌, Option, none, List, ℤ, pos, leb_ℤ, is_empty, neg64,
  if◌then◌else◌,
}
use monierave.Models.{
  Uuid, Account, BankingTransaction, LedgerPosting, AuditLog, TransactionType, deposit, withdrawal,
  is_withdrawal, is_closed, is_frozen, LedgerAccount, Error, amount_not_positive, not_found_as,
  account_not_found, account_closed, account_frozen,
}
use monierave.Store.{Tx, pure, ◌>>=◌, ◌>>◌, fail_if, on_error, exec_tx}
use monierave.Queries.Accounts.{
  get_account_by_public_id, get_account_for_update, add_account_balance_internal,
}
use monierave.Queries.Ledger.{get_settlement_ledger_account, mark_banking_transaction_posted}
use monierave.Banking.Audit.{
  FinancialAuditParams, create_financial_audit, audit_correlation, transaction_audit_metadata,
}
use monierave.Banking.Notification.{FinancialNotificationParams, create_financial_notification}
use monierave.Banking.Posting.{
  PendingTransactionParams, PostingParams, create_balanced_transaction, customer_ledger_account,
  subtract_account_balance,
}

-- The arguments of `settlementMovementTx`.
pub record MovementParams : Type 0 where
  pub account_public_id : Uuid
  pub amount : ℤ
  pub narration : String
  pub transaction_type : TransactionType
  pub actor : String
  pub correlation_id : Option Uuid

pub record MoneyMovementTxResult : Type 0 where
  pub transaction : BankingTransaction
  pub postings : List LedgerPosting
  pub account : Account
  pub audit_log : AuditLog

-- The signed amounts: of the customer's posting, and of the settlement account's. A withdrawal turns
-- both.
abbrev pub customer_change : MovementParams → ℤ
customer_change p = if is_withdrawal p.transaction_type then neg64 p.amount else p.amount

abbrev pub settlement_change : MovementParams → ℤ
settlement_change p = if is_withdrawal p.transaction_type then p.amount else neg64 p.amount

abbrev pub movement_postings : MovementParams → LedgerAccount → LedgerAccount → List PostingParams
movement_postings p settlement customer =
    record { ledger_account_id = settlement.id; amount = settlement_change p }
    ∷ record { ledger_account_id = customer.id; amount = customer_change p }
    ∷ []

abbrev pub movement_pending : MovementParams → String → Account → PendingTransactionParams
movement_pending p actor account = record {
  transaction_type = p.transaction_type;
  currency = account.currency;
  amount = p.amount;
  narration = p.narration;
  initiated_by = actor;
  reversal_of = none;
}

abbrev pub movement_audit :
    String → Uuid → BankingTransaction → String → String → String → FinancialAuditParams
movement_audit actor correlation t event from_state to_state = record {
  entity_type = "banking_transaction";
  entity_id = t.id;
  correlation_id = correlation;
  event_type = event;
  actor = actor;
  from_state = from_state;
  to_state = to_state;
  message = none;
  metadata = transaction_audit_metadata t;
}

abbrev pub movement_notification :
    MovementParams → Uuid → Account → BankingTransaction → FinancialNotificationParams
movement_notification p correlation account t = record {
  username = account.owner;
  event_type = "transaction.posted";
  entity_type = "banking_transaction";
  entity_id = t.id;
  correlation_id = correlation;
  reference = t.reference;
  amount = t.amount;
  currency = t.currency;
  direction = if is_withdrawal p.transaction_type then "outgoing" else "incoming";
  occurred_at = t.posted_at;
  account_status = "";
  reason = "";
}

abbrev pub actor_or_default : String → String
actor_or_default actor = if is_empty actor then "operator_cli" else actor

-- The change of the cached balance.
unfoldable pub move_balance : MovementParams → Account → Tx Account
move_balance p account =
    if is_withdrawal p.transaction_type
    then subtract_account_balance account.id p.amount
    else add_account_balance_internal account.id p.amount

unfoldable pub settlement_movement : MovementParams → String → Uuid → Tx MoneyMovementTxResult
settlement_movement p actor correlation = do
  seen ← on_error (not_found_as account_not_found) (get_account_by_public_id p.account_public_id)
  account ← get_account_for_update seen.id
  fail_if (is_closed account.status) account_closed
  fail_if (is_withdrawal p.transaction_type && is_frozen account.status) account_frozen
  customer_ledger ← customer_ledger_account account.id
  settlement_ledger ← get_settlement_ledger_account account.currency
  (transaction, created_postings) ←
      create_balanced_transaction (movement_pending p actor account)
        (movement_postings p settlement_ledger customer_ledger)
  create_financial_audit
      (movement_audit actor correlation transaction "operator_transaction_created" "" "pending")
  after ← move_balance p account
  posted ← mark_banking_transaction_posted transaction.id
  audit_log ←
      create_financial_audit
        (movement_audit actor correlation posted "operator_transaction_posted" "pending" "posted")
  create_financial_notification (movement_notification p correlation after posted)
  pure (record {
    transaction = posted;
    postings = created_postings;
    account = after;
    audit_log = audit_log;
  })

unfoldable pub settlement_movement_tx : MovementParams → Tx MoneyMovementTxResult
settlement_movement_tx p = do
  fail_if (leb_ℤ p.amount (pos 0)) amount_not_positive
  correlation ← audit_correlation p.correlation_id
  exec_tx (settlement_movement p (actor_or_default p.actor) correlation)

-- DepositTxParams, WithdrawTxParams
pub record OperatorMovement : Type 0 where
  pub account_public_id : Uuid
  pub amount : ℤ
  pub narration : String
  pub actor : String
  pub correlation_id : Option Uuid

abbrev pub movement_params : TransactionType → OperatorMovement → MovementParams
movement_params type m = record {
  account_public_id = m.account_public_id;
  amount = m.amount;
  narration = m.narration;
  transaction_type = type;
  actor = m.actor;
  correlation_id = m.correlation_id;
}

unfoldable pub deposit_tx : OperatorMovement → Tx MoneyMovementTxResult
unfolding settlement_movement_tx
deposit_tx m = settlement_movement_tx (movement_params deposit m)

unfoldable pub withdraw_tx : OperatorMovement → Tx MoneyMovementTxResult
unfolding settlement_movement_tx
withdraw_tx m = settlement_movement_tx (movement_params withdrawal m)
