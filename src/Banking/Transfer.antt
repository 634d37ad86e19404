-- ===== src/Banking/Transfer.antt =====
-- Transfers between customers (db/sqlc/transaction_tx.go): `TransferTx`, `transferWithQueries`, the
-- locking order, the limits, and the record of a failed attempt. Amounts are Go's int64.
pub mod Locking
pub mod Effect
pub mod Invariant
pub mod Outcome
pub mod Limits
pub mod Balances
pub mod Permitted
pub mod Available
pub mod Success
use Prim.Native.String.{◌++◌ as append_text}
use monierave.Base.{
  ℕ, String, [], ◌∷◌, Bool, false, ◌||◌, not, Option, none, some, ℤ, pos, ltb, ltb_ℤ, ◌==◌, str_eq,
  if◌then◌else◌, neg64, sub64,
}
use monierave.Models.{
  Uuid, Account, LedgerAccount, is_frozen, is_closed, internal_transfer, TransferTxResult,
  BankingTransaction, of_error, number, text, uuid_or_empty, Error, not_found_as, account_not_found,
  recipient_not_found, same_account, account_not_owned, currency_mismatch, account_frozen,
  account_closed, per_transfer_limit_exceeded, daily_transfer_limit_exceeded, insufficient_balance,
  joined,
}
use monierave.Store.{
  Tx, Result, ok, err, pure, raise, lift, ◌>>=◌, ◌>>◌, fail_if, on_error, exec_tx, catch,
  uuid_hex_text,
}
use monierave.Queries.Accounts.{
  get_account_by_public_id, get_account_by_account_number, get_account_for_update,
  add_account_balance_internal,
}
use monierave.Queries.Ledger.{get_daily_outgoing_transfer_total, mark_banking_transaction_posted}
use monierave.Banking.Audit.{
  FinancialAuditParams, create_financial_audit, audit_correlation, transaction_audit_metadata,
}
use monierave.Banking.Notification.{FinancialNotificationParams, create_financial_notification}
use monierave.Banking.Posting.{
  PendingTransactionParams, create_balanced_transaction, customer_ledger_account,
  subtract_account_balance,
}

pub record TransferTxParams : Type 0 where
  pub from_account_public_id : Uuid
  pub to_account_number : String
  pub amount : ℤ
  pub currency : String
  pub username : String
  pub narration : String
  pub correlation_id : Option Uuid

abbrev pub usd_per_transfer_limit : ℤ
usd_per_transfer_limit = pos 1_000_000

abbrev pub usd_daily_limit : ℤ
usd_daily_limit = pos 2_500_000

abbrev pub eur_per_transfer_limit : ℤ
eur_per_transfer_limit = pos 1_000_000

abbrev pub eur_daily_limit : ℤ
eur_daily_limit = pos 2_500_000

unfoldable pub transfer_limits : String → Result (ℤ × ℤ)
transfer_limits currency =
    if str_eq currency "USD"
    then ok (usd_per_transfer_limit, usd_daily_limit)
    else if str_eq currency "EUR"
    then ok (eur_per_transfer_limit, eur_daily_limit)
    else err currency_mismatch

-- The two rows are locked in the order of their ids, and come back as (from, to).
unfoldable pub lock_transfer_accounts : ℕ → ℕ → Tx (Account × Account)
lock_transfer_accounts from_account_id to_account_id = do
  let first_id = if ltb to_account_id from_account_id then to_account_id else from_account_id
  let second_id = if ltb to_account_id from_account_id then from_account_id else to_account_id
  first ← get_account_for_update first_id
  second ← get_account_for_update second_id
  pure (if first.id == from_account_id then (first, second) else (second, first))

unfoldable pub load_and_lock_transfer_accounts : Uuid → String → Tx (Account × Account)
load_and_lock_transfer_accounts from_public_id to_account_number = do
  from_account ← on_error (not_found_as account_not_found) (get_account_by_public_id from_public_id)
  to_account ←
      on_error (not_found_as recipient_not_found) (get_account_by_account_number to_account_number)
  fail_if (from_account.id == to_account.id) same_account
  lock_transfer_accounts from_account.id to_account.id

-- The guards on the two accounts, before any limit.
abbrev pub wrong_currency : TransferTxParams → Account → Account → Bool
wrong_currency p from to =
    not (str_eq from.currency p.currency) || not (str_eq to.currency p.currency)

abbrev pub transfer_pending : TransferTxParams → PendingTransactionParams
transfer_pending p = record {
  transaction_type = internal_transfer;
  currency = p.currency;
  amount = p.amount;
  narration = p.narration;
  initiated_by = p.username;
  reversal_of = none;
}

abbrev pub transfer_audit :
    TransferTxParams → Uuid → BankingTransaction → String → String → String → FinancialAuditParams
transfer_audit p correlation t event from_state to_state = record {
  entity_type = "banking_transaction";
  entity_id = t.id;
  correlation_id = correlation;
  event_type = event;
  actor = p.username;
  from_state = from_state;
  to_state = to_state;
  message = none;
  metadata = transaction_audit_metadata t;
}

abbrev pub transfer_notification :
    Uuid → BankingTransaction → String → String → FinancialNotificationParams
transfer_notification correlation t owner direction = record {
  username = owner;
  event_type = "transaction.posted";
  entity_type = "banking_transaction";
  entity_id = t.id;
  correlation_id = correlation;
  reference = t.reference;
  amount = t.amount;
  currency = t.currency;
  direction = direction;
  occurred_at = t.posted_at;
  account_status = "";
  reason = "";
}

-- What is left once both ledger accounts are known: the transaction, its postings and the balances.
unfoldable pub post_transfer :
    TransferTxParams
    → Uuid
    → Account
    → Account
    → LedgerAccount
    → LedgerAccount
    → Tx TransferTxResult
post_transfer p correlation from_account to_account from_ledger to_ledger = do
  (transaction, postings) ← create_balanced_transaction (transfer_pending p) (
      record { ledger_account_id = from_ledger.id; amount = neg64 p.amount }
      ∷ record { ledger_account_id = to_ledger.id; amount = p.amount }
      ∷ [])
  create_financial_audit (transfer_audit p correlation transaction "transfer_created" "" "pending")
  from_after ← subtract_account_balance from_account.id p.amount
  to_after ← add_account_balance_internal to_account.id p.amount
  posted ← mark_banking_transaction_posted transaction.id
  create_financial_audit (transfer_audit p correlation posted "transfer_posted" "pending" "posted")
  create_financial_notification
      (transfer_notification correlation posted from_after.owner "outgoing")
  create_financial_notification (transfer_notification correlation posted to_after.owner "incoming")
  pure (record {
    transaction = posted;
    postings = postings;
    from_account = from_after;
    to_account = to_after;
    replayed = false;
  })

unfoldable pub transfer_with_queries : TransferTxParams → Uuid → Tx TransferTxResult
transfer_with_queries p correlation = do
  (from_account, to_account) ←
      load_and_lock_transfer_accounts p.from_account_public_id p.to_account_number
  fail_if (not (str_eq from_account.owner p.username)) account_not_owned
  fail_if (wrong_currency p from_account to_account) currency_mismatch
  fail_if (is_frozen from_account.status) account_frozen
  fail_if (is_closed from_account.status || is_closed to_account.status) account_closed
  (per_transfer_limit, daily_limit) ← lift (transfer_limits p.currency)
  fail_if (ltb_ℤ per_transfer_limit p.amount) per_transfer_limit_exceeded
  from_ledger ← customer_ledger_account from_account.id
  daily_total ← get_daily_outgoing_transfer_total from_ledger.id
  fail_if (ltb_ℤ (sub64 daily_limit p.amount) daily_total) daily_transfer_limit_exceeded
  to_ledger ← customer_ledger_account to_account.id
  post_transfer p correlation from_account to_account from_ledger to_ledger

-- `errors.Is` looks through `errors.Join` and `%w`; a failed rollback hides the error.
unfoldable pub transfer_failure_event : Error → String
transfer_failure_event insufficient_balance = "transfer_rejected_insufficient_funds"
transfer_failure_event per_transfer_limit_exceeded = "transfer_rejected_limit"
transfer_failure_event daily_transfer_limit_exceeded = "transfer_rejected_limit"
transfer_failure_event _ = "transfer_failed"

unfoldable pub transfer_notification_failure_reason : Error → String
transfer_notification_failure_reason insufficient_balance = "Insufficient funds"
transfer_notification_failure_reason per_transfer_limit_exceeded = "Transfer limit exceeded"
transfer_notification_failure_reason daily_transfer_limit_exceeded = "Transfer limit exceeded"
transfer_notification_failure_reason account_frozen = "The sending account is frozen"
transfer_notification_failure_reason account_closed =
    "An account involved in the transfer is closed"
transfer_notification_failure_reason _ = "The transfer could not be completed"

abbrev pub attempt_audit : TransferTxParams → Uuid → Error → FinancialAuditParams
attempt_audit p correlation e = record {
  entity_type = "transfer_attempt";
  entity_id = correlation;
  correlation_id = correlation;
  event_type = transfer_failure_event e;
  actor = p.username;
  from_state = "";
  to_state = "rejected";
  message = some (of_error e);
  metadata =
      ("amount", number p.amount)
      ∷ ("currency", text p.currency)
      ∷ ("from_account_id", uuid_or_empty (some p.from_account_public_id))
      ∷ [];
}

abbrev pub attempt_notification :
    TransferTxParams → Uuid → String → Error → FinancialNotificationParams
attempt_notification p correlation hex e = record {
  username = p.username;
  event_type = "transaction.failed";
  entity_type = "transfer_attempt";
  entity_id = correlation;
  correlation_id = correlation;
  reference = append_text "ATTEMPT-" hex;
  amount = p.amount;
  currency = p.currency;
  direction = "outgoing";
  occurred_at = none;
  account_status = "";
  reason = transfer_notification_failure_reason e;
}

unfoldable pub record_transfer_failure : TransferTxParams → Uuid → Error → Tx (Unit {0})
record_transfer_failure p correlation e = do
  create_financial_audit (attempt_audit p correlation e)
  hex ← uuid_hex_text correlation
  create_financial_notification (attempt_notification p correlation hex e)
  pure tt

-- The attempt is recorded in a transaction of its own; the caller gets the error in any case.
unfoldable pub audit_transfer_failure : {A : Type 0} → TransferTxParams → Uuid → Error → Tx A
audit_transfer_failure p correlation e = do
  catch (exec_tx (record_transfer_failure p correlation e))
      (λ audit_err. raise (joined e audit_err))
  raise e

unfoldable pub transfer_tx : TransferTxParams → Tx TransferTxResult
transfer_tx p = do
  correlation ← audit_correlation p.correlation_id
  catch (exec_tx (transfer_with_queries p correlation)) (audit_transfer_failure p correlation)
