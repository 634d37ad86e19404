-- ===== src/Banking/Lifecycle.antt =====
-- Closing, freezing and unfreezing an account: `CloseAccountTx` of db/sqlc/account_tx.go and
-- `SetAccountStatusTx` of db/sqlc/operator_tx.go, with the operator's checks and failure audit.
pub mod Closing
pub mod Status
use monierave.Base.{
  ℕ, String, [], ◌∷◌, ◌++◌, Bool, true, false, ◌||◌, not, Option, none, some, ℤ, pos, ◌==ℤ◌, ltb,
  is_empty, trim_space, rune_count, str_eq, if◌then◌else◌,
}
use monierave.Models.{
  Uuid, Account, AccountStatus, active, frozen, closed, is_active, is_frozen, is_closed,
  status_text, AuditLog, Metadata, text, uuid_or_empty, error_text, Error, not_found_as,
  account_not_found, account_not_owned, account_closed, account_balance_not_zero,
  invalid_operator_action, invalid_target_status, account_already_frozen, account_already_active,
  joined,
}
use monierave.Store.{Tx, pure, raise, ◌>>=◌, ◌>>◌, fail_if, on_error, exec_tx, catch}
use monierave.Queries.Accounts.{
  get_account_by_public_id_for_update, close_account, set_account_status,
}
use monierave.Banking.Audit.{
  FinancialAuditParams, create_financial_audit, OperatorAuditParams, create_operator_audit,
}
use monierave.Banking.Notification.{FinancialNotificationParams, create_financial_notification}

-- CloseAccountTxParams
pub record CloseAccountTxParams : Type 0 where
  pub public_id : Uuid
  pub username : String

abbrev pub account_closed_audit : CloseAccountTxParams → Account → Account → FinancialAuditParams
account_closed_audit p account after = record {
  entity_type = "account";
  entity_id = after.public_id;
  correlation_id = after.public_id;
  event_type = "account_closed";
  actor = p.username;
  from_state = status_text account.status;
  to_state = status_text after.status;
  message = none;
  metadata = [];
}

abbrev pub account_closed_notification : Account → FinancialNotificationParams
account_closed_notification after = record {
  username = after.owner;
  event_type = "account.closed";
  entity_type = "account";
  entity_id = after.public_id;
  correlation_id = after.public_id;
  reference = "";
  amount = pos 0;
  currency = "";
  direction = "";
  occurred_at = some after.updated_at;
  account_status = status_text after.status;
  reason = "";
}

unfoldable pub close_account_with_queries : CloseAccountTxParams → Tx Account
close_account_with_queries p = do
  account ←
      on_error (not_found_as account_not_found) (get_account_by_public_id_for_update p.public_id)
  fail_if (not (str_eq account.owner p.username)) account_not_owned
  fail_if (is_closed account.status) account_closed
  fail_if (not (account.balance ==ℤ pos 0)) account_balance_not_zero
  after ← close_account account.id
  create_financial_audit (account_closed_audit p account after)
  create_financial_notification (account_closed_notification after)
  pure after

unfoldable pub close_account_tx : CloseAccountTxParams → Tx Account
close_account_tx p = exec_tx (close_account_with_queries p)

-- AccountStatusTxParams; a correlation id that is not valid is `none`.
pub record AccountStatusTxParams : Type 0 where
  pub account_public_id : Uuid
  pub target_status : String
  pub actor : String
  pub reason : String
  pub correlation_id : Option Uuid

pub record AccountStatusTxResult : Type 0 where
  pub account : Account
  pub audit_log : AuditLog

unfoldable pub invalid_action : String → String → Bool
invalid_action actor reason =
    is_empty (trim_space actor)
    || is_empty (trim_space reason)
    || ltb 128 (rune_count (trim_space actor))
    || ltb 500 (rune_count (trim_space reason))

-- The correlation id of a valid action.
unfoldable pub validate_operator_action : String → String → Option Uuid → Tx Uuid
validate_operator_action actor reason none = raise invalid_operator_action
validate_operator_action actor reason (some u) = do
  fail_if (invalid_action actor reason) invalid_operator_action
  pure u

unfoldable pub target_of : String → Tx AccountStatus
target_of s =
    if str_eq s "frozen"
    then pure frozen
    else if str_eq s "active"
    then pure active
    else raise invalid_target_status

-- `account.Status == arg.TargetStatus`, for the two targets that there are.
abbrev pub same_status : AccountStatus → AccountStatus → Bool
same_status AccountStatus.active t = is_active t
same_status AccountStatus.frozen t = is_frozen t
same_status AccountStatus.closed t = is_closed t

abbrev pub already : AccountStatus → Error
already t = if is_frozen t then account_already_frozen else account_already_active

abbrev pub status_audit :
    AccountStatusTxParams → Uuid → AccountStatus → Account → Account → OperatorAuditParams
status_audit p correlation target account updated = record {
  entity_type = "account";
  entity_id = account.public_id;
  correlation_id = correlation;
  event_type = if is_frozen target then "account_frozen" else "account_unfrozen";
  actor = p.actor;
  from_state = status_text account.status;
  to_state = status_text updated.status;
  reason = p.reason;
  metadata =
      ("account_id", uuid_or_empty (some account.public_id))
      ∷ ("currency", text account.currency)
      ∷ [];
}

abbrev pub status_notification :
    AccountStatusTxParams → Uuid → Account → FinancialNotificationParams
status_notification p correlation updated = record {
  username = updated.owner;
  event_type = if is_frozen updated.status then "account.frozen" else "account.unfrozen";
  entity_type = "account";
  entity_id = updated.public_id;
  correlation_id = correlation;
  reference = "";
  amount = pos 0;
  currency = "";
  direction = "";
  occurred_at = some updated.updated_at;
  account_status = status_text updated.status;
  reason = p.reason;
}

unfoldable pub set_account_status_with_queries :
    AccountStatusTxParams → Uuid → AccountStatus → Tx AccountStatusTxResult
set_account_status_with_queries p correlation target = do
  account ←
      on_error (not_found_as account_not_found)
        (get_account_by_public_id_for_update p.account_public_id)
  fail_if (is_closed account.status) account_closed
  fail_if (same_status account.status target) (already target)
  updated ← set_account_status account.id target
  audit ← create_operator_audit (status_audit p correlation target account updated)
  create_financial_notification (status_notification p correlation updated)
  pure (record { account = updated; audit_log = audit })

-- The failure is audited after the transaction, in a round trip of its own.
unfoldable pub audit_operator_failure : {A : Type 0} → OperatorAuditParams → Error → Tx A
audit_operator_failure p e = do
  catch (create_operator_audit (record p { metadata = p.metadata ++ ("error", error_text e) ∷ [] }))
      (λ audit_err. raise (joined e audit_err))
  raise e

abbrev pub status_failure_audit : AccountStatusTxParams → Uuid → OperatorAuditParams
status_failure_audit p correlation = record {
  entity_type = "account";
  entity_id = p.account_public_id;
  correlation_id = correlation;
  event_type = "account_status_change_failed";
  actor = p.actor;
  from_state = "";
  to_state = "rejected";
  reason = p.reason;
  metadata = ("requested_status", text p.target_status) ∷ [];
}

unfoldable pub set_account_status_tx : AccountStatusTxParams → Tx AccountStatusTxResult
set_account_status_tx p = do
  correlation ← validate_operator_action p.actor p.reason p.correlation_id
  target ← target_of p.target_status
  catch (exec_tx (set_account_status_with_queries p correlation target))
      (audit_operator_failure (status_failure_audit p correlation))
