-- ===== src/Banking/Reconciliation.antt =====
-- The reconciliation of the books: db/sqlc/reconciliation.go.
pub mod Agreement
pub mod Verdict
use monierave.Base.{
  ℕ, suc, String, List, [], ◌∷◌, ◌++◌, Bool, true, false, not, Option, none, some, ℤ, pos, ltb,
  ◌==◌, ◌==ℤ◌, length, if◌then◌else◌,
}
use monierave.Models.{
  Uuid, Time, Account, AuditLog, text, number, boolean, uuid_or_empty, not_found_as,
  account_not_found,
}
use monierave.Store.{Tx, pure, new_uuid, ◌>>=◌, on_error}
use monierave.Banking.Notification.{time_now}
use monierave.Queries.Accounts.{get_account_by_public_id}
use monierave.Queries.Records.{AuditLogParams, create_audit_log}
use monierave.Queries.Reconciliation.{
  AccountIssueRow, TransactionIssueRow, DuplicateReversalRow, list_account_reconciliation_issues,
  list_transaction_reconciliation_issues, list_duplicate_reversal_issues,
}
use monierave.Banking.Audit.{text_value}

abbrev issue_missing_ledger_account : String
issue_missing_ledger_account = "missing_customer_ledger_account"

abbrev issue_balance_drift : String
issue_balance_drift = "cached_balance_mismatch"

abbrev issue_unbalanced_transaction : String
issue_unbalanced_transaction = "unbalanced_transaction"

abbrev issue_insufficient_postings : String
issue_insufficient_postings = "insufficient_postings"

abbrev issue_duplicate_transaction_rev : String
issue_duplicate_transaction_rev = "duplicate_reversal"

pub record ReconciliationParams : Type 0 where
  pub account_public_id : Option Uuid
  pub actor : String

-- An issue names an account or a transaction; the fields that a kind leaves empty are zero.
pub record ReconciliationIssue : Type 0 where
  pub issue_type : String
  pub account_public_id : Option Uuid
  pub transaction_id : Option Uuid
  pub reference : String
  pub currency : String
  pub cached_balance : ℤ
  pub ledger_balance : ℤ
  pub posting_count : ℕ
  pub posting_total : ℤ
  pub duplicate_reversal_count : ℕ

pub record ReconciliationReport : Type 0 where
  pub run_id : Uuid
  pub account_public_id : Option Uuid
  pub checked_at : Time
  pub consistent : Bool
  pub issues : List ReconciliationIssue
  pub audit_log : AuditLog

abbrev of_account : AccountIssueRow → ReconciliationIssue
of_account row = record {
  issue_type = elim row.customer_ledger_account_id [
    | none ↦ issue_missing_ledger_account
    | some id ↦ issue_balance_drift
  ];
  account_public_id = some row.account_public_id;
  transaction_id = none;
  reference = "";
  currency = row.currency;
  cached_balance = row.cached_balance;
  ledger_balance = row.ledger_balance;
  posting_count = 0;
  posting_total = pos 0;
  duplicate_reversal_count = 0;
}

abbrev of_transaction_row : String → TransactionIssueRow → ReconciliationIssue
of_transaction_row kind row = record {
  issue_type = kind;
  account_public_id = none;
  transaction_id = some row.transaction_id;
  reference = row.reference;
  currency = "";
  cached_balance = pos 0;
  ledger_balance = pos 0;
  posting_count = row.posting_count;
  posting_total = row.posting_total;
  duplicate_reversal_count = 0;
}

-- The body of the loop over the transactions: one issue, or two.
abbrev pub of_transaction : TransactionIssueRow → List ReconciliationIssue
of_transaction row =
    (if ltb row.posting_count 2
      then of_transaction_row issue_insufficient_postings row ∷ []
      else [])
    ++ (if not (row.posting_total ==ℤ pos 0)
        then of_transaction_row issue_unbalanced_transaction row ∷ []
        else [])

abbrev of_reversal : DuplicateReversalRow → ReconciliationIssue
of_reversal row = record {
  issue_type = issue_duplicate_transaction_rev;
  account_public_id = none;
  transaction_id = some row.original_transaction_id;
  reference = row.original_reference;
  currency = "";
  cached_balance = pos 0;
  ledger_balance = pos 0;
  posting_count = 0;
  posting_total = pos 0;
  duplicate_reversal_count = row.reversal_count;
}

abbrev pub account_issue_list : List AccountIssueRow → List ReconciliationIssue
account_issue_list [] = []
account_issue_list (row ∷ rows) = of_account row ∷ account_issue_list rows

abbrev pub transaction_issue_list : List TransactionIssueRow → List ReconciliationIssue
transaction_issue_list [] = []
transaction_issue_list (row ∷ rows) = of_transaction row ++ transaction_issue_list rows

abbrev pub reversal_issue_list : List DuplicateReversalRow → List ReconciliationIssue
reversal_issue_list [] = []
reversal_issue_list (row ∷ rows) = of_reversal row ∷ reversal_issue_list rows

abbrev pub reconciliation_state : Bool → String
reconciliation_state true = "consistent"
reconciliation_state false = "drift_detected"

-- The account's id, where the caller named an account.
unfoldable pub customer_account : Option Uuid → Tx (Option ℕ)
customer_account none = pure none
customer_account (some u) = do
  account ← on_error (not_found_as account_not_found) (get_account_by_public_id u)
  pure (some account.id)

abbrev pub reconciliation_audit :
    ReconciliationParams → Uuid → List ReconciliationIssue → AuditLogParams
reconciliation_audit p run issues = record {
  entity_type = "reconciliation";
  entity_id = run;
  correlation_id = run;
  event_type = "reconciliation_completed";
  actor = p.actor;
  from_state = none;
  to_state = text_value (reconciliation_state (length issues == 0));
  message = none;
  metadata =
      ("account_public_id", uuid_or_empty p.account_public_id)
      ∷ ("consistent", boolean (length issues == 0))
      ∷ ("issue_count", number (pos (length issues)))
      ∷ [];
}

unfoldable pub reconcile : ReconciliationParams → Tx ReconciliationReport
reconcile p = do
  run ← new_uuid
  checked ← time_now
  customer_account_id ← customer_account p.account_public_id
  accounts ← list_account_reconciliation_issues p.account_public_id
  transactions ← list_transaction_reconciliation_issues customer_account_id
  reversals ← list_duplicate_reversal_issues customer_account_id
  let issues =
      account_issue_list accounts
      ++ transaction_issue_list transactions
      ++ reversal_issue_list reversals
  audit ← create_audit_log (reconciliation_audit p run issues)
  pure (record {
    run_id = run;
    account_public_id = p.account_public_id;
    checked_at = checked;
    consistent = length issues == 0;
    issues = issues;
    audit_log = audit;
  })
