-- ===== src/Banking/Audit.antt =====
-- db/sqlc/financial_audit.go and the operator audit of db/sqlc/operator_tx.go: one row of the audit
-- log, written in the transaction of the caller.
use monierave.Base.{String, [], ◌∷◌, Option, none, some, is_empty, if◌then◌else◌, trim_space}
use monierave.Models.{
  Uuid, BankingTransaction, AuditLog, Message, plain, text, number, uuid_or_empty, Metadata,
  type_text, Error,
}
use monierave.Models.Tables.{Db}
use monierave.Store.{Tx, pure, new_uuid}
use monierave.Store.Rules.{Runs, Faulty, pure_rule, new_uuid_rule}
use monierave.Queries.Records.{
  AuditLogParams, new_audit_log, with_audit_log, create_audit_log, create_audit_log_rule,
}

pub record FinancialAuditParams : Type 0 where
  pub entity_type : String
  pub entity_id : Uuid
  pub correlation_id : Uuid
  pub event_type : String
  pub actor : String
  pub from_state : String
  pub to_state : String
  pub message : Option Message
  pub metadata : Metadata

-- `textValue`: an empty text is stored as NULL
abbrev pub text_value : String → Option String
text_value s = if is_empty s then none else some s

abbrev pub audit_row : FinancialAuditParams → AuditLogParams
audit_row p = record {
  entity_type = p.entity_type;
  entity_id = p.entity_id;
  correlation_id = p.correlation_id;
  event_type = p.event_type;
  actor = p.actor;
  from_state = text_value p.from_state;
  to_state = text_value p.to_state;
  message = p.message;
  metadata = p.metadata;
}

unfoldable pub create_financial_audit : FinancialAuditParams → Tx AuditLog
create_financial_audit p = create_audit_log (audit_row p)

unfoldable pub audit_correlation : Option Uuid → Tx Uuid
audit_correlation none = new_uuid
audit_correlation (some u) = pure u

abbrev pub transaction_audit_metadata : BankingTransaction → Metadata
transaction_audit_metadata t =
    ("amount", number t.amount)
    ∷ ("currency", text t.currency)
    ∷ ("reference", text t.reference)
    ∷ ("type", text (type_text t.transaction_type))
    ∷ ("reversal_of", uuid_or_empty t.reversal_of)
    ∷ []

pub record OperatorAuditParams : Type 0 where
  pub entity_type : String
  pub entity_id : Uuid
  pub correlation_id : Uuid
  pub event_type : String
  pub actor : String
  pub from_state : String
  pub to_state : String
  pub reason : String
  pub metadata : Metadata

abbrev pub operator_row : OperatorAuditParams → AuditLogParams
operator_row p = record {
  entity_type = p.entity_type;
  entity_id = p.entity_id;
  correlation_id = p.correlation_id;
  event_type = p.event_type;
  actor = trim_space p.actor;
  from_state = text_value p.from_state;
  to_state = text_value p.to_state;
  message = some (plain (trim_space p.reason));
  metadata = p.metadata;
}

unfoldable pub create_operator_audit : OperatorAuditParams → Tx AuditLog
create_operator_audit p = create_audit_log (operator_row p)

module _ {E : Error → Db → Type 0} {d : Db} where
  pub create_financial_audit_rule :
      {Q : AuditLog → Db → Type 0}
      → Faulty E
      → (p : FinancialAuditParams)
      → Q (new_audit_log (audit_row p) d) (with_audit_log (new_audit_log (audit_row p) d) d)
      → Runs E Q (create_financial_audit p) d
  unfolding create_financial_audit
  create_financial_audit_rule fault p h = create_audit_log_rule fault (audit_row p) h

  pub create_operator_audit_rule :
      {Q : AuditLog → Db → Type 0}
      → Faulty E
      → (p : OperatorAuditParams)
      → Q (new_audit_log (operator_row p) d) (with_audit_log (new_audit_log (operator_row p) d) d)
      → Runs E Q (create_operator_audit p) d
  unfolding create_operator_audit
  create_operator_audit_rule fault p h = create_audit_log_rule fault (operator_row p) h

  pub audit_correlation_rule :
      {Q : Uuid → Db → Type 0} (o : Option Uuid)
      → ((u : Uuid) → Q u d)
      → Runs E Q (audit_correlation o) d
  unfolding audit_correlation
  audit_correlation_rule none h = new_uuid_rule h
  audit_correlation_rule (some u) h = pure_rule u (h u)
