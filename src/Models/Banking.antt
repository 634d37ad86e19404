-- ===== src/Models/Banking.antt =====
-- Rows of the banking tables (db/sqlc/models.go). A bigint key is a natural number, a UUID is the
-- number that its 16 bytes spell, a time is a number of microseconds, and a column that the schema
-- restricts to a few texts is an enumeration.
use monierave.Base.{ℕ, ℤ, String, Option, Bool, true, false}

abbrev pub Uuid : Type 0
Uuid = ℕ

abbrev pub Time : Type 0
Time = ℕ

-- `FinancialAccountStatus…`
pub data AccountStatus : Type 0 where
  active frozen closed : AccountStatus

abbrev pub is_active : AccountStatus → Bool
is_active AccountStatus.active = true
is_active _ = false

abbrev pub is_frozen : AccountStatus → Bool
is_frozen AccountStatus.frozen = true
is_frozen _ = false

abbrev pub is_closed : AccountStatus → Bool
is_closed AccountStatus.closed = true
is_closed _ = false

abbrev pub status_text : AccountStatus → String
status_text AccountStatus.active = "active"
status_text AccountStatus.frozen = "frozen"
status_text AccountStatus.closed = "closed"

pub record Account : Type 0 where
  pub id : ℕ
  pub owner : String
  pub balance : ℤ
  pub currency : String
  pub created_at : Time
  pub public_id : Uuid
  pub status : AccountStatus
  pub updated_at : Time
  pub closed_at : Option Time
  pub account_number : String

pub data LedgerKind : Type 0 where
  customer settlement : LedgerKind

abbrev pub is_customer : LedgerKind → Bool
is_customer LedgerKind.customer = true
is_customer LedgerKind.settlement = false

pub record LedgerAccount : Type 0 where
  pub id : ℕ
  pub public_id : Uuid
  pub customer_account_id : Option ℕ
  pub code : Option String
  pub kind : LedgerKind
  pub currency : String
  pub created_at : Time

-- `BankingTransactionType…`
pub data TransactionType : Type 0 where
  deposit withdrawal internal_transfer reversal : TransactionType

abbrev pub is_withdrawal : TransactionType → Bool
is_withdrawal TransactionType.withdrawal = true
is_withdrawal _ = false

abbrev pub is_internal_transfer : TransactionType → Bool
is_internal_transfer TransactionType.internal_transfer = true
is_internal_transfer _ = false

abbrev pub is_reversal : TransactionType → Bool
is_reversal TransactionType.reversal = true
is_reversal _ = false

abbrev pub type_text : TransactionType → String
type_text TransactionType.deposit = "deposit"
type_text TransactionType.withdrawal = "withdrawal"
type_text TransactionType.internal_transfer = "internal_transfer"
type_text TransactionType.reversal = "reversal"

-- `BankingTransactionStatus…`, and the `failed` of the schema.
pub data TransactionStatus : Type 0 where
  pending posted failed reversed : TransactionStatus

abbrev pub is_pending : TransactionStatus → Bool
is_pending TransactionStatus.pending = true
is_pending _ = false

abbrev pub is_posted : TransactionStatus → Bool
is_posted TransactionStatus.posted = true
is_posted _ = false

abbrev pub is_reversed : TransactionStatus → Bool
is_reversed TransactionStatus.reversed = true
is_reversed _ = false

pub record BankingTransaction : Type 0 where
  pub id : Uuid
  pub reference : String
  pub transaction_type : TransactionType
  pub status : TransactionStatus
  pub currency : String
  pub amount : ℤ
  pub narration : String
  pub initiated_by : String
  pub reversal_of : Option Uuid
  pub created_at : Time
  pub posted_at : Option Time
  pub failed_at : Option Time
  pub reversed_at : Option Time

pub record LedgerPosting : Type 0 where
  pub id : ℕ
  pub transaction_id : Uuid
  pub ledger_account_id : ℕ
  pub amount : ℤ
  pub created_at : Time
