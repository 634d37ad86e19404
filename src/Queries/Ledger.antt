-- ===== src/Queries/Ledger.antt =====
-- The queries on `ledger_accounts`, `banking_transactions` and `ledger_postings`
-- (db/sqlc/ledger.sql.go). The keys and the UNIQUE constraints that the code relies on are those of
-- db/migration/000014_double_entry_ledger.up.sql.
pub mod Rules
use Prim.Native.String.{◌++◌ as append_text}
use monierave.Base.{
  ℕ, suc, ◌-◌, ◌%◌, String, List, [], ◌∷◌, ◌++◌, Bool, true, false, ◌&&◌, ◌||◌, Option, none, some,
  ℤ, pos, ◌+ℤ◌, ltb_ℤ, leb, ◌==◌, str_eq, if◌then◌else◌, find_first, update_where,
}
use monierave.Models.{
  Uuid, Time, LedgerAccount, LedgerKind, customer, BankingTransaction, TransactionType,
  LedgerPosting, is_customer, pending, posted, reversed, is_pending, is_posted, is_reversed,
  is_internal_transfer, Fault, constraint, db_fault,
}
use monierave.Models.Tables.{Db}
use monierave.Store.{Tx, query, one, ok, err}

abbrev pub has_transaction_id : Uuid → BankingTransaction → Bool
has_transaction_id u t = t.id == u

abbrev pub transaction_by_id : Uuid → List BankingTransaction → Option BankingTransaction
transaction_by_id u = find_first (has_transaction_id u)

-- WHERE customer_account_id = $1 AND kind = 'customer'
abbrev pub holds_for : ℕ → LedgerAccount → Bool
holds_for id l =
    elim l.customer_account_id [ none ↦ false | some c ↦ c == id ] && is_customer l.kind

abbrev pub customer_ledger : ℕ → List LedgerAccount → Option LedgerAccount
customer_ledger id = find_first (holds_for id)

-- WHERE code = 'settlement:' || $1 AND kind = 'settlement'
abbrev pub settles : String → LedgerAccount → Bool
settles currency l =
    elim l.code [ none ↦ false | some c ↦ str_eq c (append_text "settlement:" currency) ]
    && (if is_customer l.kind then false else true)

abbrev pub settlement_ledger : String → List LedgerAccount → Option LedgerAccount
settlement_ledger currency = find_first (settles currency)

abbrev pub ledger_by_id : ℕ → List LedgerAccount → Option LedgerAccount
ledger_by_id id = find_first (λ l. l.id == id)

abbrev pub with_transactions : Db → List BankingTransaction → Db
with_transactions d rows = record d { books = record d.books { transactions = rows } }

-- CreateBankingTransactionParams
pub record TransactionParams : Type 0 where
  pub id : Uuid
  pub reference : String
  pub transaction_type : TransactionType
  pub currency : String
  pub amount : ℤ
  pub narration : String
  pub initiated_by : String
  pub reversal_of : Option Uuid

abbrev pub new_transaction : TransactionParams → Time → BankingTransaction
new_transaction p now = record {
  id = p.id;
  reference = p.reference;
  transaction_type = p.transaction_type;
  status = pending;
  currency = p.currency;
  amount = p.amount;
  narration = p.narration;
  initiated_by = p.initiated_by;
  reversal_of = p.reversal_of;
  created_at = now;
  posted_at = none;
  failed_at = none;
  reversed_at = none;
}

abbrev pub is_some {ℓ} : {A : Type ℓ} → Option A → Bool
is_some none = false
is_some (some a) = true

abbrev pub reverses : Uuid → BankingTransaction → Bool
reverses u t = elim t.reversal_of [ none ↦ false | some o ↦ o == u ]

-- A second transaction that reverses the same one: `reversal_of uuid UNIQUE`.
abbrev pub reversed_twice : Option Uuid → List BankingTransaction → Bool
reversed_twice none rows = false
reversed_twice (some u) rows = is_some (find_first (reverses u) rows)

-- The UNIQUE constraint that a new row breaks.
unfoldable pub transaction_violation : TransactionParams → List BankingTransaction → Option Fault
transaction_violation p rows =
    if is_some (transaction_by_id p.id rows)
    then some (constraint "banking_transactions_pkey")
    else if is_some (find_first (λ t. str_eq t.reference p.reference) rows)
    then some (constraint "banking_transactions_reference_key")
    else if reversed_twice p.reversal_of rows
    then some (constraint "banking_transactions_reversal_of_key")
    else none

unfoldable pub create_banking_transaction : TransactionParams → Tx BankingTransaction
create_banking_transaction p = query (λ d. elim (transaction_violation p d.transactions) [
  | some f ↦ err (db_fault f)
  | none ↦ ok (
    new_transaction p d.clock,
    with_transactions d (d.transactions ++ new_transaction p d.clock ∷ []),
  )
])

abbrev pub new_posting : Uuid → ℕ → ℤ → Db → LedgerPosting
new_posting u ledger amount d = record {
  id = d.next_posting_id;
  transaction_id = u;
  ledger_account_id = ledger;
  amount = amount;
  created_at = d.clock;
}

abbrev pub with_posting : LedgerPosting → Db → Db
with_posting p d = record d {
  books = record d.books {
    postings = d.postings ++ p ∷ [];
    next_posting_id = suc d.next_posting_id;
  };
}

unfoldable pub create_ledger_posting : Uuid → ℕ → ℤ → Tx LedgerPosting
create_ledger_posting u ledger amount =
    query (λ d. let p = new_posting u ledger amount d in ok (p, with_posting p d))

abbrev pub new_customer_ledger : ℕ → String → Uuid → Db → LedgerAccount
new_customer_ledger account currency u d = record {
  id = d.next_ledger_id;
  public_id = u;
  customer_account_id = some account;
  code = none;
  kind = customer;
  currency = currency;
  created_at = d.clock;
}

abbrev pub with_ledger : LedgerAccount → Db → Db
with_ledger l d = record d {
  books = record d.books {
    ledger_accounts = d.ledger_accounts ++ l ∷ [];
    next_ledger_id = suc d.next_ledger_id;
  };
}

unfoldable pub create_customer_ledger_account : ℕ → String → Uuid → Tx LedgerAccount
create_customer_ledger_account account currency u =
    query (λ d. let l = new_customer_ledger account currency u d in ok (l, with_ledger l d))

unfoldable pub get_customer_ledger_account : ℕ → Tx LedgerAccount
get_customer_ledger_account id =
    query (λ d. one (customer_ledger id d.ledger_accounts) (λ l. (l, d)))

unfoldable pub get_settlement_ledger_account : String → Tx LedgerAccount
get_settlement_ledger_account currency =
    query (λ d. one (settlement_ledger currency d.ledger_accounts) (λ l. (l, d)))

unfoldable pub get_banking_transaction_for_update : Uuid → Tx BankingTransaction
get_banking_transaction_for_update u =
    query (λ d. one (transaction_by_id u d.transactions) (λ t. (t, d)))

-- WHERE id = $1 AND status = 'pending'
abbrev pub postable : Uuid → BankingTransaction → Bool
postable u t = t.id == u && is_pending t.status

abbrev pub as_posted : Time → BankingTransaction → BankingTransaction
as_posted now t = record t { status = posted; posted_at = some now }

unfoldable pub mark_banking_transaction_posted : Uuid → Tx BankingTransaction
mark_banking_transaction_posted u = query (λ d. one (find_first (postable u) d.transactions) (λ t. (
  as_posted d.clock t,
  with_transactions d (update_where (postable u) (as_posted d.clock) d.transactions),
)))

-- WHERE id = $1 AND status = 'posted'
abbrev pub reversible : Uuid → BankingTransaction → Bool
reversible u t = t.id == u && is_posted t.status

abbrev pub as_reversed : Time → BankingTransaction → BankingTransaction
as_reversed now t = record t { status = reversed; reversed_at = some now }

unfoldable pub mark_banking_transaction_reversed : Uuid → Tx BankingTransaction
mark_banking_transaction_reversed u = query (λ d.
    one (find_first (reversible u) d.transactions) (λ t. (
      as_reversed d.clock t,
      with_transactions d (update_where (reversible u) (as_reversed d.clock) d.transactions),
    )))

-- date_trunc('day', now() AT TIME ZONE 'UTC') AT TIME ZONE 'UTC', in microseconds
abbrev pub day_start : Time → Time
day_start now = now - now % 86_400_000_000

abbrev pub counts_today : Time → BankingTransaction → Bool
counts_today now t =
    is_internal_transfer t.transaction_type
    && (is_posted t.status || is_reversed t.status)
    && leb (day_start now) t.created_at

-- The amount that a posting brings into the daily total of a ledger account.
abbrev pub outgoing : ℕ → Time → List BankingTransaction → LedgerPosting → ℤ
outgoing ledger now rows p =
    if p.ledger_account_id == ledger && ltb_ℤ p.amount (pos 0)
    then (elim (transaction_by_id p.transaction_id rows) [
      | none ↦ pos 0
      | some t ↦ if counts_today now t then t.amount else pos 0
    ])
    else pos 0

unfoldable pub daily_outgoing_total : ℕ → Time → List BankingTransaction → List LedgerPosting → ℤ
daily_outgoing_total ledger now rows [] = pos 0
daily_outgoing_total ledger now rows (p ∷ ps) =
    outgoing ledger now rows p +ℤ daily_outgoing_total ledger now rows ps

unfoldable pub get_daily_outgoing_transfer_total : ℕ → Tx ℤ
get_daily_outgoing_transfer_total ledger =
    query (λ d. ok (daily_outgoing_total ledger d.clock d.transactions d.postings, d))
