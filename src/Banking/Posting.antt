-- ===== src/Banking/Posting.antt =====
-- `createBalancedTransaction`, `customerLedgerAccount` and `subtractAccountBalance` of
-- db/sqlc/transaction_tx.go: a pending transaction with its postings, and the cached balances.
pub mod Rules
use monierave.Base.{
  ℕ, String, List, [], ◌∷◌, ◌++◌, Option, ℤ, pos, ltb, leb_ℤ, ◌==ℤ◌, not, length, if◌then◌else◌,
  add64, neg64, trim_space,
}
use Prim.Native.String.{◌++◌ as append_text}
use monierave.Models.{
  Uuid, Account, LedgerAccount, BankingTransaction, LedgerPosting, TransactionType, Error,
  insufficient_balance, amount_not_positive, too_few_postings, zero_posting, unbalanced_postings,
  not_found_as,
}
use monierave.Store.{
  Tx, Result, ok, err, pure, lift, ◌>>=◌, ◌>>◌, new_uuid, uuid_hex_text, fail_if, on_error,
}
use monierave.Queries.Accounts.{add_account_balance_internal}
use monierave.Queries.Ledger.{
  TransactionParams, create_banking_transaction, create_ledger_posting, get_customer_ledger_account,
}

pub record PendingTransactionParams : Type 0 where
  pub transaction_type : TransactionType
  pub currency : String
  pub amount : ℤ
  pub narration : String
  pub initiated_by : String
  pub reversal_of : Option Uuid

pub record PostingParams : Type 0 where
  pub ledger_account_id : ℕ
  pub amount : ℤ

-- The loop that adds the amounts up, from `total`.
unfoldable pub posting_total : ℤ → List PostingParams → Result ℤ
unfolding add64
posting_total total [] = ok total
posting_total total (p ∷ ps) =
    let rest = posting_total (add64 total p.amount) ps in
    if p.amount ==ℤ pos 0 then err zero_posting else rest

-- The loop that inserts the postings.
unfoldable pub create_postings : Uuid → List PostingParams → Tx (List LedgerPosting)
create_postings u [] = pure []
create_postings u (p ∷ ps) = do
  value ← create_ledger_posting u p.ledger_account_id p.amount
  created ← create_postings u ps
  pure (value ∷ created)

abbrev pub transaction_params : PendingTransactionParams → Uuid → String → TransactionParams
transaction_params p id hex = record {
  id = id;
  reference = append_text "TXN-" hex;
  transaction_type = p.transaction_type;
  currency = p.currency;
  amount = p.amount;
  narration = trim_space p.narration;
  initiated_by = p.initiated_by;
  reversal_of = p.reversal_of;
}

unfoldable pub create_balanced_transaction :
    PendingTransactionParams → List PostingParams → Tx (BankingTransaction × List LedgerPosting)
create_balanced_transaction p postings = do
  fail_if (leb_ℤ p.amount (pos 0)) amount_not_positive
  fail_if (ltb (length postings) 2) too_few_postings
  total ← lift (posting_total (pos 0) postings)
  fail_if (not (total ==ℤ pos 0)) unbalanced_postings
  id ← new_uuid
  hex ← uuid_hex_text id
  transaction ← create_banking_transaction (transaction_params p id hex)
  created ← create_postings transaction.id postings
  pure (transaction, created)

unfoldable pub customer_ledger_account : ℕ → Tx LedgerAccount
customer_ledger_account account_id = get_customer_ledger_account account_id

unfoldable pub subtract_account_balance : ℕ → ℤ → Tx Account
unfolding neg64
subtract_account_balance account_id amount =
    on_error (not_found_as insufficient_balance)
      (add_account_balance_internal account_id (neg64 amount))
