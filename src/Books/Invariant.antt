-- ===== src/Books/Invariant.antt =====
-- What holds of the ledger's tables between two transactions.
use monierave.Base.{
  ℕ, ◌≤◌, ◌≡◌, Bool, true, ◌||◌, List, none, some, pos, ◌≤ℤ◌, UniqueKeys, Every, count_where,
  Negatable,
}
use monierave.Models.{
  Uuid, Account, LedgerAccount, BankingTransaction, TransactionStatus, LedgerPosting, is_closed,
  is_posted, is_reversed,
}
use monierave.Models.Tables.{Books}
use monierave.Queries.Accounts.{account_by_id}
use monierave.Queries.Ledger.{customer_ledger, ledger_by_id, transaction_by_id, holds_for, reverses}
use monierave.Books.Sums.{
  on_ledger, count_if, ledger_balance, posting_sum, posting_count, book_total,
}

abbrev pub account_key : Account → ℕ
account_key a = a.id

abbrev pub ledger_key : LedgerAccount → ℕ
ledger_key l = l.id

abbrev pub transaction_key : BankingTransaction → ℕ
transaction_key t = t.id

-- The cached balance of every account is the sum of the postings to its ledger account.
abbrev pub CachedBalances : List Account → List LedgerAccount → List LedgerPosting → Type 0
CachedBalances accounts ledgers postings =
    (id : ℕ) (a : Account) (l : LedgerAccount)
    → account_by_id id accounts ≡ some a
    → customer_ledger id ledgers ≡ some l
    → a.balance ≡ ledger_balance l.id postings

-- No account is overdrawn, and a closed account holds nothing.
abbrev pub SoundBalances : List Account → Type 0
SoundBalances accounts =
    (id : ℕ) (a : Account)
    → account_by_id id accounts ≡ some a
    → (pos 0 ≤ℤ a.balance) × (is_closed a.status ≡ true → a.balance ≡ pos 0)

-- Every account has a ledger account.
abbrev pub HasLedgers : List Account → List LedgerAccount → Type 0
HasLedgers accounts ledgers =
    (id : ℕ) (a : Account)
    → account_by_id id accounts ≡ some a
    → (l : LedgerAccount) × (customer_ledger id ledgers ≡ some l)

abbrev pub settled : TransactionStatus → Bool
settled s = is_posted s || is_reversed s

-- A transaction that took effect has two postings at least, which add up to nothing.
abbrev pub BalancedTransactions : List BankingTransaction → List LedgerPosting → Type 0
BalancedTransactions rows postings =
    (u : Uuid) (t : BankingTransaction)
    → transaction_by_id u rows ≡ some t
    → settled t.status ≡ true
    → (posting_sum u postings ≡ pos 0) × (2 ≤ posting_count u postings)

-- Postings belong to transactions of the book.
abbrev pub KnownPostings : List BankingTransaction → List LedgerPosting → Type 0
KnownPostings rows postings =
    (u : Uuid) → transaction_by_id u rows ≡ none → posting_count u postings ≡ 0

-- A posting is an int64 that has a negative, on a ledger account of the book.
abbrev pub SoundPosting : List LedgerAccount → LedgerPosting → Type 0
SoundPosting ledgers p =
    Negatable p.amount × ((l : LedgerAccount) × (ledger_by_id p.ledger_account_id ledgers ≡ some l))

-- A customer's ledger account is the only one that the customer's account has.
abbrev pub UniqueHolders : List LedgerAccount → Type 0
UniqueHolders ledgers =
    (n : ℕ) (l : LedgerAccount) (c : ℕ)
    → ledger_by_id n ledgers ≡ some l
    → holds_for c l ≡ true
    → customer_ledger c ledgers ≡ some l

-- No transaction is reversed by two.
abbrev pub OneReversal : List BankingTransaction → Type 0
OneReversal rows = (u : Uuid) → count_where (reverses u) rows ≤ 1

-- The sequences are ahead of every id that is in use.
pub record FreshIds (b : Books) : Type 0 where
  pub account_unused : (n : ℕ) → b.next_account_id ≤ n → account_by_id n b.accounts ≡ none
  pub owner_unused : (n : ℕ) → b.next_account_id ≤ n → customer_ledger n b.ledger_accounts ≡ none
  pub ledger_unused : (n : ℕ) → b.next_ledger_id ≤ n → ledger_by_id n b.ledger_accounts ≡ none
  pub posting_unused : (n : ℕ) → b.next_ledger_id ≤ n → count_if (on_ledger n) b.postings ≡ 0

pub record IsConsistent (b : Books) : Type 0 where
  pub unique_accounts : UniqueKeys account_key b.accounts
  pub unique_ledgers : UniqueKeys ledger_key b.ledger_accounts
  pub unique_transactions : UniqueKeys transaction_key b.transactions
  pub cached : CachedBalances b.accounts b.ledger_accounts b.postings
  pub sound : SoundBalances b.accounts
  pub has_ledgers : HasLedgers b.accounts b.ledger_accounts
  pub balanced : BalancedTransactions b.transactions b.postings
  pub known : KnownPostings b.transactions b.postings
  pub zero_sum : book_total b.postings ≡ pos 0
  pub fresh : FreshIds b
  pub sound_postings : Every (SoundPosting b.ledger_accounts) b.postings
  pub unique_holders : UniqueHolders b.ledger_accounts
  pub one_reversal : OneReversal b.transactions
