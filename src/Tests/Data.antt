-- ===== src/Tests/Data.antt =====
-- A bank with two accounts: alice's holds 5,000 cents, deposited in one transaction; bob's is empty.
use monierave.Base.{
  count_where, ℕ, String, ◌≡◌, refl, ◌≤◌, [], ◌∷◌, ◌++◌, none, some, pos, negsuc, arith, find_first,
  ◌⊎◌, ◌+ℤ◌, some_eq, none_ne_some, sym, ◌∙◌, ap, subst, ◌==◌, Bool-cases, inl, inr, ==_iff,
}
use monierave.Models.{
  User, Account, active, LedgerAccount, customer, BankingTransaction, deposit, posted,
}
use monierave.Models.Tables.{Books, Db, opening_books}
use monierave.Queries.Accounts.{account_by_id}
use monierave.Queries.Ledger.{customer_ledger}
use monierave.Books.Invariant.{
  IsConsistent, CachedBalances, SoundBalances, HasLedgers, BalancedTransactions, KnownPostings,
  FreshIds,
}
use monierave.Books.Sums.{sum_if, count_if, ledger_balance, posting_sum, posting_count}

abbrev pub alice_account : Account
alice_account = record {
  id = 1;
  owner = "alice";
  balance = pos 5_000;
  currency = "USD";
  created_at = 0;
  public_id = 101;
  status = active;
  updated_at = 0;
  closed_at = none;
  account_number = "0000000001";
}

abbrev pub bob_account : Account
bob_account = record alice_account {
  id = 2;
  owner = "bob";
  balance = pos 0;
  public_id = 102;
  account_number = "0000000002";
}

abbrev customer_row : ℕ → ℕ → LedgerAccount
customer_row id account = record {
  id = id;
  public_id = id;
  customer_account_id = some account;
  code = none;
  kind = customer;
  currency = "USD";
  created_at = 0;
}

abbrev pub sample_deposit : BankingTransaction
sample_deposit = record {
  id = 500;
  reference = "TXN-500";
  transaction_type = deposit;
  status = posted;
  currency = "USD";
  amount = pos 5_000;
  narration = "cash";
  initiated_by = "teller";
  reversal_of = none;
  created_at = 0;
  posted_at = some 0;
  failed_at = none;
  reversed_at = none;
}

abbrev pub sample_books : Books
sample_books = record opening_books {
  accounts = alice_account ∷ bob_account ∷ [];
  ledger_accounts = opening_books.ledger_accounts ++ customer_row 3 1 ∷ customer_row 4 2 ∷ [];
  transactions = sample_deposit ∷ [];
  postings =
      record {
        id = 1;
        transaction_id = 500;
        ledger_account_id = 1;
        amount = negsuc 4_999;
        created_at = 0;
      }
      ∷ record {
        id = 2;
        transaction_id = 500;
        ledger_account_id = 3;
        amount = pos 5_000;
        created_at = 0;
      }
      ∷ [];
  next_account_id = 3;
  next_ledger_id = 5;
  next_posting_id = 3;
}

abbrev pub sample_user : String → String → String → User
sample_user name full_name email = record {
  username = name;
  hashed_password = "";
  full_name = full_name;
  email = email;
  email_verified_at = some 1;
  email_deliverability_status = "deliverable";
  email_deliverability_updated_at = some 1;
  email_bounced_at = none;
  account_status = "active";
  registration_expires_at = none;
}

abbrev pub sample_db : Db
sample_db = record {
  books = sample_books;
  users =
      sample_user "alice" "Alice" "alice@example.com"
      ∷ sample_user "bob" "Bob" "bob@example.com"
      ∷ [];
  audit_logs = [];
  next_audit_id = 1;
  email_jobs = [];
  email_delivery_events = [];
  outbox_events = [];
  idempotency_keys = [];
  sessions = [];
  beneficiaries = [];
  next_key_id = 1;
  clock = 1_000;
}

sample_rows :
    (id : ℕ) (a : Account)
    → account_by_id id sample_books.accounts ≡ some a
    → ((id ≡ 1) × (a ≡ alice_account)) ⊎ ((id ≡ 2) × (a ≡ bob_account))
unfolding find_first
sample_rows id a e = elim (Bool-cases (1 == id)) [
  | inl one ↦ inl (sym ((==_iff 1 id).0 one), some_eq (sym e ∙ rw one))
  | inr other ↦ elim (Bool-cases (2 == id)) [
    | inl two ↦ inr (sym ((==_iff 2 id).0 two), some_eq (sym e ∙ rw (other, two)))
    | inr neither ↦ absurd (none_ne_some (rw (other, neither) at e))
  ]
]

balance_of :
    (id : ℕ) (a b : Account) (l m : LedgerAccount)
    → a ≡ b
    → l ≡ m
    → b.balance ≡ ledger_balance m.id sample_books.postings
    → a.balance ≡ ledger_balance l.id sample_books.postings
balance_of id a b l m same ledger h =
    ap (λ (x : Account). x.balance) same
    ∙ h
    ∙ ap (λ (x : LedgerAccount). ledger_balance x.id sample_books.postings) (sym ledger)

sample-CachedBalances :
    CachedBalances sample_books.accounts sample_books.ledger_accounts sample_books.postings
unfolding find_first sum_if ◌+ℤ◌
sample-CachedBalances id a l e el = elim (sample_rows id a e) [
  | inl (one, same) ↦
      balance_of 1 a alice_account l (customer_row 3 1) same
        (some_eq
          (sym (subst (λ k. customer_ledger k sample_books.ledger_accounts ≡ some l) one el)))
        refl
  | inr (two, same) ↦
      balance_of 2 a bob_account l (customer_row 4 2) same
        (some_eq
          (sym (subst (λ k. customer_ledger k sample_books.ledger_accounts ≡ some l) two el)))
        refl
]

sample-SoundBalances : SoundBalances sample_books.accounts
unfolding find_first
sample-SoundBalances id a e = ground arith

sample-HasLedgers : HasLedgers sample_books.accounts sample_books.ledger_accounts
unfolding find_first
sample-HasLedgers id a e = elim (Bool-cases (1 == id)) [
  | inl one ↦ (customer_row 3 1, ground arith)
  | inr other ↦ (customer_row 4 2, ground arith)
]

sample-BalancedTransactions : BalancedTransactions sample_books.transactions sample_books.postings
unfolding find_first sum_if count_if ◌+ℤ◌
sample-BalancedTransactions u t e s = elim (Bool-cases (500 == u)) [
  | inl here ↦
      subst
        (λ v.
          (posting_sum v sample_books.postings ≡ pos 0)
          × (2 ≤ posting_count v sample_books.postings))
        ((==_iff 500 u).0 here) (refl, omega arith)
  | inr other ↦ absurd (none_ne_some (rw other at e))
]

sample-KnownPostings : KnownPostings sample_books.transactions sample_books.postings
unfolding find_first count_if
sample-KnownPostings u e = ground arith

sample-FreshIds : FreshIds sample_books
unfolding find_first count_if
sample-FreshIds = record {
  account_unused = λ n h. ground arith;
  owner_unused = λ n h. ground arith;
  ledger_unused = λ n h. ground arith;
  posting_unused = λ n h. ground arith;
}

pub sample-IsConsistent : IsConsistent sample_books
unfolding find_first sum_if ◌+ℤ◌ count_where
sample-IsConsistent = record {
  unique_accounts = (refl, (refl, tt));
  unique_ledgers = (refl, (refl, (refl, (refl, tt))));
  unique_transactions = (refl, tt);
  cached = sample-CachedBalances;
  sound = sample-SoundBalances;
  has_ledgers = sample-HasLedgers;
  balanced = sample-BalancedTransactions;
  known = sample-KnownPostings;
  zero_sum = refl;
  sound_postings =
      (((omega arith, omega arith), (_, refl)), (((omega arith, omega arith), (_, refl)), tt));
  unique_holders = λ n l h e held. ground arith;
  one_reversal = λ u. omega arith;
  fresh = sample-FreshIds;
}
