-- ===== src/Queries/Ledger/Rules.antt =====
-- A rule for each query of the ledger.
use monierave.Base.{ℕ, ◌≡◌, String, [], ◌∷◌, ◌++◌, none, some, ℤ, find_first, update_where}
use monierave.Models.{Uuid, LedgerAccount, BankingTransaction, LedgerPosting, Error, no_rows}
use monierave.Models.Tables.{Db}
use monierave.Store.Rules.{Runs, Faulty, query_rule, Answer-unless_fault, Answer-one}
use monierave.Queries.Ledger.{
  transaction_by_id, customer_ledger, settlement_ledger, with_transactions, TransactionParams,
  new_transaction, transaction_violation, create_banking_transaction, new_posting, with_posting,
  create_ledger_posting, new_customer_ledger, with_ledger, create_customer_ledger_account,
  get_customer_ledger_account, get_settlement_ledger_account, get_banking_transaction_for_update,
  postable, as_posted, mark_banking_transaction_posted, reversible, as_reversed,
  mark_banking_transaction_reversed, daily_outgoing_total, get_daily_outgoing_transfer_total,
}

module _ {E : Error → Db → Type 0} {Q : BankingTransaction → Db → Type 0} {d : Db}
    (fault : Faulty E) where
  pub create_banking_transaction_rule :
      (p : TransactionParams)
      → (transaction_violation p d.transactions ≡ none
          → Q
              (new_transaction p d.clock)
              (with_transactions d (d.transactions ++ new_transaction p d.clock ∷ [])))
      → Runs E Q (create_banking_transaction p) d
  unfolding create_banking_transaction
  create_banking_transaction_rule p h =
      query_rule _ fault
        (Answer-unless_fault E Q d (transaction_violation p d.transactions) _ (λ f. fault f d) h)

  pub get_banking_transaction_for_update_rule :
      (u : Uuid)
      → (transaction_by_id u d.transactions ≡ none → E no_rows d)
      → ((t : BankingTransaction) → transaction_by_id u d.transactions ≡ some t → Q t d)
      → Runs E Q (get_banking_transaction_for_update u) d
  unfolding get_banking_transaction_for_update
  get_banking_transaction_for_update_rule u missing found =
      query_rule _ fault (Answer-one E Q d (transaction_by_id u d.transactions) _ missing found)

  pub mark_banking_transaction_posted_rule :
      (u : Uuid)
      → (find_first (postable u) d.transactions ≡ none → E no_rows d)
      → ((t : BankingTransaction)
          → find_first (postable u) d.transactions ≡ some t
          → Q
              (as_posted d.clock t)
              (with_transactions d (update_where (postable u) (as_posted d.clock) d.transactions)))
      → Runs E Q (mark_banking_transaction_posted u) d
  unfolding mark_banking_transaction_posted
  mark_banking_transaction_posted_rule u missing found =
      query_rule _ fault (Answer-one E Q d (find_first (postable u) d.transactions) _ missing found)

  pub mark_banking_transaction_reversed_rule :
      (u : Uuid)
      → (find_first (reversible u) d.transactions ≡ none → E no_rows d)
      → ((t : BankingTransaction)
          → find_first (reversible u) d.transactions ≡ some t
          → Q (as_reversed d.clock t) (
              with_transactions d
                (update_where (reversible u) (as_reversed d.clock) d.transactions)))
      → Runs E Q (mark_banking_transaction_reversed u) d
  unfolding mark_banking_transaction_reversed
  mark_banking_transaction_reversed_rule u missing found =
      query_rule _ fault
        (Answer-one E Q d (find_first (reversible u) d.transactions) _ missing found)

module _ {E : Error → Db → Type 0} {d : Db} (fault : Faulty E) where
  pub create_ledger_posting_rule :
      {Q : LedgerPosting → Db → Type 0} (u : Uuid) (ledger : ℕ) (amount : ℤ)
      → Q (new_posting u ledger amount d) (with_posting (new_posting u ledger amount d) d)
      → Runs E Q (create_ledger_posting u ledger amount) d
  unfolding create_ledger_posting
  create_ledger_posting_rule u ledger amount h = query_rule _ fault h

  pub get_daily_outgoing_transfer_total_rule :
      {Q : ℤ → Db → Type 0} (ledger : ℕ)
      → Q (daily_outgoing_total ledger d.clock d.transactions d.postings) d
      → Runs E Q (get_daily_outgoing_transfer_total ledger) d
  unfolding get_daily_outgoing_transfer_total
  get_daily_outgoing_transfer_total_rule ledger h = query_rule _ fault h

module _ {E : Error → Db → Type 0} {Q : LedgerAccount → Db → Type 0} {d : Db}
    (fault : Faulty E) where
  pub create_customer_ledger_account_rule :
      (account : ℕ) (currency : String) (u : Uuid)
      → Q
          (new_customer_ledger account currency u d)
          (with_ledger (new_customer_ledger account currency u d) d)
      → Runs E Q (create_customer_ledger_account account currency u) d
  unfolding create_customer_ledger_account
  create_customer_ledger_account_rule account currency u h = query_rule _ fault h

  pub get_customer_ledger_account_rule :
      (id : ℕ)
      → (customer_ledger id d.ledger_accounts ≡ none → E no_rows d)
      → ((l : LedgerAccount) → customer_ledger id d.ledger_accounts ≡ some l → Q l d)
      → Runs E Q (get_customer_ledger_account id) d
  unfolding get_customer_ledger_account
  get_customer_ledger_account_rule id missing found =
      query_rule _ fault (Answer-one E Q d (customer_ledger id d.ledger_accounts) _ missing found)

  pub get_settlement_ledger_account_rule :
      (currency : String)
      → (settlement_ledger currency d.ledger_accounts ≡ none → E no_rows d)
      → ((l : LedgerAccount) → settlement_ledger currency d.ledger_accounts ≡ some l → Q l d)
      → Runs E Q (get_settlement_ledger_account currency) d
  unfolding get_settlement_ledger_account
  get_settlement_ledger_account_rule currency missing found =
      query_rule _ fault
        (Answer-one E Q d (settlement_ledger currency d.ledger_accounts) _ missing found)
