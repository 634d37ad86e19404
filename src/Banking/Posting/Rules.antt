-- ===== src/Banking/Posting/Rules.antt =====
-- Rules for the helpers that post a transaction.
use monierave.Base.{
  ℕ, ◌≡◌, List, [], ◌∷◌, ◌++◌, true, false, none, some, String, ℤ, pos, ltb, leb_ℤ, ◌==ℤ◌, not,
  length, neg64, arith, subst, eq_of_parts, find_first, update_where,
}
use monierave.Models.{
  Uuid, Account, LedgerAccount, BankingTransaction, LedgerPosting, Error, no_rows,
  insufficient_balance, amount_not_positive, too_few_postings, unbalanced_postings, not_found_as,
}
use monierave.Models.Tables.{Db}
use monierave.Store.{ok, err}
use monierave.Store.Rules.{
  Runs, Faulty, pure_rule, lift_rule, on_error_rule, new_uuid_rule, uuid_hex_text_rule,
  fail_if_rule, then_rule,
}
use monierave.Queries.Accounts.{covers, credited, with_accounts, add_account_balance_internal_rule}
use monierave.Queries.Ledger.{
  customer_ledger, with_transactions, new_transaction, transaction_violation, new_posting,
  with_posting,
}
use monierave.Queries.Ledger.Rules.{
  create_banking_transaction_rule, create_ledger_posting_rule, get_customer_ledger_account_rule,
}
use monierave.Banking.Posting.{
  PendingTransactionParams, PostingParams, posting_total, create_postings, transaction_params,
  create_balanced_transaction, customer_ledger_account, subtract_account_balance,
}

-- The rows that the loop inserts, and the database after it.
abbrev pub posted_rows : Uuid → List PostingParams → Db → List LedgerPosting
posted_rows u [] d = []
posted_rows u (p ∷ ps) d =
    let row = new_posting u p.ledger_account_id p.amount d in
    row ∷ posted_rows u ps (with_posting row d)

abbrev pub posted_db : Uuid → List PostingParams → Db → Db
posted_db u [] d = d
posted_db u (p ∷ ps) d =
    posted_db u ps (with_posting (new_posting u p.ledger_account_id p.amount d) d)

-- The database with one more pending transaction and its postings.
abbrev pub pending_db : BankingTransaction → List PostingParams → Db → Db
pending_db t ps d = posted_db t.id ps (with_transactions d (d.transactions ++ t ∷ []))

pub total_zero : (a : ℤ) → not (a ==ℤ pos 0) ≡ false → a ≡ pos 0
total_zero a h = eq_of_parts a (pos 0) (ground arith)

module _ {E : Error → Db → Type 0} where
  pub create_postings_rule :
      Faulty E
      → (u : Uuid) (ps : List PostingParams) {Q : List LedgerPosting → Db → Type 0} {d : Db}
      → Q (posted_rows u ps d) (posted_db u ps d)
      → Runs E Q (create_postings u ps) d
  unfolding create_postings
  create_postings_rule fault u [] h = pure_rule [] h
  create_postings_rule fault u (p ∷ ps) h = then_rule (
      create_ledger_posting_rule fault u p.ledger_account_id p.amount
        (then_rule (create_postings_rule fault u ps (pure_rule _ h))))

  pub create_balanced_transaction_rule :
      {Q : BankingTransaction × List LedgerPosting → Db → Type 0} {d : Db}
      → Faulty E
      → (p : PendingTransactionParams) (ps : List PostingParams)
      → (leb_ℤ p.amount (pos 0) ≡ true → E amount_not_positive d)
      → (ltb (length ps) 2 ≡ true → E too_few_postings d)
      → ((e : Error) → posting_total (pos 0) ps ≡ err e → E e d)
      → ((a : ℤ)
          → posting_total (pos 0) ps ≡ ok a
          → not (a ==ℤ pos 0) ≡ true
          → E unbalanced_postings d)
      → ((id : Uuid) (hex : String)
          → leb_ℤ p.amount (pos 0) ≡ false
          → posting_total (pos 0) ps ≡ ok (pos 0)
          → transaction_violation (transaction_params p id hex) d.transactions ≡ none
          → let t = new_transaction (transaction_params p id hex) d.clock in
            let d1 = with_transactions d (d.transactions ++ t ∷ []) in
            Q (t, posted_rows id ps d1) (posted_db id ps d1))
      → Runs E Q (create_balanced_transaction p ps) d
  unfolding create_balanced_transaction
  create_balanced_transaction_rule fault p ps low few bad off h = then_rule (
      fail_if_rule _ low λ positive. then_rule (
        fail_if_rule _ few λ enough. then_rule (
          lift_rule _
            (λ total sum. then_rule (
              fail_if_rule _ (off total sum) λ zero. then_rule (
                new_uuid_rule λ id. then_rule (
                  uuid_hex_text_rule id λ hex. then_rule (
                    create_banking_transaction_rule fault _ λ fresh. then_rule (
                      create_postings_rule fault id ps (
                        pure_rule _ (
                          h id hex positive
                            (subst (λ a. posting_total (pos 0) ps ≡ ok a) (total_zero total zero)
                              sum)
                            fresh))))))))
            bad)))

  pub customer_ledger_account_rule :
      {Q : LedgerAccount → Db → Type 0} {d : Db}
      → Faulty E
      → (id : ℕ) → (customer_ledger id d.ledger_accounts ≡ none → E no_rows d)
      → ((l : LedgerAccount) → customer_ledger id d.ledger_accounts ≡ some l → Q l d)
      → Runs E Q (customer_ledger_account id) d
  unfolding customer_ledger_account
  customer_ledger_account_rule fault id missing found =
      get_customer_ledger_account_rule fault id missing found

  pub subtract_account_balance_rule :
      {Q : Account → Db → Type 0} {d : Db}
      → Faulty E
      → (id : ℕ) (amount : ℤ)
      → (find_first (covers id (neg64 amount)) d.accounts ≡ none → E insufficient_balance d)
      → ((a : Account)
          → find_first (covers id (neg64 amount)) d.accounts ≡ some a
          → Q (credited (neg64 amount) d.clock a) (
              with_accounts d (
                update_where
                  (covers id (neg64 amount))
                  (credited (neg64 amount) d.clock)
                  d.accounts)))
      → Runs E Q (subtract_account_balance id amount) d
  unfolding subtract_account_balance
  subtract_account_balance_rule fault id amount short h =
      on_error_rule (not_found_as insufficient_balance)
        (add_account_balance_internal_rule fault id (neg64 amount) short h)
