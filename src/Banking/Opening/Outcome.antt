-- ===== src/Banking/Opening/Outcome.antt =====
-- How opening an account can end.
use monierave.Base.{
  ℕ, zero, suc, ◌≡◌, refl, String, Option, none, some, pos, Bool-cases, inl, inr, if◌then◌else◌,
}
use monierave.Models.{Account, LedgerAccount, Error, active}
use monierave.Models.Tables.{Db}
use monierave.Store.{Tx, raise}
use monierave.Store.Rules.{
  Runs, AnyError, pure_rule, raise_rule, then_rule, bind_rule, catch_rule, weaken, new_uuid_rule,
  random_below_rule, same_start,
}
use monierave.Store.Atomic.{TxError-unchanged, exec_tx_rule}
use monierave.Queries.Accounts.{CreateAccountParams, create_account_rule, account_by_number}
use monierave.Queries.Ledger.Rules.{create_customer_ledger_account_rule}
use monierave.Books.Invariant.{IsConsistent}
use monierave.Books.Opening.{opened_books, opened-IsConsistent}
use monierave.Banking.Audit.{create_financial_audit_rule}
use monierave.Banking.Opening.{
  number_of_draw, generate_account_number, is_account_number_collision,
  create_account_with_generated_number, create_account_attempt, CreateAccountTxParams, numbered,
  create_account_tx,
}

-- The account that was opened: empty, active, under a number that was free, with a ledger account.
pub record Opened (owner currency : String) (d : Db) (a : Account) (d' : Db) : Type 0 where
  pub owned : a.owner ≡ owner
  pub in_currency : a.currency ≡ currency
  pub empty_balance : a.balance ≡ pos 0
  pub is_active : a.status ≡ active
  pub free_number : account_by_number a.account_number d.accounts ≡ none
  pub ledger : LedgerAccount
  pub books : d'.books ≡ opened_books d.books a ledger
  pub consistent : IsConsistent d'.books

create_account_attempt-Opened :
    (p : CreateAccountParams) (d : Db)
    → IsConsistent d.books
    → Runs (λ _ d'. d' ≡ d) (Opened p.owner p.currency d) (create_account_attempt p) d
unfolding create_account_attempt
create_account_attempt-Opened p d c =
    weaken
      (exec_tx_rule {E = AnyError} (
        then_rule (
          new_uuid_rule λ u. then_rule (
            create_account_rule (λ _ _. tt) p u
              λ free. then_rule (
                new_uuid_rule λ v. then_rule (
                  create_customer_ledger_account_rule (λ _ _. tt) _ _ v
                    (then_rule (
                      create_financial_audit_rule (λ _ _. tt) _
                        (pure_rule _ (record {
                          owned = refl;
                          in_currency = refl;
                          empty_balance = refl;
                          is_active = refl;
                          free_number = free;
                          ledger = _;
                          books = refl;
                          consistent =
                              opened-IsConsistent d.books _ _ refl refl refl refl refl refl c;
                        }))))))))))
      (λ a d' o. o) (λ e d' h. TxError-unchanged h)

module _ {Q : Account → Db → Type 0} (generate : Tx String) (create : String → Tx Account) (d : Db)
    (draws : Runs (λ _ d'. d' ≡ d) (λ _ d'. d' ≡ d) generate d)
    (creates : (n : String) → Runs (λ _ d'. d' ≡ d) Q (create n) d) where
  retried :
      (attempts : ℕ) (e : Error) (d' : Db)
      → d' ≡ d
      → Runs (λ _ x. x ≡ d) Q (create_account_with_generated_number attempts generate create) d
      → Runs
          (λ _ x. x ≡ d)
          Q
          (if is_account_number_collision e
            then create_account_with_generated_number attempts generate create
            else raise e)
          d'
  retried attempts e d' same again = elim (Bool-cases (is_account_number_collision e)) [
    | inl taken ↦ rw (taken, same) again
    | inr other ↦ rw other (raise_rule e same)
  ]

  -- Every attempt starts from the same database, and the loop ends in one of their outcomes.
  pub create_account_with_generated_number_rule :
      (attempts : ℕ)
      → Runs (λ _ d'. d' ≡ d) Q (create_account_with_generated_number attempts generate create) d
  unfolding create_account_with_generated_number
  create_account_with_generated_number_rule zero = raise_rule _ refl
  create_account_with_generated_number_rule (suc attempts) = bind_rule draws λ n d' same.
      same_start same (
        catch_rule (creates n)
          λ e x h. retried attempts e x h (create_account_with_generated_number_rule attempts))

generate-unchanged : (d : Db) → Runs (λ _ d'. d' ≡ d) (λ _ d'. d' ≡ d) generate_account_number d
unfolding generate_account_number number_of_draw
generate-unchanged d = then_rule (random_below_rule _ λ o. drawn o)
  where
    drawn : (o : Option ℕ) → Runs (λ _ d'. d' ≡ d) (λ _ d'. d' ≡ d) (number_of_draw o) d
    drawn none = raise_rule _ refl
    drawn (some n) = pure_rule _ refl

-- From consistent books, opening an account ends with an empty, active account of the caller's under
-- a number that was free, with a ledger account of its own and consistent books, or it returns an
-- error and leaves the whole database as it was, whatever numbers are drawn.
pub create_account_tx-outcome :
    (p : CreateAccountTxParams) (d : Db)
    → IsConsistent d.books
    → Runs (λ _ d'. d' ≡ d) (Opened p.owner p.currency d) (create_account_tx p) d
unfolding create_account_tx
create_account_tx-outcome p d c =
    create_account_with_generated_number_rule generate_account_number _ d (generate-unchanged d)
      (λ n. create_account_attempt-Opened (numbered p n) d c) _
