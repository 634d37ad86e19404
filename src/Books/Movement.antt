-- ===== src/Books/Movement.antt =====
-- One posted transaction with two opposite postings, and the cached balances that follow it, keep
-- the books consistent: a transfer, a deposit or a withdrawal.
use mathlib.Core.List.{append_assoc}
use monierave.Books.Entry.{IsConsistent-entered}
use monierave.Base.{
  Negatable, subst, int_laws, pos_part, neg_part, ℕ, ◌≡◌, true, false, List, [], ◌∷◌, ◌++◌, none,
  some, ℤ, pos, ◌+ℤ◌, arith, UniqueKeys, sym, ap,
}
use monierave.Models.{Time, Account, LedgerAccount, BankingTransaction, LedgerPosting, is_pending}
use monierave.Models.Tables.{Books}
use monierave.Queries.Ledger.{reversed_twice, transaction_by_id, ledger_by_id}
use monierave.Books.Sums.{sum_if}
use monierave.Books.Invariant.{account_key, SoundBalances, IsConsistent}
use monierave.Books.Credits.{AccountsMoved}
use monierave.Books.Posts.{LedgersMoved}
use monierave.Books.Transactions.{posted_into}

abbrev pub moved_books :
    Books → Time → BankingTransaction → LedgerPosting → LedgerPosting → List Account → ℕ → Books
moved_books b now t p q accounts next = record b {
  accounts = accounts;
  transactions = posted_into now b.transactions t;
  postings = (b.postings ++ p ∷ []) ++ q ∷ [];
  next_posting_id = next;
}

module _ (b : Books) (now : Time) (t : BankingTransaction) (p q : LedgerPosting)
    (accounts : List Account) (next : ℕ) (consistent : IsConsistent b) (f : ℕ → ℤ)
    (moved : AccountsMoved f b.accounts accounts) where
  pub IsConsistent-moved :
      (g : ℕ → ℤ) (lp lq : LedgerAccount)
      → ((id : ℕ) → f id ≡ g id)
      → UniqueKeys account_key accounts
      → SoundBalances accounts
      → LedgersMoved g b.ledger_accounts b.postings ((b.postings ++ p ∷ []) ++ q ∷ [])
      → transaction_by_id t.id b.transactions ≡ none
      → is_pending t.status ≡ true
      → reversed_twice t.reversal_of b.transactions ≡ false
      → p.transaction_id ≡ t.id
      → q.transaction_id ≡ t.id
      → p.amount +ℤ q.amount ≡ pos 0
      → Negatable p.amount
      → Negatable q.amount
      → ledger_by_id p.ledger_account_id b.ledger_accounts ≡ some lp
      → ledger_by_id q.ledger_account_id b.ledger_accounts ≡ some lq
      → IsConsistent (moved_books b now t p q accounts next)
  unfolding sum_if
  IsConsistent-moved g lp lq same unique sound ledgers new waiting single tp tq opposite np nq elp
        elq =
      let regroup = append_assoc b.postings (p ∷ []) (q ∷ []) in
      subst (λ ps. IsConsistent (record (moved_books b now t p q accounts next) { postings = ps }))
        (sym regroup)
        (IsConsistent-entered b now t (p ∷ q ∷ []) accounts next consistent f moved g same unique
          sound (subst (λ ps. LedgersMoved g b.ledger_accounts b.postings ps) regroup ledgers) new
          waiting single (tp, (tq, tt))
          (omega (int_laws, ap pos_part opposite, ap neg_part opposite)) (omega arith)
          ((np, (lp, elp)), ((nq, (lq, elq)), tt)))
