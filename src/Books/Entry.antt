-- ===== src/Books/Entry.antt =====
-- One transaction with any number of postings that add up to nothing, posted, and the cached balances
-- that follow it, keep the books consistent: a transfer, a deposit, a withdrawal or a reversal.
use mathlib.Core.Bool.{false≢true}
use monierave.Base.{
  ℕ, ◌≤◌, ◌≡◌, refl, ◌≢◌, true, false, List, [], ◌∷◌, ◌++◌, Option, none, some, ℤ, pos, length,
  int_laws, arith, ap, sym, ◌∙◌, subst, ◌==◌, ==_iff, not_equal, UniqueKeys, Every, Every-append,
  Every-weaken, count_where, count_where-append, count_where-update_where, count_where-none,
  none_ne_some, Option-cases, Bool-cases, inl, inr, find_first,
}
use monierave.Models.{Uuid, Time, Account, BankingTransaction, LedgerPosting, is_pending}
use monierave.Models.Tables.{Books}
use monierave.Queries.Accounts.{account_by_id}
use monierave.Queries.Ledger.{
  ledger_by_id, transaction_by_id, postable, as_posted, reverses, reversed_twice, is_some,
}
use monierave.Books.Sums.{
  on_ledger, on_transaction, posting_sum, posting_count, book_total, count_if, sum_if_concat,
  count_if_concat, sum_if-false, count_if-false, sum_if-true, count_if-true, sum_if-none,
}
use monierave.Books.Invariant.{IsConsistent, account_key, SoundBalances, SoundPosting, OneReversal}
use monierave.Books.Credits.{AccountsMoved}
use monierave.Books.Posts.{LedgersMoved, CachedBalances-moved}
use monierave.Books.Transactions.{
  posted_into, UniqueKeys-after_posting, BalancedTransactions-after_posting,
  KnownPostings-after_posting,
}

-- New postings of one transaction that had none.
module _ (u : Uuid) (ps new : List LedgerPosting)
    (own : Every (λ p. p.transaction_id ≡ u) new) where
  own_test : Every (λ p. on_transaction u p ≡ true) new
  own_test = Every-weaken new (λ p e. (==_iff p.transaction_id u).1 e) own

  other_test : (v : Uuid) → v ≢ u → Every (λ p. on_transaction v p ≡ false) new
  other_test v ne = Every-weaken new (λ p e. not_equal p.transaction_id v (λ x. ne (sym x ∙ e))) own

  pub entry_others :
      (v : Uuid)
      → v ≢ u
      → (posting_sum v (ps ++ new) ≡ posting_sum v ps)
        × (posting_count v (ps ++ new) ≡ posting_count v ps)
  entry_others v ne = (
    sum_if_concat (on_transaction v) ps new
        ∙ rw (sum_if-false (on_transaction v) new (other_test v ne)) (omega int_laws),
    count_if_concat (on_transaction v) ps new
        ∙ rw (count_if-false (on_transaction v) new (other_test v ne)) (omega arith),
  )

  pub entry_sum :
      posting_count u ps ≡ 0 → book_total new ≡ pos 0 → posting_sum u (ps ++ new) ≡ pos 0
  entry_sum unused zero =
      sum_if_concat (on_transaction u) ps new
      ∙ rw
          (
            sum_if-none (on_transaction u) ps unused,
            sum_if-true (on_transaction u) new own_test,
            zero,
          )
          (omega int_laws)

  pub entry_count : posting_count u ps ≡ 0 → posting_count u (ps ++ new) ≡ length new
  entry_count unused =
      count_if_concat (on_transaction u) ps new
      ∙ rw (unused, count_if-true (on_transaction u) new own_test) (omega arith)

-- A transaction that reverses one that was reversed by none.
module _ (now : Time) (rows : List BankingTransaction) (t : BankingTransaction) where
  none_before :
      (u : Uuid) (o : Option Uuid)
      → reversed_twice o rows ≡ false
      → (elim o [ none ↦ false | some v ↦ v == u ]) ≡ true
      → count_where (reverses u) rows ≡ 0
  none_before u none h e = absurd (false≢true e)
  none_before u (some v) h e = count_where-none (reverses u) rows (
      subst (λ k. find_first (reverses k) rows ≡ none) ((==_iff v u).0 e)
        (missing (find_first (reverses v) rows) h))
    where
      missing : (x : Option BankingTransaction) → is_some x ≡ false → x ≡ none
      missing none k = refl
      missing (some y) k = absurd (false≢true (sym k))

  pub OneReversal-after_posting :
      reversed_twice t.reversal_of rows ≡ false
      → OneReversal rows
      → OneReversal (posted_into now rows t)
  unfolding count_where
  OneReversal-after_posting single h u =
      rw
        (
          count_where-update_where (reverses u) (postable t.id) (as_posted now) (rows ++ t ∷ [])
              (λ x. refl),
          count_where-append (reverses u) rows (t ∷ []),
        )
        (elim (Bool-cases (reverses u t)) [
          | inl hit ↦ rw (hit, none_before u t.reversal_of single hit) (omega arith)
          | inr miss ↦ rw miss (omega (arith, h u))
        ])

abbrev pub entered_books :
    Books → Time → BankingTransaction → List LedgerPosting → List Account → ℕ → Books
entered_books b now t new accounts next = record b {
  accounts = accounts;
  transactions = posted_into now b.transactions t;
  postings = b.postings ++ new;
  next_posting_id = next;
}

module _ (b : Books) (now : Time) (t : BankingTransaction) (new : List LedgerPosting)
    (accounts : List Account) (next : ℕ) (consistent : IsConsistent b) where
  open consistent use {
    unique_ledgers, unique_transactions, cached, has_ledgers, balanced, known, zero_sum, fresh,
    sound_postings, unique_holders, one_reversal,
  }

  unused_by_new :
      (n : ℕ)
      → b.next_ledger_id ≤ n
      → Every (SoundPosting b.ledger_accounts) new
      → count_if (on_ledger n) new ≡ 0
  unused_by_new n h sound = count_if-false (on_ledger n) new (
      Every-weaken new
        (λ p (_, (l, e)). not_equal p.ledger_account_id n λ x.
          none_ne_some (
            sym (fresh.ledger_unused n h) ∙ ap (λ k. ledger_by_id k b.ledger_accounts) (sym x) ∙ e))
        sound)

  module _ (f : ℕ → ℤ) (moved : AccountsMoved f b.accounts accounts) where
    account_unused_after : (n : ℕ) → b.next_account_id ≤ n → account_by_id n accounts ≡ none
    account_unused_after n h = elim (Option-cases (account_by_id n accounts)) [
      | inl missing ↦ missing
      | inr (a', e) ↦
          let (a, ea, _, _) = moved n a' e in
          absurd (none_ne_some (sym (fresh.account_unused n h) ∙ ea))
    ]

    pub IsConsistent-entered :
        (g : ℕ → ℤ)
        → ((id : ℕ) → f id ≡ g id)
        → UniqueKeys account_key accounts
        → SoundBalances accounts
        → LedgersMoved g b.ledger_accounts b.postings (b.postings ++ new)
        → transaction_by_id t.id b.transactions ≡ none
        → is_pending t.status ≡ true
        → reversed_twice t.reversal_of b.transactions ≡ false
        → Every (λ p. p.transaction_id ≡ t.id) new
        → book_total new ≡ pos 0
        → 2 ≤ length new
        → Every (SoundPosting b.ledger_accounts) new
        → IsConsistent (entered_books b now t new accounts next)
    IsConsistent-entered g same unique sound ledgers unknown waiting single own zero enough
          sound_new =
        record {
          unique_accounts = unique;
          unique_ledgers = unique_ledgers;
          unique_transactions =
              UniqueKeys-after_posting now b.transactions t unknown unique_transactions;
          cached =
              CachedBalances-moved f g b.ledger_accounts b.accounts accounts b.postings _ same moved
                ledgers cached;
          sound = sound;
          has_ledgers = λ id a' e. let (a, ea, _, _) = moved id a' e in has_ledgers id a ea;
          balanced =
              BalancedTransactions-after_posting now b.transactions t unknown b.postings _
                (entry_others t.id b.postings new own)
                (entry_sum t.id b.postings new own (known t.id unknown) zero)
                (subst (λ n. 2 ≤ n) (sym (entry_count t.id b.postings new own (known t.id unknown)))
                  enough)
                balanced;
          known =
              KnownPostings-after_posting now b.transactions t unknown b.postings _
                (entry_others t.id b.postings new own) waiting known;
          zero_sum =
              sum_if_concat (λ r. true) b.postings new ∙ rw (zero_sum, zero) (omega int_laws);
          fresh = record {
            account_unused = account_unused_after;
            owner_unused = fresh.owner_unused;
            ledger_unused = fresh.ledger_unused;
            posting_unused = λ n h.
                count_if_concat (on_ledger n) b.postings new
                ∙ rw (fresh.posting_unused n h, unused_by_new n h sound_new) (omega arith);
          };
          sound_postings =
              Every-append (SoundPosting b.ledger_accounts) b.postings new sound_postings sound_new;
          unique_holders = unique_holders;
          one_reversal = OneReversal-after_posting now b.transactions t single one_reversal;
        }
