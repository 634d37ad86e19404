-- ===== src/Books/Marking.antt =====
-- A posted transaction that is marked as reversed keeps the books consistent: it stays settled.
use mathlib.Core.Option
use monierave.Base.{
  ◌≡◌, refl, true, some, if◌then◌else◌, update_where, by_key-update_where, UniqueKeys-update_where,
  count_where-update_where, Option-cases, inl, inr, some_eq, none_ne_some, sym, ◌∙◌, ap, subst,
  arith, ◌≤◌,
}
use monierave.Models.{Uuid, Time, BankingTransaction}
use monierave.Models.Tables.{Books}
use monierave.Queries.Ledger.{transaction_by_id, reversible, as_reversed, reverses}
use monierave.Books.Invariant.{transaction_key, settled, KnownPostings, IsConsistent}

abbrev pub marked_books : Books → Uuid → Time → Books
marked_books b u now = record b {
  transactions = update_where (reversible u) (as_reversed now) b.transactions;
}

module _ (b : Books) (u : Uuid) (now : Time) (c : IsConsistent b) where
  open c use {
    unique_accounts, unique_ledgers, unique_transactions, cached, sound, has_ledgers, balanced,
    known, zero_sum, fresh, sound_postings, unique_holders, one_reversal,
  }

  marked_row : BankingTransaction → BankingTransaction
  marked_row t = if reversible u t then as_reversed now t else t

  lookup :
      (v : Uuid)
      → transaction_by_id v (update_where (reversible u) (as_reversed now) b.transactions)
        ≡ Option.map marked_row (transaction_by_id v b.transactions)
  unfolding marked_row
  lookup v =
      by_key-update_where transaction_key v (reversible u) (as_reversed now) b.transactions
        (λ x. refl)

  settled_before :
      (t : BankingTransaction) → settled (marked_row t).status ≡ true → settled t.status ≡ true
  unfolding marked_row
  settled_before t h = ground arith

  row_before :
      (v : Uuid) (t' : BankingTransaction)
      → transaction_by_id v (update_where (reversible u) (as_reversed now) b.transactions) ≡ some t'
      → (t : BankingTransaction) × (transaction_by_id v b.transactions ≡ some t)
        × (t' ≡ marked_row t)
  row_before v t' e = elim (Option-cases (transaction_by_id v b.transactions)) [
    | inl missing ↦ absurd (none_ne_some (sym (rw missing at (lookup v)) ∙ e))
    | inr (t, et) ↦ (t, et, some_eq (sym e ∙ rw et at (lookup v)))
  ]

  marked-KnownPostings :
      KnownPostings (update_where (reversible u) (as_reversed now) b.transactions) b.postings
  marked-KnownPostings v e = elim (Option-cases (transaction_by_id v b.transactions)) [
    | inl missing ↦ known v missing
    | inr (t, et) ↦ absurd (none_ne_some (sym e ∙ rw et at (lookup v)))
  ]

  pub IsConsistent-marked : IsConsistent (marked_books b u now)
  IsConsistent-marked = record {
    unique_accounts = unique_accounts;
    unique_ledgers = unique_ledgers;
    unique_transactions =
        UniqueKeys-update_where transaction_key (reversible u) (as_reversed now) b.transactions
          (λ x. refl) unique_transactions;
    cached = cached;
    sound = sound;
    has_ledgers = has_ledgers;
    balanced = λ v t' e s.
        let (t, et, same) = row_before v t' e in
        balanced v t et
          (settled_before t (ap (λ (x : BankingTransaction). settled x.status) (sym same) ∙ s));
    known = marked-KnownPostings;
    zero_sum = zero_sum;
    fresh = record {
      account_unused = fresh.account_unused;
      owner_unused = fresh.owner_unused;
      ledger_unused = fresh.ledger_unused;
      posting_unused = fresh.posting_unused;
    };
    sound_postings = sound_postings;
    unique_holders = unique_holders;
    one_reversal = λ v.
        subst (λ n. n ≤ 1)
          (sym (
            count_where-update_where (reverses v) (reversible u) (as_reversed now) b.transactions
              (λ x. refl)))
          (one_reversal v);
  }
