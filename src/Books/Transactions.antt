-- ===== src/Books/Transactions.antt =====
-- A transaction that is created, given its postings, and marked posted.
use mathlib.Core.Bool.{false≢true}
use mathlib.Core.Option
use monierave.Base.{
  ◌≤◌, ◌≡◌, refl, ◌≢◌, true, false, List, [], ◌∷◌, ◌++◌, none, some, pos, ap, sym, ◌∙◌, arith, ◌==◌,
  ==_iff, if◌then◌else◌, UniqueKeys, UniqueKeys-append, UniqueKeys-update_where,
  by_key-update_where, by_key-key, find_first, find_first-append, update_where, none_ne_some,
  Bool-cases, Option-cases, inl, inr, not_equal,
}
use monierave.Models.{Uuid, Time, BankingTransaction, LedgerPosting, is_pending}
use monierave.Queries.Ledger.{transaction_by_id, postable, as_posted}
use monierave.Books.Sums.{posting_sum, posting_count}
use monierave.Books.Invariant.{transaction_key, BalancedTransactions, KnownPostings}

abbrev pub posted_into :
    Time → List BankingTransaction → BankingTransaction → List BankingTransaction
posted_into now rows t = update_where (postable t.id) (as_posted now) (rows ++ t ∷ [])

module _ (now : Time) (rows : List BankingTransaction) (t : BankingTransaction)
    (fresh : transaction_by_id t.id rows ≡ none) where
  abbrev after_posting : List BankingTransaction
  after_posting = posted_into now rows t

  pub UniqueKeys-after_posting :
      UniqueKeys transaction_key rows → UniqueKeys transaction_key (posted_into now rows t)
  UniqueKeys-after_posting u =
      UniqueKeys-update_where transaction_key (postable t.id) (as_posted now) (rows ++ t ∷ [])
        (λ x. refl) (UniqueKeys-append transaction_key rows t fresh u)

  lookup_after :
      (v : Uuid)
      → transaction_by_id v after_posting
        ≡ Option.map
            (λ x. if postable t.id x then as_posted now x else x)
            (transaction_by_id v (rows ++ t ∷ []))
  lookup_after v =
      by_key-update_where transaction_key v (postable t.id) (as_posted now) (rows ++ t ∷ [])
        (λ x. refl)

  -- Any other transaction is as it was.
  pub transaction_by_id-other :
      (v : Uuid)
      → v ≢ t.id
      → transaction_by_id v (posted_into now rows t) ≡ transaction_by_id v rows
  unfolding find_first
  transaction_by_id-other v ne = elim (Option-cases (transaction_by_id v rows)) [
    | inl missing ↦
        lookup_after v
        ∙ rw (find_first-append (λ x. x.id == v) rows (t ∷ []), missing)
            (rw (not_equal t.id v (λ e. ne (sym e))))
    | inr (x, found) ↦
        let idx : x.id ≡ v = by_key-key transaction_key v rows x found in
        let miss : postable t.id x ≡ false = ground arith in
        lookup_after v ∙ rw (find_first-append (λ x. x.id == v) rows (t ∷ []), found) (rw miss)
  ]

  -- The transaction itself is posted, from the moment of the commit's clock.
  pub transaction_by_id_self :
      is_pending t.status ≡ true
      → transaction_by_id t.id (posted_into now rows t) ≡ some (as_posted now t)
  unfolding find_first
  transaction_by_id_self waiting =
      lookup_after t.id
      ∙ rw (find_first-append (λ x. x.id == t.id) rows (t ∷ []), fresh)
          (rw ((==_iff t.id t.id).1 refl) (ground arith))

  module _ (ps qs : List LedgerPosting)
      (others : (v : Uuid)
        → v ≢ t.id
        → (posting_sum v qs ≡ posting_sum v ps) × (posting_count v qs ≡ posting_count v ps)) where
    pub BalancedTransactions-after_posting :
        posting_sum t.id qs ≡ pos 0
        → 2 ≤ posting_count t.id qs
        → BalancedTransactions rows ps
        → BalancedTransactions (posted_into now rows t) qs
    BalancedTransactions-after_posting zero_total enough h v x e s = elim (Bool-cases (v == t.id)) [
      | inl same ↦
          let here = (==_iff v t.id).0 same in
          (ap (λ k. posting_sum k qs) here ∙ zero_total, rw here enough)
      | inr other ↦
          let ne : v ≢ t.id = λ q. false≢true (sym other ∙ (==_iff v t.id).1 q) in
          let old = h v x (sym (transaction_by_id-other v ne) ∙ e) s in
          (rw ((others v ne).0) old.0, rw ((others v ne).1) old.1)
    ]

    pub KnownPostings-after_posting :
        is_pending t.status ≡ true
        → KnownPostings rows ps
        → KnownPostings (posted_into now rows t) qs
    KnownPostings-after_posting waiting h v e = elim (Bool-cases (v == t.id)) [
      | inl same ↦
          let here = (==_iff v t.id).0 same in
          absurd (
            none_ne_some (
              sym e
              ∙ ap (λ k. transaction_by_id k after_posting) here
              ∙ transaction_by_id_self waiting))
      | inr other ↦
          let ne : v ≢ t.id = λ q. false≢true (sym other ∙ (==_iff v t.id).1 q) in
          (others v ne).1 ∙ h v (sym (transaction_by_id-other v ne) ∙ e)
    ]
