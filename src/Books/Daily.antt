-- ===== src/Books/Daily.antt =====
-- The daily outgoing total of a ledger account (`GetDailyOutgoingTransferTotal`) when a transfer is
-- posted: it grows by the transfer's amount.
use mathlib.Core.Bool.{false≢true}
use monierave.Base.{
  ℕ, ◌≡◌, refl, ◌≢◌, true, false, ◌&&◌, List, [], ◌∷◌, ◌++◌, none, some, pos, ◌+ℤ◌, ltb_ℤ, leb,
  ◌==◌, ==_iff, if◌then◌else◌, ap, sym, ◌∙◌, int_laws, arith, Bool-cases, inl, inr,
}
use monierave.Models.{
  Uuid, Time, BankingTransaction, LedgerPosting, is_internal_transfer, is_pending,
}
use monierave.Queries.Ledger.{
  transaction_by_id, outgoing, daily_outgoing_total, day_start, counts_today,
}
use monierave.Books.Sums.{posting_count, count_if}
use monierave.Books.Transactions.{posted_into, transaction_by_id-other, transaction_by_id_self}

pub daily-append :
    (l : ℕ) (now : Time) (rows : List BankingTransaction) (ps : List LedgerPosting)
    (p : LedgerPosting)
    → daily_outgoing_total l now rows (ps ++ p ∷ [])
      ≡ daily_outgoing_total l now rows ps +ℤ outgoing l now rows p
unfolding daily_outgoing_total
daily-append l now rows [] p = omega int_laws
daily-append l now rows (x ∷ ps) p = rw (daily-append l now rows ps p) (omega int_laws)

-- Postings of other transactions count as before.
pub daily-other :
    (l : ℕ) (now : Time) (rows rows' : List BankingTransaction) (u : Uuid)
    → ((v : Uuid) → v ≢ u → transaction_by_id v rows' ≡ transaction_by_id v rows)
    → (ps : List LedgerPosting) → posting_count u ps ≡ 0
    → daily_outgoing_total l now rows' ps ≡ daily_outgoing_total l now rows ps
unfolding daily_outgoing_total count_if
daily-other l now rows rows' u same [] h = refl
daily-other l now rows rows' u same (p ∷ ps) h = elim (Bool-cases (p.transaction_id == u)) [
  | inl own ↦ absurd (ground arith)
  | inr other ↦
      let row : transaction_by_id p.transaction_id rows' ≡ transaction_by_id p.transaction_id rows =
        same p.transaction_id (λ e. false≢true (sym other ∙ (==_iff p.transaction_id u).1 e)) in
      rw (daily-other l now rows rows' u same ps (ground arith)) (
        ap
          (λ o.
            (if p.ledger_account_id == l && ltb_ℤ p.amount (pos 0)
              then (elim o [
                | none ↦ pos 0
                | some t ↦ if counts_today now t then t.amount else pos 0
              ])
              else pos 0)
            +ℤ daily_outgoing_total l now rows ps)
          row)
]

started_today : (now : Time) → leb (day_start now) now ≡ true
started_today now = ground arith

module _ (now : Time) (rows : List BankingTransaction) (t : BankingTransaction)
    (fresh : transaction_by_id t.id rows ≡ none) (waiting : is_pending t.status ≡ true)
    (transfer : is_internal_transfer t.transaction_type ≡ true) (today : t.created_at ≡ now) where
  outgoing-debit :
      (l : ℕ) (p : LedgerPosting)
      → p.ledger_account_id ≡ l
      → ltb_ℤ p.amount (pos 0) ≡ true
      → p.transaction_id ≡ t.id
      → outgoing l now (posted_into now rows t) p ≡ t.amount
  outgoing-debit l p el neg_amount et = rw (
    (==_iff p.ledger_account_id l).1 el,
    neg_amount,
    et,
    transaction_by_id_self now rows t fresh waiting,
    transfer,
    today,
    started_today now,
  )

  outgoing-credit :
      (l : ℕ) (p : LedgerPosting)
      → ltb_ℤ p.amount (pos 0) ≡ false
      → outgoing l now (posted_into now rows t) p ≡ pos 0
  outgoing-credit l p h = ground arith

  pub daily-transfer :
      (l : ℕ) (ps : List LedgerPosting) (p q : LedgerPosting)
      → posting_count t.id ps ≡ 0
      → p.ledger_account_id ≡ l
      → ltb_ℤ p.amount (pos 0) ≡ true
      → p.transaction_id ≡ t.id
      → ltb_ℤ q.amount (pos 0) ≡ false
      → daily_outgoing_total l now (posted_into now rows t) ((ps ++ p ∷ []) ++ q ∷ [])
        ≡ daily_outgoing_total l now rows ps +ℤ t.amount
  daily-transfer l ps p q unused el neg_amount et pos_amount =
      daily-append l now _ (ps ++ p ∷ []) q
      ∙ rw
          (
            daily-append l now (posted_into now rows t) ps p,
            daily-other l now rows (posted_into now rows t) t.id
                (transaction_by_id-other now rows t fresh) ps unused,
            outgoing-debit l p el neg_amount et,
            outgoing-credit l q pos_amount,
          )
          (omega int_laws)
