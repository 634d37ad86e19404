-- ===== src/Books/Sums.antt =====
-- Sums over the postings: GetLedgerAccountBalance and GetLedgerPostingTotal of
-- db/sqlc/ledger.sql.go, the count of a transaction's postings, and the sum over the whole book.
use monierave.Base.{
  ℕ, ◌+◌, ◌≡◌, refl, Bool, true, List, [], ◌∷◌, ◌++◌, ℤ, pos, ◌+ℤ◌, int_laws, arith, ◌==◌,
  if◌then◌else◌, Every, length, false,
}
use monierave.Models.{Uuid, LedgerPosting}

unfoldable pub sum_if : (LedgerPosting → Bool) → List LedgerPosting → ℤ
sum_if q [] = pos 0
sum_if q (p ∷ ps) = (if q p then p.amount else pos 0) +ℤ sum_if q ps

unfoldable pub count_if : (LedgerPosting → Bool) → List LedgerPosting → ℕ
count_if q [] = 0
count_if q (p ∷ ps) = (if q p then 1 else 0) + count_if q ps

abbrev pub on_ledger : ℕ → LedgerPosting → Bool
on_ledger l p = p.ledger_account_id == l

abbrev pub on_transaction : Uuid → LedgerPosting → Bool
on_transaction u p = p.transaction_id == u

-- GetLedgerAccountBalance
abbrev pub ledger_balance : ℕ → List LedgerPosting → ℤ
ledger_balance l = sum_if (on_ledger l)

-- GetLedgerPostingTotal
abbrev pub posting_sum : Uuid → List LedgerPosting → ℤ
posting_sum u = sum_if (on_transaction u)

abbrev pub posting_count : Uuid → List LedgerPosting → ℕ
posting_count u = count_if (on_transaction u)

abbrev pub book_total : List LedgerPosting → ℤ
book_total = sum_if (λ p. true)

module _ (q : LedgerPosting → Bool) where
  pub sum_if-append :
      (ps : List LedgerPosting) (p : LedgerPosting)
      → sum_if q (ps ++ p ∷ []) ≡ sum_if q ps +ℤ (if q p then p.amount else pos 0)
  unfolding sum_if
  sum_if-append [] p = omega int_laws
  sum_if-append (x ∷ ps) p = rw (sum_if-append ps p) (omega int_laws)

  pub count_if-append :
      (ps : List LedgerPosting) (p : LedgerPosting)
      → count_if q (ps ++ p ∷ []) ≡ count_if q ps + (if q p then 1 else 0)
  unfolding count_if
  count_if-append [] p = omega arith
  count_if-append (x ∷ ps) p = omega (arith, count_if-append ps p)

  pub sum_if-none : (ps : List LedgerPosting) → count_if q ps ≡ 0 → sum_if q ps ≡ pos 0
  unfolding count_if sum_if ◌+ℤ◌
  sum_if-none [] h = refl
  sum_if-none (x ∷ ps) h = ground (arith, sum_if-none ps)

  pub sum_if_concat :
      (ps qs : List LedgerPosting) → sum_if q (ps ++ qs) ≡ sum_if q ps +ℤ sum_if q qs
  unfolding sum_if
  sum_if_concat [] qs = omega int_laws
  sum_if_concat (x ∷ ps) qs = rw (sum_if_concat ps qs) (omega int_laws)

  pub count_if_concat :
      (ps qs : List LedgerPosting) → count_if q (ps ++ qs) ≡ count_if q ps + count_if q qs
  unfolding count_if
  count_if_concat [] qs = omega arith
  count_if_concat (x ∷ ps) qs = omega (arith, count_if_concat ps qs)

  pub sum_if-false : (ps : List LedgerPosting) → Every (λ p. q p ≡ false) ps → sum_if q ps ≡ pos 0
  unfolding sum_if
  sum_if-false [] h = refl
  sum_if-false (x ∷ ps) h = rw (h.0, sum_if-false ps h.1) (omega int_laws)

  pub count_if-false : (ps : List LedgerPosting) → Every (λ p. q p ≡ false) ps → count_if q ps ≡ 0
  unfolding count_if
  count_if-false [] h = refl
  count_if-false (x ∷ ps) h = rw (h.0, count_if-false ps h.1) refl

  pub sum_if-true :
      (ps : List LedgerPosting) → Every (λ p. q p ≡ true) ps → sum_if q ps ≡ book_total ps
  unfolding sum_if
  sum_if-true [] h = refl
  sum_if-true (x ∷ ps) h = rw (h.0, sum_if-true ps h.1) refl

  pub count_if-true :
      (ps : List LedgerPosting) → Every (λ p. q p ≡ true) ps → count_if q ps ≡ length ps
  unfolding count_if
  count_if-true [] h = refl
  count_if-true (x ∷ ps) h = rw (h.0, count_if-true ps h.1) (omega arith)
