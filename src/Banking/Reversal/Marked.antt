-- ===== src/Banking/Reversal/Marked.antt =====
-- The row of a transaction that was reversed: what a reversal needs of it and leaves of it.
use mathlib.Core.Bool.{false≢true}
use mathlib.Core.Option
use monierave.Base.{
  ◌≡◌, refl, and_true, inl, inr, List, [], ◌∷◌, ◌++◌, some, Bool, true, sym, ◌∙◌, ap, subst,
  find_first, find_first-append, find_first-update_where, find_first_sound, update_where, or_else,
  Option-cases, if◌then◌else◌, arith, ◌&&◌, ◌||◌, not, ◌==◌,
}
use monierave.Models.{
  Uuid, Time, Error, is_reversal, BankingTransaction, is_posted, is_pending, is_reversed,
}
use monierave.Models.Tables.{Db}
use monierave.Store.{Tx, World, Result, ok, err}
use monierave.Store.Rules.{Runs, Post, weaken}
use monierave.Queries.Ledger.{
  has_transaction_id, transaction_by_id, postable, as_posted, reversible, as_reversed,
}
use monierave.Books.Invariant.{IsConsistent}
use monierave.Books.Transactions.{posted_into}
use monierave.Banking.Transfer.Outcome.{SameMoney}
use monierave.Banking.Reversal.{ReverseTransactionTxParams, reverse_transaction_tx}
use monierave.Banking.Reversal.Once.{may_reverse, reverse_transaction_tx-allowed}
use monierave.Banking.Reversal.Invariant.{reverse_transaction_tx-Reversed}

-- The row of the id is there, and marked as reversed.
pub record IsReversed (u : Uuid) (rows : List BankingTransaction) : Type 0 where
  pub row : BankingTransaction
  pub found : transaction_by_id u rows ≡ some row
  pub mark : is_reversed row.status ≡ true

module _ (u : Uuid) (rows : List BankingTransaction) (now : Time) where
  -- A row that is not pending stays as it is while another transaction is entered.
  entered_row :
      (t x : BankingTransaction)
      → transaction_by_id u rows ≡ some x
      → (is_posted x.status || is_reversed x.status) ≡ true
      → transaction_by_id u (posted_into now rows t) ≡ some x
  entered_row t x found done =
      find_first-update_where (has_transaction_id u) (postable t.id) (as_posted now)
        (rows ++ t ∷ []) (λ y. refl)
      ∙ ap (Option.map (λ y. if postable t.id y then as_posted now y else y)) (
          find_first-append (has_transaction_id u) rows (t ∷ [])
          ∙ ap (λ o. or_else o (find_first (has_transaction_id u) (t ∷ []))) found)
      ∙ ap some (untouched (x.id == t.id))
    where
      untouched : (b : Bool) → (if b && is_pending x.status then as_posted now x else x) ≡ x
      untouched b = ground (arith, done)

  pub IsReversed-entered :
      (t : BankingTransaction) → IsReversed u rows → IsReversed u (posted_into now rows t)
  IsReversed-entered t h = record {
    row = h.row;
    found = entered_row t h.row h.found (ground (arith, h.mark));
    mark = h.mark;
  }

  pub IsReversed-marked :
      (v : Uuid)
      → IsReversed u rows
      → IsReversed u (update_where (reversible v) (as_reversed now) rows)
  IsReversed-marked v h = record {
    row = h.row;
    found =
        find_first-update_where (has_transaction_id u) (reversible v) (as_reversed now) rows
          (λ y. refl)
        ∙ ap (Option.map (λ y. if reversible v y then as_reversed now y else y)) h.found
        ∙ ap some (untouched (h.row.id == v));
    mark = h.mark;
  }
    where
      untouched :
          (b : Bool)
          → (if b && is_posted h.row.status then as_reversed now h.row else h.row) ≡ h.row
      untouched b = ground (arith, h.mark)

  -- The posted row of the id, once it is marked.
  marked_row :
      (x : BankingTransaction)
      → transaction_by_id u rows ≡ some x
      → is_posted x.status ≡ true
      → IsReversed u (update_where (reversible u) (as_reversed now) rows)
  marked_row x found done = record {
    row = as_reversed now x;
    found =
        find_first-update_where (has_transaction_id u) (reversible u) (as_reversed now) rows
          (λ y. refl)
        ∙ ap (Option.map (λ y. if reversible u y then as_reversed now y else y)) found
        ∙ rw (find_first_sound (has_transaction_id u) rows x found, done) refl;
    mark = refl;
  }

pub of_rows :
    {u : Uuid} {rows rows' : List BankingTransaction}
    → rows' ≡ rows
    → IsReversed u rows
    → IsReversed u rows'
of_rows {u} e h = subst (IsReversed u) (sym e) h

-- What a reversal needs of the original before it, and leaves of it.
pub record ReversedOnce (u : Uuid) (d d' : Db) : Type 0 where
  pub before : may_reverse (transaction_by_id u d.transactions) ≡ true
  pub after : IsReversed u d'.transactions

module _ {A : Type 0} (E E' : Error → Db → Type 0) (Q Q' : A → Db → Type 0) where
  Post-both : (r : Result A × World) → Post E Q r → Post E' Q' r → Post E (λ a d. Q a d × Q' a d) r
  Post-both (ok a, w) h k = (h, k)
  Post-both (err e, w) h k = h

module _ {A : Type 0} {E E' : Error → Db → Type 0} {Q Q' : A → Db → Type 0} where
  both : {m : Tx A} {d : Db} → Runs E Q m d → Runs E' Q' m d → Runs E (λ a d'. Q a d' × Q' a d') m d
  both {m} {d} h k = record {
    at = λ w. Post-both E E' Q Q' (m (record w { db = d })) (h.at w) (k.at w);
  }

after_reversal :
    (u : Uuid) (d : Db) (entry : BankingTransaction)
    → may_reverse (transaction_by_id u d.transactions) ≡ true
    → IsReversed u (
        update_where
          (reversible u)
          (as_reversed d.clock)
          (posted_into d.clock d.transactions entry))
after_reversal u d entry may = elim (Option-cases (transaction_by_id u d.transactions)) [
  | inl missing ↦ absurd (false≢true (ap may_reverse (sym missing) ∙ may))
  | inr (x, found) ↦
      let posted : is_posted x.status ≡ true =
        (and_true {b = not (is_reversal x.transaction_type)}
          (ap may_reverse (sym found) ∙ may)).0 in
      marked_row u (posted_into d.clock d.transactions entry) d.clock x
        (entered_row u d.transactions d.clock entry x found (ground (arith, posted))) posted
]

-- From consistent books, a reversal either succeeds, and then the transaction was there, posted and no
-- reversal itself, and is there and marked as reversed, or it returns an error and no account, ledger
-- row, user or idempotency key differs.
pub reverse_transaction_tx-outcome :
    (p : ReverseTransactionTxParams) (d : Db)
    → IsConsistent d.books
    → Runs
        (λ _ d'. SameMoney d d')
        (λ _ d'. ReversedOnce p.transaction_id d d')
        (reverse_transaction_tx p)
        d
reverse_transaction_tx-outcome p d c =
    weaken (both (reverse_transaction_tx-allowed p d) (reverse_transaction_tx-Reversed p d c))
      (λ _ d' (may, x). record {
        before = may;
        after = of_rows x.rows (after_reversal p.transaction_id d x.entry may);
      })
      (λ _ _ s. s)
