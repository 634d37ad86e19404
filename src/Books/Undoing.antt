-- ===== src/Books/Undoing.antt =====
-- What the opposite postings of a reversal do to the ledger's balances.
use mathlib.Core.Bool.{false≢true}
use mathlib.Core.List.{append_assoc, append-nil}
use monierave.Base.{
  ℕ, suc, ◌≡◌, refl, ◌≢◌, Bool, true, false, List, [], ◌∷◌, ◌++◌, Option, none, some, ℤ, pos, ◌+ℤ◌,
  neg64, int_laws, ap, sym, ◌∙◌, subst, ◌==◌, ==_iff, not_equal, if◌then◌else◌, Every, UniqueKeys,
  by_key-of_found, some_eq, find_first_sound, and_true,
}
use monierave.Models.{Uuid, LedgerAccount, LedgerPosting, is_customer}
use monierave.Models.Tables.{Db}
use monierave.Queries.Ledger.{ledger_by_id, customer_ledger, holds_for, new_posting, with_posting}
use monierave.Queries.Reversal.{ReversalSource}
use monierave.Books.Sums.{on_ledger, ledger_balance, sum_if-append}
use monierave.Books.Invariant.{ledger_key, UniqueHolders}
use monierave.Books.Posts.{LedgersMoved, LedgersMoved-trans, LedgersMoved-customer}
use monierave.Books.Sources.{SoundSource, opposites, change_by, source_change}
use monierave.Banking.Posting.{PostingParams}
use monierave.Banking.Posting.Rules.{posted_rows, posted_db}

abbrev pub with_postings : Db → List LedgerPosting → ℕ → Db
with_postings d rows next = record d {
  books = record d.books { postings = rows; next_posting_id = next };
}

abbrev pub next_after : List PostingParams → ℕ → ℕ
next_after [] n = n
next_after (p ∷ ps) n = next_after ps (suc n)

-- The loop appends its rows and takes as many ids.
pub posted_db-eq :
    (u : Uuid) (ps : List PostingParams) (d : Db)
    → posted_db u ps d
      ≡ with_postings d (d.postings ++ posted_rows u ps d) (next_after ps d.next_posting_id)
posted_db-eq u [] d =
    ap (λ rows. with_postings d rows d.next_posting_id) (sym (append-nil d.postings))
posted_db-eq u (p ∷ ps) d =
    let row = new_posting u p.ledger_account_id p.amount d in
    posted_db-eq u ps (with_posting row d)
    ∙ ap (λ rows. with_postings d rows (next_after ps (suc d.next_posting_id)))
        (append_assoc d.postings (row ∷ []) (posted_rows u ps (with_posting row d)))

plus_zero : (x : ℤ) → x ≡ x +ℤ pos 0
plus_zero x = omega int_laws

module _ (ledgers : List LedgerAccount) (unique : UniqueKeys ledger_key ledgers)
    (holders : UniqueHolders ledgers) where
  -- A posting on a ledger account that no customer holds moves no customer's balance.
  LedgersMoved-nobody :
      (ps : List LedgerPosting) (p : LedgerPosting)
      → ((id : ℕ) (l : LedgerAccount)
          → customer_ledger id ledgers ≡ some l
          → p.ledger_account_id ≢ l.id)
      → LedgersMoved (λ id. pos 0) ledgers ps (ps ++ p ∷ [])
  LedgersMoved-nobody ps p h id l el =
      sum_if-append (on_ledger l.id) ps p
      ∙ ap (λ b. ledger_balance l.id ps +ℤ (if b then p.amount else pos 0))
          (not_equal _ _ (h id l el))

  -- A customer's ledger account that is found by its id is the one it is.
  held_is :
      (n : ℕ) (m : LedgerAccount) (id : ℕ) (l : LedgerAccount)
      → ledger_by_id n ledgers ≡ some m
      → customer_ledger id ledgers ≡ some l
      → n ≡ l.id
      → l ≡ m
  held_is n m id l em el e = some_eq (
      sym (by_key-of_found ledger_key (holds_for id) ledgers l unique el)
      ∙ ap (λ k. ledger_by_id k ledgers) (sym e)
      ∙ em)

  one_source :
      (s : ReversalSource) (p : LedgerPosting) (ps : List LedgerPosting)
      → SoundSource ledgers s
      → p.ledger_account_id ≡ s.ledger_account_id
      → LedgersMoved
          (change_by (is_customer s.kind) s.customer_account_id p.amount)
          ledgers
          ps
          (ps ++ p ∷ [])
  one_source s p ps h e =
      cases (is_customer s.kind) s.customer_account_id (ap is_customer h.kind) h.customer
    where
      free :
          ((id : ℕ) → holds_for id h.ledger ≡ true → ⊥)
          → (id : ℕ) (l : LedgerAccount) → customer_ledger id ledgers ≡ some l
          → p.ledger_account_id ≢ l.id
      free nobody id l el x = nobody id (
          subst (λ (y : LedgerAccount). holds_for id y ≡ true)
            (held_is s.ledger_account_id h.ledger id l h.found el (sym e ∙ x))
            (find_first_sound (holds_for id) ledgers l el))

      on_it : ledger_by_id p.ledger_account_id ledgers ≡ some h.ledger
      on_it = ap (λ k. ledger_by_id k ledgers) e ∙ h.found

      found_id : (n : ℕ) (m : LedgerAccount) → ledger_by_id n ledgers ≡ some m → m.id ≡ n
      found_id n m em = (==_iff m.id n).0 (find_first_sound (λ x. x.id == n) ledgers m em)

      not_customer : (id : ℕ) → holds_for id h.ledger ≡ true → false ≡ is_customer h.ledger.kind → ⊥
      not_customer id held kind = false≢true (
          kind
          ∙ (and_true {a = elim h.ledger.customer_account_id [ none ↦ false | some c ↦ c == id ]}
              held).1)

      cases :
          (b : Bool) (o : Option ℕ)
          → b ≡ is_customer h.ledger.kind
          → o ≡ h.ledger.customer_account_id
          → LedgersMoved (change_by b o p.amount) ledgers ps (ps ++ p ∷ [])
      cases true (some c) kind owner =
          LedgersMoved-customer ledgers unique ps p c h.ledger
            (holders s.ledger_account_id h.ledger c h.found
              (rw (sym owner, sym kind, (==_iff c c).1 refl) refl))
            (e ∙ sym (found_id s.ledger_account_id h.ledger h.found))
      cases true none kind owner =
          LedgersMoved-nobody ps p (free (λ id held. false≢true (rw (sym owner) at held)))
      cases false o kind owner =
          LedgersMoved-nobody ps p (free (λ id held. not_customer id held kind))

  -- The opposite postings move the customers' balances by the sources' changes.
  pub LedgersMoved-opposites :
      (u : Uuid) (ss : List ReversalSource) (d : Db) (ps : List LedgerPosting)
      → Every (SoundSource ledgers) ss
      → LedgersMoved (source_change ss) ledgers ps (ps ++ posted_rows u (opposites ss) d)
  LedgersMoved-opposites u [] d ps h =
      λ id l el. ap (ledger_balance l.id) (append-nil ps) ∙ plus_zero (ledger_balance l.id ps)
  LedgersMoved-opposites u (s ∷ ss) d ps (h, hs) =
      let row = new_posting u s.ledger_account_id (neg64 s.amount) d in
      let rest = posted_rows u (opposites ss) (with_posting row d) in
      subst (λ qs. LedgersMoved (source_change (s ∷ ss)) ledgers ps qs)
        (append_assoc ps (row ∷ []) rest)
        (LedgersMoved-trans (change_by (is_customer s.kind) s.customer_account_id (neg64 s.amount))
          (source_change ss) ledgers ps (ps ++ row ∷ []) ((ps ++ row ∷ []) ++ rest)
          (one_source s row ps h refl)
          (LedgersMoved-opposites u ss (with_posting row d) (ps ++ row ∷ []) hs))
