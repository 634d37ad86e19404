-- ===== src/Books/Opening.antt =====
-- A new account with its ledger account keeps the books consistent: both ids are new, the balance is
-- zero, and no posting names the new ledger account.

use monierave.Base.{
  Every-weaken, ◌⊎◌, ℕ, suc, ◌≡◌, refl, Bool, true, false, List, [], ◌∷◌, ◌++◌, none, some, pos,
  ◌≤ℤ◌, ◌==◌, ==_iff, not_equal, arith, sym, ◌∙◌, ap, subst, find_first, find_first-append,
  UniqueKeys-append, some_eq, none_ne_some, Option-cases, Bool-cases, inl, inr,
}
use monierave.Models.{Account, LedgerAccount, is_closed, is_customer}
use monierave.Models.Tables.{Books}
use monierave.Queries.Accounts.{account_by_id, has_id}
use monierave.Queries.Ledger.{customer_ledger, holds_for}
use monierave.Books.Sums.{on_ledger, sum_if-none, ledger_balance}
use monierave.Books.Invariant.{
  UniqueHolders, account_key, ledger_key, CachedBalances, SoundBalances, HasLedgers, IsConsistent,
}

abbrev pub opened_books : Books → Account → LedgerAccount → Books
opened_books b a l = record b {
  accounts = b.accounts ++ a ∷ [];
  next_account_id = suc b.next_account_id;
  ledger_accounts = b.ledger_accounts ++ l ∷ [];
  next_ledger_id = suc b.next_ledger_id;
}

module _ {A : Type 0} (p : A → Bool) (xs : List A) (y : A) where
  -- The row is found among the old ones, or it is the new one.
  found_in_append :
      (z : A)
      → find_first p (xs ++ y ∷ []) ≡ some z
      → (find_first p xs ≡ some z) ⊎ ((find_first p xs ≡ none) × (z ≡ y) × (p y ≡ true))
  unfolding find_first
  found_in_append z e = elim (Option-cases (find_first p xs)) [
    | inl missing ↦ inr (last_found missing (Bool-cases (p y)))
    | inr (x, found) ↦ inl (found ∙ rw found at (sym (find_first-append p xs (y ∷ []))) ∙ e)
  ]
    where
      last_found :
          find_first p xs ≡ none
          → (p y ≡ true) ⊎ (p y ≡ false)
          → (find_first p xs ≡ none) × (z ≡ y) × (p y ≡ true)
      last_found missing (inl t) =
          (missing, some_eq (sym e ∙ find_first-append p xs (y ∷ []) ∙ rw (missing, t)), t)
      last_found missing (inr f) =
          absurd (none_ne_some (sym (find_first-append p xs (y ∷ []) ∙ rw (missing, f)) ∙ e))

  pub append-found : (z : A) → find_first p xs ≡ some z → find_first p (xs ++ y ∷ []) ≡ some z
  append-found z e = find_first-append p xs (y ∷ []) ∙ rw e

  pub append-missing : find_first p xs ≡ none → p y ≡ false → find_first p (xs ++ y ∷ []) ≡ none
  unfolding find_first
  append-missing e f = find_first-append p xs (y ∷ []) ∙ rw (e, f)

  pub append-last : find_first p xs ≡ none → p y ≡ true → find_first p (xs ++ y ∷ []) ≡ some y
  unfolding find_first
  append-last e t = find_first-append p xs (y ∷ []) ∙ rw (e, t)

module _ (b : Books) (a : Account) (l : LedgerAccount) (new_id : a.id ≡ b.next_account_id)
    (empty_balance : a.balance ≡ pos 0) (open_status : is_closed a.status ≡ false)
    (ledger_id : l.id ≡ b.next_ledger_id) (owner : l.customer_account_id ≡ some a.id)
    (kind : is_customer l.kind ≡ true) (c : IsConsistent b) where
  open c use {
    unique_accounts, unique_ledgers, unique_transactions, cached, sound, has_ledgers, balanced,
    known, zero_sum, fresh, sound_postings, unique_holders, one_reversal,
  }

  holds_new : holds_for a.id l ≡ true
  holds_new = rw (owner, kind, (==_iff a.id a.id).1 refl)

  no_account : account_by_id a.id b.accounts ≡ none
  no_account = fresh.account_unused a.id (omega arith)

  no_ledger : customer_ledger a.id b.ledger_accounts ≡ none
  no_ledger = fresh.owner_unused a.id (omega arith)

  new_ledger : customer_ledger a.id (b.ledger_accounts ++ l ∷ []) ≡ some l
  new_ledger = append-last (holds_for a.id) b.ledger_accounts l no_ledger holds_new

  here : (id : ℕ) → has_id id a ≡ true → a.id ≡ id
  here id h = (==_iff a.id id).0 h

  opened-HasLedgers : HasLedgers (b.accounts ++ a ∷ []) (b.ledger_accounts ++ l ∷ [])
  opened-HasLedgers id x e = elim (found_in_append (has_id id) b.accounts a x e) [
    | inl old ↦
        let (m, em) = has_ledgers id x old in
        (m, append-found (holds_for id) b.ledger_accounts l m em)
    | inr (_, _, h) ↦ (
      l,
      subst (λ k. customer_ledger k (b.ledger_accounts ++ l ∷ []) ≡ some l) (here id h) new_ledger,
    )
  ]

  opened-SoundBalances : SoundBalances (b.accounts ++ a ∷ [])
  opened-SoundBalances id x e = elim (found_in_append (has_id id) b.accounts a x e) [
    | inl old ↦ sound id x old
    | inr (_, same, _) ↦
        subst
          (λ (y : Account). (pos 0 ≤ℤ y.balance) × (is_closed y.status ≡ true → y.balance ≡ pos 0))
          (sym same) (rw empty_balance (omega arith), λ _. empty_balance)
  ]

  no_postings :
      (x : LedgerAccount) → x.id ≡ b.next_ledger_id → ledger_balance x.id b.postings ≡ pos 0
  no_postings x e =
      sum_if-none (on_ledger x.id) b.postings (fresh.posting_unused x.id (omega arith))

  opened-CachedBalances :
      CachedBalances (b.accounts ++ a ∷ []) (b.ledger_accounts ++ l ∷ []) b.postings
  opened-CachedBalances id x m e em = elim (found_in_append (has_id id) b.accounts a x e) [
    | inl old ↦
        let (n, en) = has_ledgers id x old in
        let same = some_eq (sym (append-found (holds_for id) b.ledger_accounts l n en) ∙ em) in
        cached id x n old en ∙ ap (λ (y : LedgerAccount). ledger_balance y.id b.postings) same
    | inr (_, same, h) ↦
        let there =
          subst (λ k. customer_ledger k (b.ledger_accounts ++ l ∷ []) ≡ some l) (here id h)
            new_ledger in
        let ledger = some_eq (sym there ∙ em) in
        ap (λ (y : Account). y.balance) same
        ∙ empty_balance
        ∙ sym (
            ap (λ (y : LedgerAccount). ledger_balance y.id b.postings) (sym ledger)
            ∙ no_postings l ledger_id)
  ]

  opened-UniqueHolders : UniqueHolders (b.ledger_accounts ++ l ∷ [])
  opened-UniqueHolders n m h e held =
      elim (found_in_append (λ x. x.id == n) b.ledger_accounts l m e) [
        | inl old ↦ append-found (holds_for h) b.ledger_accounts l m (unique_holders n m h old held)
        | inr (_, same, _) ↦
            let owned : a.id ≡ h = ground arith in
            subst (λ k. customer_ledger k (b.ledger_accounts ++ l ∷ []) ≡ some m) owned
              (new_ledger ∙ ap some (sym same))
      ]

  pub opened-IsConsistent : IsConsistent (opened_books b a l)
  opened-IsConsistent = record {
    unique_accounts = UniqueKeys-append account_key b.accounts a no_account unique_accounts;
    unique_ledgers =
        UniqueKeys-append ledger_key b.ledger_accounts l (fresh.ledger_unused l.id (omega arith))
          unique_ledgers;
    unique_transactions = unique_transactions;
    cached = opened-CachedBalances;
    sound = opened-SoundBalances;
    has_ledgers = opened-HasLedgers;
    balanced = balanced;
    known = known;
    zero_sum = zero_sum;
    sound_postings =
        Every-weaken b.postings
          (λ p (n, (m, e)).
            (n, (m, append-found (λ x. x.id == p.ledger_account_id) b.ledger_accounts l m e)))
          sound_postings;
    unique_holders = opened-UniqueHolders;
    one_reversal = one_reversal;
    fresh = record {
      account_unused = λ n h.
          append-missing (has_id n) b.accounts a (fresh.account_unused n (omega arith))
            (not_equal a.id n (omega arith));
      owner_unused = λ n h.
          append-missing (holds_for n) b.ledger_accounts l (fresh.owner_unused n (omega arith))
            (rw (owner, not_equal a.id n (omega arith)));
      ledger_unused = λ n h.
          append-missing (λ x. x.id == n) b.ledger_accounts l (fresh.ledger_unused n (omega arith))
            (not_equal l.id n (omega arith));
      posting_unused = λ n h. fresh.posting_unused n (omega arith);
    };
  }
