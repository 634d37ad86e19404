-- ===== src/Books/Status.antt =====
-- A change of accounts that leaves ids and balances alone, such as closing or freezing one, keeps the
-- books consistent if every account that it closes holds nothing.
use mathlib.Core.Option
use monierave.Base.{
  ◌≡◌, refl, Bool, true, some, List, pos, ◌≤ℤ◌, if◌then◌else◌, update_where, by_key-update_where,
  UniqueKeys-update_where, Option-cases, Bool-cases, inl, inr, some_eq, none_ne_some, sym, ◌∙◌, ap,
  subst, ℕ,
}
use monierave.Models.{Account, is_closed}
use monierave.Models.Tables.{Books}
use monierave.Queries.Accounts.{account_by_id}
use monierave.Books.Invariant.{account_key, IsConsistent}

abbrev pub with_rows : Books → List Account → Books
with_rows b rows = record b { accounts = rows }

module _ (p : Account → Bool) (f : Account → Account) (id_kept : (x : Account) → (f x).id ≡ x.id)
    (balance_kept : (x : Account) → (f x).balance ≡ x.balance)
    (closes_empty : (x : Account) → p x ≡ true → is_closed (f x).status ≡ true → x.balance ≡ pos 0)
    (b : Books) (c : IsConsistent b) where
  open c use {
    unique_accounts, unique_ledgers, unique_transactions, cached, sound, has_ledgers, balanced,
    known, zero_sum, fresh, sound_postings, unique_holders, one_reversal,
  }

  changed_row : Account → Account
  changed_row x = if p x then f x else x

  row_before :
      (id : ℕ) (a' : Account)
      → account_by_id id (update_where p f b.accounts) ≡ some a'
      → (a : Account) × (account_by_id id b.accounts ≡ some a) × (a' ≡ changed_row a)
  unfolding changed_row
  row_before id a' e = elim (Option-cases (account_by_id id b.accounts)) [
    | inl missing ↦ absurd (
        none_ne_some
          (sym (rw missing at (by_key-update_where account_key id p f b.accounts id_kept)) ∙ e))
    | inr (a, ea) ↦ (
      a,
      ea,
      some_eq (sym e ∙ rw ea at (by_key-update_where account_key id p f b.accounts id_kept)),
    )
  ]

  row_balance : (x : Account) → (changed_row x).balance ≡ x.balance
  unfolding changed_row
  row_balance x = elim (Bool-cases (p x)) [
    | inl hit ↦ rw hit (balance_kept x)
    | inr miss ↦ rw miss refl
  ]

  row_closed :
      (x : Account)
      → (is_closed x.status ≡ true → x.balance ≡ pos 0)
      → is_closed (changed_row x).status ≡ true
      → x.balance ≡ pos 0
  unfolding changed_row
  row_closed x h e = elim (Bool-cases (p x)) [
    | inl hit ↦ closes_empty x hit (rw hit at e)
    | inr miss ↦ h (rw miss at e)
  ]

  pub IsConsistent-updated : IsConsistent (with_rows b (update_where p f b.accounts))
  unfolding changed_row
  IsConsistent-updated = record {
    unique_accounts = UniqueKeys-update_where account_key p f b.accounts id_kept unique_accounts;
    unique_ledgers = unique_ledgers;
    unique_transactions = unique_transactions;
    cached = λ id a' l e el.
        let (a, ea, same) = row_before id a' e in
        ap (λ (x : Account). x.balance) same ∙ row_balance a ∙ cached id a l ea el;
    sound = λ id a' e.
        let (a, ea, same) = row_before id a' e in
        let s = sound id a ea in
        subst
          (λ (x : Account). (pos 0 ≤ℤ x.balance) × (is_closed x.status ≡ true → x.balance ≡ pos 0))
          (sym same)
          (
            subst (λ x. pos 0 ≤ℤ x) (sym (row_balance a)) s.0,
            λ h. row_balance a ∙ row_closed a s.1 h,
          );
    has_ledgers = λ id a' e. let (a, ea, same) = row_before id a' e in has_ledgers id a ea;
    balanced = balanced;
    known = known;
    zero_sum = zero_sum;
    sound_postings = sound_postings;
    unique_holders = unique_holders;
    one_reversal = one_reversal;
    fresh = record {
      account_unused = λ n h.
          by_key-update_where account_key n p f b.accounts id_kept
          ∙ ap (Option.map changed_row) (fresh.account_unused n h);
      owner_unused = fresh.owner_unused;
      ledger_unused = fresh.ledger_unused;
      posting_unused = fresh.posting_unused;
    };
  }
