-- ===== src/Banking/Reconciliation/Agreement.antt =====
-- What a reconciliation's verdict means.
use mathlib.Core.Bool.{false≢true}
use monierave.Base.{
  ℕ, ◌≤◌, ◌≡◌, refl, Bool, true, false, List, [], ◌∷◌, ◌++◌, Option, none, some, ℤ, pos, ◌==ℤ◌,
  eq_of_parts, arith, sym, ◌∙◌, subst, if◌then◌else◌, Every, some_eq, Bool-cases, inl, inr,
  and_true, length, or_false, select_rows, ◌↔◌, count_where, not, ltb, ◌&&◌, ◌||◌,
}
use monierave.Models.{Uuid, Account, LedgerAccount, BankingTransaction}
use monierave.Models.Tables.{Books}
use monierave.Queries.Accounts.{account_by_public_id}
use monierave.Queries.Ledger.{customer_ledger, reverses}
use monierave.Queries.Reconciliation.{
  AccountIssueRow, TransactionIssueRow, DuplicateReversalRow, account_in_scope, account_row,
  account_issue, transaction_in_scope, transaction_issue, duplicate_reversal,
}
use monierave.Books.Sums.{ledger_balance, posting_sum, posting_count}
use monierave.Books.Invariant.{settled}
use monierave.Banking.Posting.Rules.{total_zero}
use monierave.Banking.Reconciliation.{
  of_transaction, account_issue_list, transaction_issue_list, reversal_issue_list,
}

-- An account agrees with the ledger: it has a ledger account, whose postings add up to its balance.
abbrev pub AccountAgrees : Books → Account → Type 0
AccountAgrees b a =
    (l : LedgerAccount) × (customer_ledger a.id b.ledger_accounts ≡ some l)
    × (a.balance ≡ ledger_balance l.id b.postings)

-- A transaction agrees: if it took effect, it has two postings at least, which add up to nothing, and
-- it is reversed by one at most.
abbrev pub TransactionAgrees : Books → BankingTransaction → Type 0
TransactionAgrees b t =
    (settled t.status ≡ true
      → (posting_sum t.id b.postings ≡ pos 0) × (2 ≤ posting_count t.id b.postings))
    × (count_where (reverses t.id) b.transactions ≤ 1)

abbrev pub account_id : Option Account → Option ℕ
account_id none = none
account_id (some a) = some a.id

abbrev pub customer_of : Option Uuid → Books → Option ℕ
customer_of none b = none
customer_of (some u) b = account_id (account_by_public_id u b.accounts)

-- Everything in the scope of the caller agrees.
pub record Agrees (scope : Option Uuid) (b : Books) : Type 0 where
  pub accounts : Every (λ a. account_in_scope scope a ≡ true → AccountAgrees b a) b.accounts
  pub transactions :
      Every
        (λ t. transaction_in_scope (customer_of scope b) b t ≡ true → TransactionAgrees b t)
        b.transactions

equal_iff : (x y : ℤ) → ((x ==ℤ y) ≡ true) ↔ (x ≡ y)
equal_iff x y = (λ h. eq_of_parts x y (ground arith), λ e. rw e (ground arith))

module _ (b : Books) where
  row_agrees :
      (a : Account) (o : Option LedgerAccount)
      → (account_row b.postings a o ≡ none)
        ↔ ((l : LedgerAccount) × (o ≡ some l) × (a.balance ≡ ledger_balance l.id b.postings))
  row_agrees a none = (λ h. cc, λ (l, e, _). cc)
  row_agrees a (some l) = elim (Bool-cases (a.balance ==ℤ ledger_balance l.id b.postings)) [
    | inl same ↦ rw same (λ _. (l, refl, (equal_iff _ _).0 same), λ _. refl)
    | inr differs ↦ rw differs (
      λ h. cc,
      λ (m, e, same). absurd (
          false≢true (
            sym differs
            ∙ (equal_iff _ _).1 (
                subst (λ (k : LedgerAccount). a.balance ≡ ledger_balance k.id b.postings)
                  (sym (some_eq e)) same))),
    )
  ]

  pub account_agrees :
      (scope : Option Uuid) (a : Account)
      → (account_issue scope b a ≡ none) ↔ (account_in_scope scope a ≡ true → AccountAgrees b a)
  account_agrees scope a =
      let (to, back) = row_agrees a (customer_ledger a.id b.ledger_accounts) in
      elim (Bool-cases (account_in_scope scope a)) [
        | inl within ↦ rw within (λ h _. to h, λ h. back (h refl))
        | inr outside ↦ rw outside (λ _ k. absurd (false≢true k), λ _. refl)
      ]

  if_none : {A : Type 0} (c : Bool) (x : A) → ((if c then some x else none) ≡ none) ↔ (c ≡ false)
  if_none true x = (λ h. cc, λ h. cc)
  if_none false x = (λ h. refl, λ h. refl)

  sums_agree :
      (took scoped : Bool) (n : ℕ) (x : ℤ)
      → ((took && scoped && (ltb n 2 || not (x ==ℤ pos 0))) ≡ false)
        ↔ (scoped ≡ true → took ≡ true → (x ≡ pos 0) × (2 ≤ n))
  sums_agree false scoped n x = (λ _ _ k. absurd (false≢true k), λ _. refl)
  sums_agree true false n x = (λ _ k. absurd (false≢true k), λ _. refl)
  sums_agree true true n x = (
    λ h _ _.
        (total_zero x (or_false (ltb n 2) (not (x ==ℤ pos 0)) h).1, few (or_false (ltb n 2) _ h).0),
    λ h. let (zero, two) = h refl refl in rw zero (ground arith),
  )
    where
      few : ltb n 2 ≡ false → 2 ≤ n
      few h = ground arith

  once_agrees : (scoped : Bool) (n : ℕ) → ((scoped && ltb 1 n) ≡ false) ↔ (scoped ≡ true → n ≤ 1)
  once_agrees false n = (λ _ k. absurd (false≢true k), λ _. refl)
  once_agrees true n = (λ h _. ground arith, λ h. let few = h refl in ground arith)

  module _ (scope : Option ℕ) (t : BankingTransaction) where
    row_wanted : Bool
    row_wanted =
        settled t.status
        && transaction_in_scope scope b t
        && (ltb (posting_count t.id b.postings) 2 || not (posting_sum t.id b.postings ==ℤ pos 0))

    pub transaction_row_agrees : (transaction_issue scope b t ≡ none) ↔ (
        transaction_in_scope scope b t ≡ true
        → settled t.status ≡ true
        → (posting_sum t.id b.postings ≡ pos 0) × (2 ≤ posting_count t.id b.postings))
    unfolding row_wanted
    transaction_row_agrees =
        let (to, back) =
          sums_agree (settled t.status) (transaction_in_scope scope b t)
            (posting_count t.id b.postings) (posting_sum t.id b.postings) in
        let (out, there) = if_none {A = TransactionIssueRow} row_wanted _ in
        (λ h. to (out h), λ h. there (back h))

    pub reversal_row_agrees :
        (duplicate_reversal scope b t ≡ none)
        ↔ (transaction_in_scope scope b t ≡ true → count_where (reverses t.id) b.transactions ≤ 1)
    reversal_row_agrees =
        let (to, back) =
          once_agrees (transaction_in_scope scope b t)
            (count_where (reverses t.id) b.transactions) in
        let (out, there) =
          if_none {A = DuplicateReversalRow}
            (transaction_in_scope scope b t && ltb 1 (count_where (reverses t.id) b.transactions))
            _ in
        (λ h. to (out h), λ h. there (back h))

  pub append_empty :
      {A : Type 0} (xs ys : List A) → (length (xs ++ ys) ≡ 0) ↔ ((length xs ≡ 0) × (length ys ≡ 0))
  append_empty [] ys = (λ h. (refl, h), λ h. h.1)
  append_empty (x ∷ xs) ys = (λ h. cc, λ (h, _). cc)

  if_some :
      {A : Type 0} (c : Bool) {x y : A}
      → (if c then some x else none) ≡ some y
      → (c ≡ true) × (x ≡ y)
  if_some true h = (refl, some_eq h)
  if_some false h = cc

  one_of_two :
      {A : Type 0} (c e : Bool) (x y : A)
      → (c || e) ≡ true
      → length ((if c then x ∷ [] else []) ++ (if e then y ∷ [] else [])) ≡ 0
      → ⊥
  one_of_two true e x y h k = cc
  one_of_two false true x y h k = cc
  one_of_two false false x y h k = cc

  some_issue :
      (row : TransactionIssueRow)
      → (ltb row.posting_count 2 || not (row.posting_total ==ℤ pos 0)) ≡ true
      → length (of_transaction row) ≡ 0
      → ⊥
  some_issue row h e =
      one_of_two (ltb row.posting_count 2) (not (row.posting_total ==ℤ pos 0)) _ _ h e

  row_has_issue :
      (scope : Option ℕ) (t : BankingTransaction) (row : TransactionIssueRow)
      → transaction_issue scope b t ≡ some row
      → length (of_transaction row) ≡ 0
      → ⊥
  unfolding row_wanted
  row_has_issue scope t row e =
      let (wanted, same) = if_some (row_wanted scope t) e in
      let (_, one) = and_true {a = settled t.status && transaction_in_scope scope b t} wanted in
      some_issue row (
        subst
          (λ (r : TransactionIssueRow).
            (ltb r.posting_count 2 || not (r.posting_total ==ℤ pos 0)) ≡ true)
          same one)

  one_row :
      (o : Option TransactionIssueRow) (rest : List TransactionIssueRow)
      → ((row : TransactionIssueRow) → o ≡ some row → length (of_transaction row) ≡ 0 → ⊥)
      → (length (
            transaction_issue_list
              (elim o as (λ _. List TransactionIssueRow) [ none ↦ rest | some y ↦ y ∷ rest ]))
          ≡ 0)
        ↔ ((o ≡ none) × (length (transaction_issue_list rest) ≡ 0))
  one_row none rest h = (λ k. (refl, k), λ (_, k). k)
  one_row (some row) rest h = (
    λ k.
        absurd
          (h row refl ((append_empty (of_transaction row) (transaction_issue_list rest)).0 k).0),
    λ (k, _). cc,
  )

  pub accounts_clear :
      (rows : List AccountIssueRow) → (length (account_issue_list rows) ≡ 0) ↔ (length rows ≡ 0)
  accounts_clear [] = (λ h. h, λ h. h)
  accounts_clear (r ∷ rs) = (λ h. cc, λ h. cc)

  pub reversals_clear :
      (rows : List DuplicateReversalRow)
      → (length (reversal_issue_list rows) ≡ 0) ↔ (length rows ≡ 0)
  reversals_clear [] = (λ h. h, λ h. h)
  reversals_clear (r ∷ rs) = (λ h. cc, λ h. cc)

  pub transactions_clear :
      (scope : Option ℕ) (ts : List BankingTransaction)
      → (length (transaction_issue_list (select_rows (transaction_issue scope b) ts)) ≡ 0)
        ↔ Every (λ t. transaction_issue scope b t ≡ none) ts
  unfolding select_rows
  transactions_clear scope [] = (λ _. tt, λ _. refl)
  transactions_clear scope (t ∷ ts) =
      let (to, back) = transactions_clear scope ts in
      let (split, join) =
        one_row (transaction_issue scope b t) (select_rows (transaction_issue scope b) ts)
          (row_has_issue scope t) in
      (λ h. let (x, rest) = split h in (x, to rest), λ (x, rest). join (x, back rest))
