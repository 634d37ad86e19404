-- ===== src/Books/Credits.antt =====
-- What `AddAccountBalanceInternal` does to the accounts, seen through their ids: a change of the
-- balance of one account that leaves its status, and never a balance below zero.
use mathlib.Core.Bool.{false≢true}
use mathlib.Core.Option
use monierave.Base.{
  ℕ, ◌≡◌, refl, true, false, List, some, ℤ, pos, ◌+ℤ◌, ◌≤ℤ◌, int_laws, pos_part, neg_part, ap,
  arith, ◌==◌, if◌then◌else◌, find_first, update_where, UniqueKeys, by_key-of_find_first,
  by_key-update_where, UniqueKeys-update_where, Option-cases, inl, inr, Bool-cases, ==_iff, sym,
  ◌∙◌, subst, by_key-key, find_first_sound, some_eq, none_ne_some,
}
use monierave.Models.{Account, Time, is_closed}
use monierave.Queries.Accounts.{account_by_id, credited, covers}
use monierave.Books.Invariant.{account_key, SoundBalances}

-- Balances move by `change`, and nothing else of an account that the ledger looks at.
abbrev pub AccountsMoved : (ℕ → ℤ) → List Account → List Account → Type 0
AccountsMoved change before after =
    (id : ℕ) (a' : Account)
    → account_by_id id after ≡ some a'
    → (a : Account) × (account_by_id id before ≡ some a)
      × (a'.balance ≡ a.balance +ℤ change id)
      × (a'.status ≡ a.status)

abbrev pub only : ℕ → ℤ → ℕ → ℤ
only i x id = if id == i then x else pos 0

pub AccountsMoved-trans :
    (f g : ℕ → ℤ) (xs ys zs : List Account)
    → AccountsMoved f xs ys
    → AccountsMoved g ys zs
    → AccountsMoved (λ id. f id +ℤ g id) xs zs
AccountsMoved-trans f g xs ys zs h k id c e =
    let (b, eb, vb, sb) = k id c e in
    let (a, ea, va, sa) = h id b eb in
    (a, ea, omega (int_laws, ap pos_part va, ap neg_part va, ap pos_part vb, ap neg_part vb), cc)

module _ (i : ℕ) (x : ℤ) (now : Time) (accounts : List Account) where
  covered-id : (a : Account) → covers i x a ≡ true → account_key a ≡ i
  covered-id a h = ground arith

  pub account_by_id-covered :
      (a : Account)
      → UniqueKeys account_key accounts
      → find_first (covers i x) accounts ≡ some a
      → account_by_id i accounts ≡ some a
  account_by_id-covered a u e =
      by_key-of_find_first account_key (covers i x) i accounts a covered-id u e

  abbrev pub after_credit : List Account
  after_credit = update_where (covers i x) (credited x now) accounts

  pub account_by_id-after_credit :
      (id : ℕ)
      → account_by_id id after_credit
        ≡ Option.map (λ a. if covers i x a then credited x now a else a) (account_by_id id accounts)
  account_by_id-after_credit id =
      by_key-update_where account_key id (covers i x) (credited x now) accounts (λ a. refl)

  pub UniqueKeys-after_credit :
      UniqueKeys account_key accounts → UniqueKeys account_key after_credit
  UniqueKeys-after_credit u =
      UniqueKeys-update_where account_key (covers i x) (credited x now) accounts (λ a. refl) u

  -- The row of one id after the credit, from the row before.
  row_before :
      (id : ℕ) (a' : Account)
      → account_by_id id after_credit ≡ some a'
      → (b : Account) × (account_by_id id accounts ≡ some b)
        × ((if covers i x b then credited x now b else b) ≡ a')
  row_before id a' e' = elim (Option-cases (account_by_id id accounts)) [
    | inl missing ↦ absurd (none_ne_some (sym (rw missing at (account_by_id-after_credit id)) ∙ e'))
    | inr (b, eb) ↦ (b, eb, some_eq (sym (rw eb at (account_by_id-after_credit id)) ∙ e'))
  ]

  module _ (a : Account) (u : UniqueKeys account_key accounts)
      (e : find_first (covers i x) accounts ≡ some a) where
    -- The row of the account's own id is the one that the query found.
    row_here : (b : Account) → account_by_id i accounts ≡ some b → a ≡ b
    row_here b eb = some_eq (sym (account_by_id-covered a u e) ∙ eb)

    moved_row :
        (b : Account) (id : ℕ)
        → account_by_id id accounts ≡ some b
        → ((if covers i x b then credited x now b else b).balance ≡ b.balance +ℤ only i x id)
          × ((if covers i x b then credited x now b else b).status ≡ b.status)
    moved_row b id eb = elim (Bool-cases (id == i)) [
      | inl same ↦
          let eb' = subst (λ k. account_by_id k accounts ≡ some b) ((==_iff id i).0 same) eb in
          let cb : covers i x b ≡ true =
            subst (λ r. covers i x r ≡ true) (row_here b eb')
              (find_first_sound (covers i x) accounts a e) in
          rw (cb, same) (refl, refl)
      | inr other ↦
          let idb : b.id ≡ id = by_key-key account_key id accounts b eb in
          let cb : covers i x b ≡ false = ground arith in rw (cb, other) (omega int_laws, refl)
    ]

    pub AccountsMoved-after_credit : AccountsMoved (only i x) accounts after_credit
    AccountsMoved-after_credit id a' e' =
        let (b, eb, eq) = row_before id a' e' in
        let row = moved_row b id eb in
        (
          b,
          eb,
          ap (λ (r : Account). r.balance) (sym eq) ∙ row.0,
          ap (λ (r : Account). r.status) (sym eq) ∙ row.1,
        )

    sound_row :
        (b : Account)
        → (pos 0 ≤ℤ b.balance) × (is_closed b.status ≡ true → b.balance ≡ pos 0)
        → (covers i x b ≡ true → is_closed b.status ≡ false)
        → (pos 0 ≤ℤ (if covers i x b then credited x now b else b).balance)
          × (is_closed (if covers i x b then credited x now b else b).status ≡ true
              → (if covers i x b then credited x now b else b).balance ≡ pos 0)
    sound_row b h o = elim (Bool-cases (covers i x b)) [
      | inl hit ↦ rw hit (ground arith, λ c. absurd (false≢true (sym (o hit) ∙ c)))
      | inr miss ↦ rw miss h
    ]

    -- A credit keeps every balance at zero or more, and no closed account is credited.
    pub SoundBalances-after_credit :
        is_closed a.status ≡ false → SoundBalances accounts → SoundBalances after_credit
    SoundBalances-after_credit open_account h id a' e' =
        let (b, eb, eq) = row_before id a' e' in
        subst
          (λ (r : Account). (pos 0 ≤ℤ r.balance) × (is_closed r.status ≡ true → r.balance ≡ pos 0))
          eq
          (sound_row b (h id b eb) λ hit.
            let here : id ≡ i = sym (by_key-key account_key id accounts b eb) ∙ covered-id b hit in
            let eb' = subst (λ k. account_by_id k accounts ≡ some b) here eb in
            subst (λ (r : Account). is_closed r.status ≡ false) (row_here b eb') open_account)
