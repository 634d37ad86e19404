-- ===== src/Banking/Transfer/Balances.antt =====
-- The balances after a transfer, and the accounts that no transfer leaves.
use mathlib.Core.Bool.{false≢true}
use monierave.Base.{
  ◌≡◌, ◌≢◌, true, ◌||◌, some, pos, ◌+ℤ◌, ◌≤ℤ◌, neg64, sym, ◌∙◌, ap, some_eq, ◌⊎◌, inl, inr,
  by_key-of_found, or_false,
}
use monierave.Models.{Account, TransferTxResult, is_frozen, is_closed}
use monierave.Models.Tables.{Db, Books}
use monierave.Store.Rules.{Runs, weaken}
use monierave.Queries.Accounts.{account_by_id, account_by_public_id}
use monierave.Books.Invariant.{IsConsistent, account_key}
use monierave.Books.Credits.{only, AccountsMoved}
use monierave.Banking.Transfer.{TransferTxParams, transfer_tx}
use monierave.Banking.Transfer.Effect.{TransferEffect}
use monierave.Banking.Transfer.Outcome.{SameMoney, transfer_tx-outcome}

-- The sender's account has lost the amount and the recipient's has gained it; nothing else moved.
pub record BalancesMoved (p : TransferTxParams) (d : Db) (r : TransferTxResult) (d' : Db)
    : Type 0 where
  pub distinct : r.from_account.id ≢ r.to_account.id
  pub opposite : neg64 p.amount +ℤ p.amount ≡ pos 0
  pub moved :
      AccountsMoved
        (λ id. only r.from_account.id (neg64 p.amount) id +ℤ only r.to_account.id p.amount id)
        d.accounts
        d'.accounts
  pub covered : pos 0 ≤ℤ r.from_account.balance

module _ {p : TransferTxParams} {d : Db} {r : TransferTxResult} {d' : Db}
    (t : TransferEffect p d r d') (c : IsConsistent d.books) where
  open t use {
    from, to, locked, debited, debited_row, credited_to, credited_row, books, from_result,
    to_result,
  }

  -- The account that the caller named is the one that was locked.
  asked-eq-from :
      (a : Account) → account_by_public_id p.from_account_public_id d.accounts ≡ some a → a ≡ from
  asked-eq-from a found =
      let (b, there, same) = locked.from_asked in
      let eq : a ≡ b = some_eq (sym found ∙ there) in
      some_eq (
        sym (by_key-of_found account_key _ d.accounts a c.unique_accounts found)
        ∙ ap (λ k. account_by_id k d.accounts) (ap (λ (x : Account). x.id) eq ∙ same)
        ∙ locked.from_row)

-- From consistent books, a transfer out of an account that is not the caller's, or that is frozen or
-- closed, never succeeds, and no account, ledger row, user or idempotency key differs after it.
pub transfer_tx-refused :
    (p : TransferTxParams) (d : Db) (a : Account)
    → IsConsistent d.books
    → account_by_public_id p.from_account_public_id d.accounts ≡ some a
    → (a.owner ≢ p.username) ⊎ ((is_frozen a.status || is_closed a.status) ≡ true)
    → Runs (λ _ d'. SameMoney d d') (λ _ _. ⊥) (transfer_tx p) d
transfer_tx-refused p d a c found reason =
    weaken (transfer_tx-outcome p d c) (λ r d' (t, _). contradiction r d' t reason) (λ _ _ s. s)
  where
    contradiction :
        (r : TransferTxResult) (d' : Db)
        → TransferEffect p d r d'
        → (a.owner ≢ p.username) ⊎ ((is_frozen a.status || is_closed a.status) ≡ true)
        → ⊥
    contradiction r d' t (inl other) =
        other (ap (λ (x : Account). x.owner) (asked-eq-from t c a found) ∙ t.owned)
    contradiction r d' t (inr stopped) = false≢true (
        sym (rw (t.not_frozen, (or_false (is_closed t.from.status) _ t.both_open).0))
        ∙ ap (λ (x : Account). is_frozen x.status || is_closed x.status)
            (sym (asked-eq-from t c a found))
        ∙ stopped)
