-- ===== src/Banking/Transfer/Permitted.antt =====
-- A transfer that is permitted goes through: nothing but the outside can make it fail.

use monierave.Base.{
  ℕ, ◌≡◌, refl, ◌≢◌, [], ◌∷◌, true, false, some, ℤ, pos, negsuc, neg, ◌+ℤ◌, ◌≤ℤ◌, ltb_ℤ, leb_ℤ,
  ◌==ℤ◌, neg64, add64, sub64, wrap64, max_int64, int_laws, arith, ap, ◌∙◌, subst, IsInt64,
  wrap64-of-IsInt64, neg64-Negatable, neg64_opposite, neg_parts, +ℤ_parts, positive_Negatable,
}
use monierave.Models.{Account, LedgerAccount, User, is_frozen, is_closed}
use monierave.Models.Tables.{Db}
use monierave.Store.{ok}
use monierave.Queries.Accounts.{account_by_public_id, account_by_number}
use monierave.Queries.Records.{user_by_name}
use monierave.Queries.Ledger.{customer_ledger, daily_outgoing_total}
use monierave.Banking.Posting.{posting_total}
use monierave.Banking.Transfer.{TransferTxParams, transfer_limits}

-- What the code asks of a transfer.
pub record Permitted (p : TransferTxParams) (d : Db) : Type 0 where
  pub from : Account
  pub to : Account
  pub from_row : account_by_public_id p.from_account_public_id d.accounts ≡ some from
  pub to_row : account_by_number p.to_account_number d.accounts ≡ some to
  pub distinct : from.id ≢ to.id
  pub owned : from.owner ≡ p.username
  pub from_currency : from.currency ≡ p.currency
  pub to_currency : to.currency ≡ p.currency
  pub not_frozen : is_frozen from.status ≡ false
  pub from_open : is_closed from.status ≡ false
  pub to_open : is_closed to.status ≡ false
  pub positive : leb_ℤ p.amount (pos 0) ≡ false
  pub funds : p.amount ≤ℤ from.balance
  pub per_transfer_limit : ℤ
  pub daily_limit : ℤ
  pub limits : transfer_limits p.currency ≡ ok (per_transfer_limit, daily_limit)
  pub within_limit : ltb_ℤ per_transfer_limit p.amount ≡ false
  pub within_day :
      (l : LedgerAccount)
      → customer_ledger from.id d.ledger_accounts ≡ some l
      → ltb_ℤ
          (sub64 daily_limit p.amount)
          (daily_outgoing_total l.id d.clock d.transactions d.postings)
        ≡ false
  pub from_user : User
  pub from_user_row : user_by_name from.owner d.users ≡ some from_user
  pub to_user : User
  pub to_user_row : user_by_name to.owner d.users ≡ some to_user

positive_not_zero :
    (a : ℤ) → leb_ℤ a (pos 0) ≡ false → ((a ==ℤ pos 0) ≡ false) × ((neg a ==ℤ pos 0) ≡ false)
unfolding neg
positive_not_zero (pos n) h = (ground arith, ground arith)
positive_not_zero (negsuc n) h = (ground arith, ground arith)

zero_first : (x : ℤ) → pos 0 +ℤ x ≡ x
zero_first x = omega int_laws

module _ (a : ℤ) (positive : leb_ℤ a (pos 0) ≡ false) (bounded : a ≤ℤ max_int64) where
  negated : neg64 a ≡ neg a
  negated = neg64-Negatable a (positive_Negatable a positive bounded)

  negated-IsInt64 : IsInt64 (neg a)
  negated-IsInt64 =
      let (low, high) = positive_Negatable a positive bounded in
      (omega (arith, neg_parts a), omega (arith, neg_parts a))

  back_to_zero : add64 (add64 (pos 0) (neg64 a)) a ≡ pos 0
  unfolding add64
  back_to_zero =
      rw (zero_first (neg64 a), negated, wrap64-of-IsInt64 (neg a) negated-IsInt64)
        (ap wrap64 (subst (λ x. x +ℤ a ≡ pos 0) negated (neg64_opposite a positive bounded))
          ∙ wrap64-of-IsInt64 (pos 0) (omega arith, omega arith))

  pub transfer_total :
      (l m : ℕ)
      → posting_total (pos 0) (
          record { ledger_account_id = l; amount = neg64 a }
          ∷ record { ledger_account_id = m; amount = a }
          ∷ [])
        ≡ ok (pos 0)
  unfolding posting_total
  transfer_total l m =
      let (some_out, some_in) = positive_not_zero a positive in
      rw (back_to_zero, negated, some_out, some_in) refl

  pub debit_fits : (b : ℤ) → a ≤ℤ b → leb_ℤ (pos 0) (b +ℤ neg64 a) ≡ true
  debit_fits b h = rw negated (ground (arith, +ℤ_parts b (neg a), neg_parts a))

  pub credit_fits : (b : ℤ) → pos 0 ≤ℤ b → leb_ℤ (pos 0) (b +ℤ a) ≡ true
  credit_fits b h = ground (arith, +ℤ_parts b a)
