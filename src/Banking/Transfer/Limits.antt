-- ===== src/Banking/Transfer/Limits.antt =====
-- The limits: after a transfer the day's outgoing total, the transfer itself included, is within
-- the daily limit.
use monierave.Base.{
  some, ◌≡◌, true, false, ℤ, pos, ◌+ℤ◌, ◌≤ℤ◌, ltb_ℤ, leb_ℤ, neg64, sub64, max_int64, subst, sym,
  ◌∙◌, ap, arith, refl, String,
}
use monierave.Models.{Account, LedgerAccount, TransferTxResult}
use monierave.Models.Tables.{Db, Books}
use monierave.Store.{ok}
use monierave.Store.Rules.{Runs, AnyError, weaken}
use monierave.Queries.Ledger.{customer_ledger, daily_outgoing_total}
use monierave.Books.Invariant.{IsConsistent}
use monierave.Books.Daily.{daily-transfer}
use monierave.Banking.Transfer.{TransferTxParams, transfer_limits, transfer_tx}
use monierave.Banking.Transfer.Effect.{TransferEffect, transfer_row, debit_row, credit_row}
use monierave.Banking.Transfer.Invariant.{
  transaction_by_id-of_violation, amount_in_range, debited-eq-from,
}
use monierave.Banking.Transfer.Outcome.{transfer_tx-outcome}

limits_daily : (c : String) (x y : ℤ) → transfer_limits c ≡ ok (x, y) → y ≡ pos 2_500_000
unfolding transfer_limits
limits_daily c x y h = ground arith

debit_negative : (a : ℤ) → leb_ℤ a (pos 0) ≡ false → a ≤ℤ max_int64 → ltb_ℤ (neg64 a) (pos 0) ≡ true
unfolding neg64
debit_negative a h k = ground arith

room :
    (a total : ℤ)
    → leb_ℤ a (pos 0) ≡ false
    → a ≤ℤ max_int64
    → ltb_ℤ (sub64 (pos 2_500_000) a) total ≡ false
    → total +ℤ a ≤ℤ pos 2_500_000
unfolding sub64 ◌+ℤ◌
room a total h k w = ground arith

positive_not_negative : (a : ℤ) → leb_ℤ a (pos 0) ≡ false → ltb_ℤ a (pos 0) ≡ false
positive_not_negative a h = ground arith

-- What the limits promise of the account that was debited.
pub record WithinLimits (p : TransferTxParams) (d : Db) (r : TransferTxResult) (d' : Db)
    : Type 0 where
  pub per_transfer_limit : ℤ
  pub daily_limit : ℤ
  pub limits : transfer_limits p.currency ≡ ok (per_transfer_limit, daily_limit)
  pub within_limit : p.amount ≤ℤ per_transfer_limit
  pub ledger : LedgerAccount
  pub ledger_row : customer_ledger r.from_account.id d'.ledger_accounts ≡ some ledger
  pub grown :
      daily_outgoing_total ledger.id d.clock d'.transactions d'.postings
      ≡ daily_outgoing_total ledger.id d.clock d.transactions d.postings +ℤ p.amount
  pub within_day : daily_outgoing_total ledger.id d.clock d'.transactions d'.postings ≤ℤ daily_limit

module _ {p : TransferTxParams} {d : Db} {r : TransferTxResult} {d' : Db}
    (t : TransferEffect p d r d') (c : IsConsistent d.books) where
  open t use {
    from, to, per_transfer_limit, daily_limit, limits, within_limit, within_day, from_ledger,
    from_ledger_row, to_ledger, positive, id, hex, fresh, books, from_result,
  }

  daily_after :
      daily_outgoing_total from_ledger.id d.clock d'.transactions d'.postings
      ≡ daily_outgoing_total from_ledger.id d.clock d.transactions d.postings +ℤ p.amount
  daily_after =
      ap (λ (b : Books). daily_outgoing_total from_ledger.id d.clock b.transactions b.postings)
        books
      ∙ daily-transfer d.clock d.transactions
          (transfer_row p d from to from_ledger to_ledger id hex)
          (transaction_by_id-of_violation _ d.transactions fresh) refl refl refl from_ledger.id
          d.postings (debit_row p d from to from_ledger to_ledger id hex)
          (credit_row p d from to from_ledger to_ledger id hex)
          (c.known id (transaction_by_id-of_violation _ d.transactions fresh)) refl
          (debit_negative p.amount positive (amount_in_range t)) refl
          (positive_not_negative p.amount positive)

  room_left :
      daily_outgoing_total from_ledger.id d.clock d.transactions d.postings +ℤ p.amount
      ≤ℤ pos 2_500_000
  room_left = room p.amount _ positive (amount_in_range t) (
      subst
        (λ x.
          ltb_ℤ (sub64 x p.amount)
            (daily_outgoing_total from_ledger.id d.clock d.transactions d.postings)
          ≡ false)
        (limits_daily p.currency per_transfer_limit daily_limit limits) within_day)

  transfer-WithinLimits : WithinLimits p d r d'
  transfer-WithinLimits = record {
    per_transfer_limit = per_transfer_limit;
    daily_limit = daily_limit;
    limits = limits;
    within_limit = ground arith;
    ledger = from_ledger;
    ledger_row =
        ap (λ (a : Account). customer_ledger a.id d'.ledger_accounts) from_result
        ∙ ap (λ (a : Account). customer_ledger a.id d'.ledger_accounts) (debited-eq-from t c)
        ∙ ap (λ (b : Books). customer_ledger from.id b.ledger_accounts) books
        ∙ from_ledger_row;
    grown = daily_after;
    within_day =
        subst (λ x. x ≤ℤ daily_limit) (sym daily_after)
          (subst
            (λ x.
              daily_outgoing_total from_ledger.id d.clock d.transactions d.postings +ℤ p.amount
              ≤ℤ x)
            (sym (limits_daily p.currency per_transfer_limit daily_limit limits)) room_left);
  }

-- From consistent books, a transfer that succeeds is within both limits of its currency: its amount
-- is within the limit per transfer, and the day's outgoing total of the debited ledger account has
-- grown by the amount and is still within the daily limit.
pub transfer_tx-WithinLimits :
    (p : TransferTxParams) (d : Db)
    → IsConsistent d.books
    → Runs AnyError (λ r d'. WithinLimits p d r d') (transfer_tx p) d
transfer_tx-WithinLimits p d c =
    weaken (transfer_tx-outcome p d c) (λ r d' (t, _). transfer-WithinLimits t c) (λ _ _ _. tt)
