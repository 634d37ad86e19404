-- ===== src/Banking/Movement/Invariant.antt =====
-- A deposit or a withdrawal keeps the books consistent, or changes nothing at all.
use monierave.Base.{
  Negatable, neg64_back, positive_Negatable, String, ◌≡◌, refl, Bool, true, false, ℤ, pos, ◌+ℤ◌,
  ◌≤ℤ◌, max_int64, neg64, pos_part, neg_part, neg64_opposite, int_laws, by_key-of_found, subst, sym,
  ◌∙◌, ap, some_eq, if◌then◌else◌,
}
use monierave.Models.{Account, is_closed, is_withdrawal}
use monierave.Models.Tables.{Db}
use monierave.Store.Rules.{Runs, weaken, then_rule, fail_if_rule}
use monierave.Store.Atomic.{TxError-unchanged, exec_tx_rule}
use monierave.Queries.Ledger.{holds_for, settles}
use monierave.Books.Invariant.{IsConsistent, ledger_key}
use monierave.Books.Credits.{
  only, AccountsMoved-after_credit, SoundBalances-after_credit, UniqueKeys-after_credit,
  account_by_id-covered,
}
use monierave.Books.Posts.{LedgersMoved-trans, LedgersMoved-customer, LedgersMoved-settlement}
use monierave.Books.Movement.{IsConsistent-moved}
use monierave.Banking.Audit.{audit_correlation_rule}
use monierave.Banking.Transfer.Invariant.{transaction_by_id-of_violation}
use monierave.Banking.Movement.{
  MovementParams, MoneyMovementTxResult, customer_change, actor_or_default, settlement_movement_tx,
}
use monierave.Banking.Movement.Effect.{
  MovementEffect, movement_row, settlement_row, customer_row, settlement_movement-effect,
}

opposite_by :
    (w : Bool) (x : ℤ)
    → neg64 x +ℤ x ≡ pos 0
    → (if w then x else neg64 x) +ℤ (if w then neg64 x else x) ≡ pos 0
opposite_by true x h = omega (int_laws, ap pos_part h, ap neg_part h)
opposite_by false x h = h

either_Negatable :
    (w : Bool) (x : ℤ)
    → Negatable x
    → Negatable (if w then neg64 x else x) × Negatable (if w then x else neg64 x)
either_Negatable true x h = ((neg64_back x h).0, h)
either_Negatable false x h = (h, (neg64_back x h).0)

zero_plus : (x : ℤ) → x ≡ pos 0 +ℤ x
zero_plus x = omega int_laws

module _ {p : MovementParams} {actor : String} {d : Db} {r : MoneyMovementTxResult} {d' : Db}
    (m : MovementEffect p actor d r d') (bounded : p.amount ≤ℤ max_int64)
    (c : IsConsistent d.books) where
  open m use {
    account, row, not_closed, customer, customer_ledger_row, settlement, settlement_ledger_row, id,
    hex, positive, fresh, changed, changed_row, books,
  }
  open c use {unique_accounts, unique_ledgers, sound}

  pub changed-eq-account : changed ≡ account
  changed-eq-account = some_eq (
      sym (
        account_by_id-covered account.id (customer_change p) d.clock d.accounts changed
          unique_accounts changed_row)
      ∙ row)

  pub movement-IsConsistent : IsConsistent d'.books
  movement-IsConsistent = subst IsConsistent (sym books) (
      IsConsistent-moved d.books d.clock (movement_row p actor d account settlement customer id hex)
        (settlement_row p actor d account settlement customer id hex)
        (customer_row p actor d account settlement customer id hex) _ _ c _
        (AccountsMoved-after_credit account.id (customer_change p) d.clock _ changed unique_accounts
          changed_row)
        _ settlement customer (λ n. zero_plus (only account.id (customer_change p) n))
        (UniqueKeys-after_credit account.id (customer_change p) d.clock _ unique_accounts)
        (SoundBalances-after_credit account.id (customer_change p) d.clock _ changed unique_accounts
          changed_row
          (subst (λ (a : Account). is_closed a.status ≡ false) (sym changed-eq-account) not_closed)
          sound)
        (LedgersMoved-trans (λ n. pos 0) (only account.id (customer_change p)) d.ledger_accounts _ _
          _
          (LedgersMoved-settlement d.ledger_accounts unique_ledgers d.postings _ account.currency
            settlement settlement_ledger_row refl)
          (LedgersMoved-customer d.ledger_accounts unique_ledgers _ _ account.id customer
            customer_ledger_row refl))
        (transaction_by_id-of_violation _ d.transactions fresh) refl refl refl refl
        (opposite_by (is_withdrawal p.transaction_type) p.amount
          (neg64_opposite p.amount positive bounded))
        (either_Negatable (is_withdrawal p.transaction_type) p.amount
          (positive_Negatable p.amount positive bounded)).1
        (either_Negatable (is_withdrawal p.transaction_type) p.amount
          (positive_Negatable p.amount positive bounded)).0
        (by_key-of_found ledger_key (settles account.currency) d.ledger_accounts settlement
          unique_ledgers settlement_ledger_row)
        (by_key-of_found ledger_key (holds_for account.id) d.ledger_accounts customer unique_ledgers
          customer_ledger_row))

-- From consistent books, a deposit or a withdrawal of an amount within int64 either takes effect, and
-- the books stay consistent, or returns an error and leaves the whole database as it was.
pub settlement_movement_tx-outcome :
    (p : MovementParams) (d : Db)
    → IsConsistent d.books
    → p.amount ≤ℤ max_int64
    → Runs
        (λ _ d'. d' ≡ d)
        (λ r d'. MovementEffect p (actor_or_default p.actor) d r d' × IsConsistent d'.books)
        (settlement_movement_tx p)
        d
unfolding settlement_movement_tx
settlement_movement_tx-outcome p d c bounded = then_rule (
    fail_if_rule _ (λ _. refl)
      λ positive. then_rule (
        audit_correlation_rule p.correlation_id λ correlation.
          weaken
            (exec_tx_rule (settlement_movement-effect p (actor_or_default p.actor) correlation d))
            (λ r d' m. (m, movement-IsConsistent m bounded c)) (λ e d' h. TxError-unchanged h)))
