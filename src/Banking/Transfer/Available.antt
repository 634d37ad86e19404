-- ===== src/Banking/Transfer/Available.antt =====
-- The statements of `transfer_with_queries`, one after another, on a transfer that is permitted.
use mathlib.Core.Bool.{false≢true}
use monierave.Base.{
  ℕ, ◌≡◌, refl, List, true, false, not, Option, none, some, ℤ, pos, ◌+ℤ◌, ◌≤ℤ◌, ltb_ℤ, leb_ℤ, ltb,
  ◌==ℤ◌, neg64, sub64, max_int64, sym, ◌∙◌, subst, ◌==◌, ==_iff, not_equal, str_eq, eq_iff, some_eq,
  none_ne_some, find_first, find_first_narrow, find_first_last, by_key-of_found, Bool-cases, inl,
  inr,
}
use monierave.Models.{Account, LedgerAccount, User, Uuid, Error}
use monierave.Models.Tables.{Db}
use monierave.Store.{ok, err}
use monierave.Store.Rules.{
  Runs, Faulty, pure_rule, lift_rule, fail_if_rule, then_rule, on_error_rule,
}
use monierave.Store.Atomic.{Infrastructure, of_fault}
use monierave.Queries.Accounts.{
  account_by_id, covers, get_account_by_public_id_rule, get_account_by_account_number_rule,
  get_account_for_update_rule, add_account_balance_internal_rule,
}
use monierave.Queries.Records.{user_by_name}
use monierave.Queries.Ledger.{postable, daily_outgoing_total}
use monierave.Queries.Ledger.Rules.{
  get_daily_outgoing_transfer_total_rule, mark_banking_transaction_posted_rule,
}
use monierave.Books.Invariant.{IsConsistent, account_key}
use monierave.Books.Credits.{after_credit, account_by_id-after_credit}
use monierave.Banking.Audit.{create_financial_audit_rule}
use monierave.Banking.Notification.{create_financial_notification_rule}
use monierave.Banking.Posting.Rules.{
  create_balanced_transaction_rule, customer_ledger_account_rule, subtract_account_balance_rule,
}
use monierave.Banking.Transfer.{
  TransferTxParams, wrong_currency, lock_transfer_accounts, load_and_lock_transfer_accounts,
  transfer_with_queries, post_transfer,
}
use monierave.Banking.Transfer.Permitted.{Permitted, transfer_total, debit_fits, credit_fits}

-- A query whose row is known.
no_row : {A : Type 0} {o : Option A} {a : A} {X : Type 0} → o ≡ some a → o ≡ none → X
no_row known missing = absurd (none_ne_some (sym missing ∙ known))

only_row :
    {A : Type 0} {o : Option A} {a : A} (Q : A → Type 0)
    → o ≡ some a
    → Q a
    → (b : A) → o ≡ some b
    → Q b
only_row Q known h b found = subst Q (some_eq (sym known ∙ found)) h

ok_eq : {A : Type 0} {x y : A} → ok x ≡ ok y → x ≡ y
ok_eq e = cc

ok_err : {A : Type 0} {x : A} {e : Error} → ok x ≡ err e → ⊥
ok_err h = cc

not_zero : (a : ℤ) → pos 0 ≡ a → not (a ==ℤ pos 0) ≡ true → ⊥
not_zero a zero off = false≢true (subst (λ z. not (z ==ℤ pos 0) ≡ true) (sym zero) off)

abbrev pub Outside : Error → Db → Type 0
Outside e d = Infrastructure e

may_fault : Faulty Outside
may_fault f d = of_fault f

module _ {p : TransferTxParams} {d : Db} (x : Permitted p d) (c : IsConsistent d.books) where
  open x use {from, to}

  from_by_id : account_by_id from.id d.accounts ≡ some from
  from_by_id =
      by_key-of_found account_key (λ a. a.public_id == p.from_account_public_id) d.accounts from
        c.unique_accounts x.from_row

  to_by_id : account_by_id to.id d.accounts ≡ some to
  to_by_id =
      by_key-of_found account_key (λ a. str_eq a.account_number p.to_account_number) d.accounts to
        c.unique_accounts x.to_row

  module _ {Q : Account × Account → Db → Type 0} where
    locks_available : Q (from, to) d → Runs Outside Q (lock_transfer_accounts from.id to.id) d
    unfolding lock_transfer_accounts
    locks_available h = elim (Bool-cases (ltb to.id from.id)) [
      | inl swap ↦ rw swap (
          then_rule (
            get_account_for_update_rule may_fault to.id (no_row to_by_id) (
              only_row _ to_by_id (
                then_rule (
                  get_account_for_update_rule may_fault from.id (no_row from_by_id) (
                    only_row _ from_by_id
                      (pure_rule _ (rw (not_equal to.id from.id (λ e. x.distinct (sym e))) h))))))))
      | inr straight ↦ rw straight (
          then_rule (
            get_account_for_update_rule may_fault from.id (no_row from_by_id) (
              only_row _ from_by_id (
                then_rule (
                  get_account_for_update_rule may_fault to.id (no_row to_by_id) (
                    only_row _ to_by_id (pure_rule _ (rw ((==_iff from.id from.id).1 refl) h))))))))
    ]

    accounts_available :
        Q (from, to) d
        → Runs Outside Q
            (load_and_lock_transfer_accounts p.from_account_public_id p.to_account_number)
            d
    unfolding load_and_lock_transfer_accounts
    accounts_available h = then_rule (
        on_error_rule _ (
          get_account_by_public_id_rule may_fault _ (no_row x.from_row) (
            only_row _ x.from_row (
              then_rule (
                on_error_rule _ (
                  get_account_by_account_number_rule may_fault _ (no_row x.to_row) (
                    only_row _ x.to_row (
                      then_rule (
                        fail_if_rule _ (λ same. absurd (x.distinct ((==_iff from.id to.id).0 same)))
                          λ _. locks_available h)))))))))

  own_currency : wrong_currency p from to ≡ false
  own_currency =
      rw
        (
          (eq_iff from.currency p.currency).1 x.from_currency,
          (eq_iff to.currency p.currency).1 x.to_currency,
        )
        refl

  some-covers :
      (id : ℕ) (y : ℤ) (rows : List Account) (a : Account)
      → account_by_id id rows ≡ some a
      → leb_ℤ (pos 0) (a.balance +ℤ y) ≡ true
      → find_first (covers id y) rows ≡ some a
  some-covers id y rows a found fits =
      find_first_narrow (λ r. r.id == id) (λ r. leb_ℤ (pos 0) (r.balance +ℤ y)) rows a found fits

  module _ (bounded : p.amount ≤ℤ max_int64) where
    debit_row : find_first (covers from.id (neg64 p.amount)) d.accounts ≡ some from
    debit_row =
        some-covers from.id (neg64 p.amount) d.accounts from from_by_id
          (debit_fits p.amount x.positive bounded from.balance x.funds)

    to_after_debit :
        account_by_id to.id (after_credit from.id (neg64 p.amount) d.clock d.accounts) ≡ some to
    to_after_debit =
        account_by_id-after_credit from.id (neg64 p.amount) d.clock d.accounts to.id
        ∙ rw (to_by_id, not_equal to.id from.id (λ e. x.distinct (sym e))) refl

    credit_row :
        find_first
          (covers to.id p.amount)
          (after_credit from.id (neg64 p.amount) d.clock d.accounts)
        ≡ some to
    credit_row =
        some-covers to.id p.amount _ to to_after_debit
          (credit_fits p.amount x.positive bounded to.balance (c.sound to.id to to_by_id).0)

    user_of :
        {a b : Account} {u : User}
        → a ≡ b
        → user_by_name b.owner d.users ≡ some u
        → user_by_name a.owner d.users ≡ some u
    user_of {u} same found =
        subst (λ (y : Account). user_by_name y.owner d.users ≡ some u) (sym same) found

    post_available :
        (correlation : Uuid) (l m : LedgerAccount)
        → Runs Outside (λ _ _. Unit {0}) (post_transfer p correlation from to l m) d
    unfolding post_transfer
    post_available correlation l m = then_rule (
        create_balanced_transaction_rule may_fault _ _
          (λ low. absurd (false≢true (sym x.positive ∙ low))) (λ few. absurd (false≢true few))
          (λ e bad.
            absurd (ok_err (sym (transfer_total p.amount x.positive bounded l.id m.id) ∙ bad)))
          (λ total sum off. absurd (
            not_zero total
              (ok_eq (sym (transfer_total p.amount x.positive bounded l.id m.id) ∙ sum)) off))
          λ id hex positive total fresh. then_rule (
            create_financial_audit_rule may_fault _ (
              then_rule (
                subtract_account_balance_rule may_fault _ _ (no_row debit_row) λ a a_row.
                  then_rule (
                    add_account_balance_internal_rule may_fault _ _ (no_row credit_row) λ b b_row.
                      then_rule (
                        mark_banking_transaction_posted_rule may_fault _
                          (λ missing. absurd (
                            find_first_last (postable id) d.transactions _
                              (rw ((==_iff id id).1 refl) refl) missing))
                          λ t t_row. then_rule (
                            create_financial_audit_rule may_fault _ (
                              then_rule (
                                create_financial_notification_rule may_fault _
                                  (no_row
                                    (user_of (some_eq (sym a_row ∙ debit_row)) x.from_user_row))
                                  λ u1 e1 j1 _. then_rule (
                                    create_financial_notification_rule may_fault _
                                      (no_row
                                        (user_of (some_eq (sym b_row ∙ credit_row)) x.to_user_row))
                                      λ u2 e2 j2 _. pure_rule _ tt))))))))))

    pub transfer_available :
        (correlation : Uuid)
        → Runs Outside (λ _ _. Unit {0}) (transfer_with_queries p correlation) d
    unfolding transfer_with_queries
    transfer_available correlation =
        let (fl, fl_row) = c.has_ledgers from.id from from_by_id in
        let (tl, tl_row) = c.has_ledgers to.id to to_by_id in
        then_rule (
          accounts_available (
            then_rule (
              fail_if_rule _
                (λ h. absurd (false≢true (rw ((eq_iff from.owner p.username).1 x.owned) at h)))
                λ _. then_rule (
                  fail_if_rule _ (λ h. absurd (false≢true (sym own_currency ∙ h)))
                    λ _. then_rule (
                      fail_if_rule _ (λ h. absurd (false≢true (sym x.not_frozen ∙ h)))
                        λ _. then_rule (
                          fail_if_rule _
                            (λ h. absurd (false≢true (rw (x.from_open, x.to_open) at h)))
                            λ _. then_rule (
                              lift_rule _
                                (λ (per, daily) limits.
                                  let same = ok_eq (sym x.limits ∙ limits) in
                                  then_rule (
                                    fail_if_rule _
                                      (λ h. absurd (
                                        false≢true (
                                          sym x.within_limit
                                          ∙ subst (λ z. ltb_ℤ z.0 p.amount ≡ true) (sym same) h)))
                                      λ _. then_rule (
                                        customer_ledger_account_rule may_fault _ (no_row fl_row)
                                          λ l l_row. then_rule (
                                            get_daily_outgoing_transfer_total_rule may_fault _ (
                                              then_rule (
                                                fail_if_rule _
                                                  (λ h. absurd (
                                                    false≢true (
                                                      sym (x.within_day l l_row)
                                                      ∙ subst
                                                          (λ z.
                                                            ltb_ℤ (sub64 z.1 p.amount) (
                                                            daily_outgoing_total l.id d.clock
                                                            d.transactions d.postings)
                                                            ≡ true)
                                                          (sym same) h)))
                                                  λ _. then_rule (
                                                    customer_ledger_account_rule may_fault _
                                                      (no_row tl_row)
                                                      λ m m_row.
                                                        post_available correlation l m)))))))
                                (λ e bad. absurd (ok_err (sym x.limits ∙ bad))))))))))
