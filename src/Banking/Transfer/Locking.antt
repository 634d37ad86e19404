-- ===== src/Banking/Transfer/Locking.antt =====
-- The two accounts of a transfer, as they are looked up and locked.
use mathlib.Core.Bool.{false≢true}
use monierave.Base.{
  not_equal, ℕ, ◌≡◌, ◌≢◌, some, ltb, ==_iff, by_key-key, Bool-cases, inl, inr, sym, ◌∙◌, subst,
}
use monierave.Models.{Account}
use monierave.Models.Tables.{Db}
use monierave.Store.Rules.{Runs, AnyError, pure_rule, on_error_rule, fail_if_rule, then_rule}
use monierave.Queries.Accounts.{
  account_by_id, account_by_public_id, account_by_number, get_account_by_public_id_rule,
  get_account_by_account_number_rule, get_account_for_update_rule,
}
use monierave.Books.Invariant.{account_key}
use monierave.Banking.Transfer.{
  TransferTxParams, lock_transfer_accounts, load_and_lock_transfer_accounts,
}

-- The two accounts as they were read and locked.
pub record Locked (p : TransferTxParams) (d : Db) (from to : Account) : Type 0 where
  pub from_row : account_by_id from.id d.accounts ≡ some from
  pub to_row : account_by_id to.id d.accounts ≡ some to
  pub distinct : from.id ≢ to.id
  pub from_asked :
      (a : Account) × (account_by_public_id p.from_account_public_id d.accounts ≡ some a)
      × (a.id ≡ from.id)
  pub to_asked :
      (a : Account) × (account_by_number p.to_account_number d.accounts ≡ some a) × (a.id ≡ to.id)

module _ {Q : Account × Account → Db → Type 0} {d : Db} where
  pub lock_transfer_accounts_rule :
      (f t : ℕ)
      → f ≢ t
      → ((from to : Account)
          → account_by_id f d.accounts ≡ some from
          → account_by_id t d.accounts ≡ some to
          → Q (from, to) d)
      → Runs AnyError Q (lock_transfer_accounts f t) d
  unfolding lock_transfer_accounts
  lock_transfer_accounts_rule f t ne h = elim (Bool-cases (ltb t f)) [
    | inl swap ↦ rw swap (
        then_rule (
          get_account_for_update_rule (λ _ _. tt) t (λ _. tt)
            λ a ea. then_rule (
              get_account_for_update_rule (λ _ _. tt) f (λ _. tt)
                λ b eb. pure_rule _ (
                  rw (not_equal a.id f (λ e. ne (sym e ∙ by_key-key account_key t d.accounts a ea)))
                    (h b a eb ea)))))
    | inr straight ↦ rw straight (
        then_rule (
          get_account_for_update_rule (λ _ _. tt) f (λ _. tt)
            λ a ea. then_rule (
              get_account_for_update_rule (λ _ _. tt) t (λ _. tt)
                λ b eb. pure_rule _ (
                  rw ((==_iff a.id f).1 (by_key-key account_key f d.accounts a ea))
                    (h a b ea eb)))))
  ]

module _ {Q : Account × Account → Db → Type 0} {d : Db} (p : TransferTxParams) where
  pub load_and_lock_transfer_accounts_rule :
      ((from to : Account) → Locked p d from to → Q (from, to) d)
      → Runs AnyError Q
          (load_and_lock_transfer_accounts p.from_account_public_id p.to_account_number)
          d
  unfolding load_and_lock_transfer_accounts
  load_and_lock_transfer_accounts_rule h = then_rule (
      on_error_rule _ (
        get_account_by_public_id_rule (λ _ _. tt) _ (λ _. tt)
          λ a ea. then_rule (
            on_error_rule _ (
              get_account_by_account_number_rule (λ _ _. tt) _ (λ _. tt)
                λ b eb. then_rule (
                  fail_if_rule _ (λ _. tt)
                    λ differ.
                      let ne : a.id ≢ b.id =
                        λ e. false≢true (sym differ ∙ (==_iff a.id b.id).1 e) in
                      lock_transfer_accounts_rule a.id b.id ne λ from to ef et.
                        let idf = by_key-key account_key a.id d.accounts from ef in
                        let idt = by_key-key account_key b.id d.accounts to et in
                        h from to (record {
                          from_row =
                              subst (λ k. account_by_id k d.accounts ≡ some from) (sym idf) ef;
                          to_row = subst (λ k. account_by_id k d.accounts ≡ some to) (sym idt) et;
                          distinct = λ e. ne (sym idf ∙ e ∙ idt);
                          from_asked = (a, ea, sym idf);
                          to_asked = (b, eb, sym idt);
                        }))))))
