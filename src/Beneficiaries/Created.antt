-- ===== src/Beneficiaries/Created.antt =====
-- What saving a beneficiary leaves, and that deleting it undoes it.
use monierave.Base.{
  ℕ, ◌≤◌, ◌≡◌, refl, ap, sym, subst, arith, String, List, [], ◌∷◌, ◌++◌, none, some, true, false,
  not, eq_iff, ==_iff, Bool-cases, and_true, inl, inr, find_first, select, length, count_where,
  count_where-append, count_where-none,
}
use monierave.Models.{Uuid, Time, Account, is_closed, Beneficiary}
use monierave.Models.Tables.{Db}
use monierave.Store.{◌>>=◌}
use monierave.Store.Rules.{
  Runs, AnyError, pure_rule, then_rule, bind_rule, weaken, on_error_rule, fail_if_rule,
  new_uuid_rule,
}
use monierave.Store.Atomic.{exec_tx-atomic}
use monierave.Queries.Accounts.{
  account_by_number, account_by_id, get_account_by_account_number_rule, get_account_for_update_rule,
}
use monierave.Queries.Beneficiaries.{
  CreateBeneficiaryParams, new_beneficiary, with_beneficiaries, has_beneficiary_id, owner_saved,
  owned_row, beneficiary_violation, create_beneficiary_rule, delete_owned_beneficiary,
  delete_owned_beneficiary_rule,
}
use monierave.Beneficiaries.{
  CreateBeneficiaryTxParams, CreateBeneficiaryTxResult, beneficiary_params,
  create_beneficiary_with_queries, create_beneficiary_tx,
}

-- The owner had not saved the account, and the id is no other row's.
pub record Unsaved (p : CreateBeneficiaryParams) (u : Uuid) (rows : List Beneficiary) : Type 0 where
  pub new_id : find_first (has_beneficiary_id u) rows ≡ none
  pub first_time : find_first (owner_saved p.owner p.destination_account_id) rows ≡ none

Unsaved-of_violation :
    (p : CreateBeneficiaryParams) (u : Uuid) (rows : List Beneficiary)
    → beneficiary_violation p u rows ≡ none
    → Unsaved p u rows
unfolding beneficiary_violation
Unsaved-of_violation p u rows h = record { new_id = ground arith; first_time = ground arith }

-- No owner has saved an account twice.
abbrev pub SavedOnce : List Beneficiary → Type 0
SavedOnce rows = (name : String) (id : ℕ) → count_where (owner_saved name id) rows ≤ 1

-- What a call that succeeds saw and left.
pub record Saved (p : CreateBeneficiaryTxParams) (d : Db) (r : CreateBeneficiaryTxResult) (d' : Db)
    : Type 0 where
  pub found : Account
  pub number_found : account_by_number p.destination_account_number d.accounts ≡ some found
  pub locked : account_by_id found.id d.accounts ≡ some r.destination_account
  pub was_open : is_closed r.destination_account.status ≡ false
  pub id : Uuid
  pub row : r.beneficiary ≡ new_beneficiary (beneficiary_params p r.destination_account) id d.clock
  pub unsaved : Unsaved (beneficiary_params p r.destination_account) id d.beneficiaries
  pub stored : d' ≡ with_beneficiaries d (d.beneficiaries ++ r.beneficiary ∷ [])

create_beneficiary_with_queries-Saved :
    (p : CreateBeneficiaryTxParams) (d : Db)
    → Runs AnyError (Saved p d) (create_beneficiary_with_queries p) d
unfolding create_beneficiary_with_queries
create_beneficiary_with_queries-Saved p d = then_rule (
    on_error_rule _ (
      get_account_by_account_number_rule (λ _ _. tt) _ (λ _. tt)
        λ a found. then_rule (
          get_account_for_update_rule (λ _ _. tt) _ (λ _. tt)
            λ b locked. then_rule (
              fail_if_rule _ (λ _. tt)
                λ open_status. then_rule (
                  new_uuid_rule λ u. then_rule (
                    on_error_rule _ (
                      create_beneficiary_rule (λ _ _. tt) (beneficiary_params p b) u
                        λ fresh. pure_rule _ (record {
                          found = a;
                          number_found = found;
                          locked = locked;
                          was_open = open_status;
                          id = u;
                          row = refl;
                          unsaved = Unsaved-of_violation _ u d.beneficiaries fresh;
                          stored = refl;
                        }))))))))

create_beneficiary_tx-Saved :
    (p : CreateBeneficiaryTxParams) (d : Db)
    → Runs (λ _ d'. d' ≡ d) (Saved p d) (create_beneficiary_tx p) d
unfolding create_beneficiary_tx
create_beneficiary_tx-Saved p d = exec_tx-atomic _ d (create_beneficiary_with_queries-Saved p d)

module _ (p : CreateBeneficiaryParams) (u : Uuid) (now : Time) (rows : List Beneficiary) where
  rows_after : List Beneficiary
  rows_after = rows ++ new_beneficiary p u now ∷ []

  SavedOnce-created : Unsaved p u rows → SavedOnce rows → SavedOnce rows_after
  unfolding rows_after count_where
  SavedOnce-created a h name id =
      subst (λ n. n ≤ 1) (sym (count_where-append (owner_saved name id) rows _))
        (elim (Bool-cases (owner_saved name id (new_beneficiary p u now))) [
          | inl own ↦
              let none_left = count_where-none (owner_saved name id) rows (same own) in
              rw (own, none_left) (omega arith)
          | inr other ↦ let few = h name id in rw other (omega (arith, few))
        ])
    where
      same :
          owner_saved name id (new_beneficiary p u now) ≡ true
          → find_first (owner_saved name id) rows ≡ none
      same own =
          let (named, destined) = and_true own in
          subst (λ (n : String). find_first (owner_saved n id) rows ≡ none)
            ((eq_iff p.owner name).0 named)
            (subst (λ (i : ℕ). find_first (owner_saved p.owner i) rows ≡ none)
              ((==_iff p.destination_account_id id).0 destined) a.first_time)

module _ (p : CreateBeneficiaryParams) (u : Uuid) (now : Time) where
  is_own : owned_row u p.owner (new_beneficiary p u now) ≡ true
  is_own = rw ((==_iff u u).1 refl, (eq_iff p.owner p.owner).1 refl) refl

  -- The owner's deletion by the new row's id takes that row and no other.
  kept_rows :
      (xs : List Beneficiary)
      → find_first (has_beneficiary_id u) xs ≡ none
      → select (λ b. not (owned_row u p.owner b)) (xs ++ new_beneficiary p u now ∷ []) ≡ xs
  unfolding find_first select
  kept_rows [] h = rw is_own refl
  kept_rows (x ∷ xs) h = ground (arith, kept_rows xs)

  one_taken :
      (xs : List Beneficiary)
      → find_first (has_beneficiary_id u) xs ≡ none
      → length (select (owned_row u p.owner) (xs ++ new_beneficiary p u now ∷ [])) ≡ 1
  unfolding find_first select
  one_taken [] h = rw is_own refl
  one_taken (x ∷ xs) h = ground (arith, one_taken xs)

-- From tables where no owner has saved an account twice, a call that succeeds found the account by its
-- number, open, which the owner had not saved yet; it adds one row, the one that it returns, with an id of
-- its own, and changes nothing else, so that still no owner has saved an account twice. A call that fails
-- leaves the whole database as it was.
pub create_beneficiary_tx-SavedOnce :
    (p : CreateBeneficiaryTxParams) (d : Db)
    → SavedOnce d.beneficiaries
    → Runs
        (λ _ d'. d' ≡ d)
        (λ r d'. Saved p d r d' × SavedOnce d'.beneficiaries)
        (create_beneficiary_tx p)
        d
unfolding rows_after
create_beneficiary_tx-SavedOnce p d h =
    weaken (create_beneficiary_tx-Saved p d) (λ r d' s. (s, once r d' s)) (λ _ _ e. e)
  where
    once : (r : CreateBeneficiaryTxResult) (d' : Db) → Saved p d r d' → SavedOnce d'.beneficiaries
    once r d' s =
        subst (λ (x : Db). SavedOnce x.beneficiaries) (sym s.stored)
          (subst (λ (b : Beneficiary). SavedOnce (d.beneficiaries ++ b ∷ [])) (sym s.row)
            (SavedOnce-created _ s.id d.clock d.beneficiaries s.unsaved h))

-- What is left where one of the two calls fails.
pub data Interrupted (p : CreateBeneficiaryTxParams) (d d' : Db) : Type 0 where
  nothing_saved : d' ≡ d → Interrupted p d d'
  still_saved : (r : CreateBeneficiaryTxResult) → Saved p d r d' → Interrupted p d d'

-- Where an owner saves a beneficiary and deletes it by the id that the call returned, one row is deleted
-- and the database is what it was before both. Where one of the two fails, either nothing was saved and the
-- database is as before, or the beneficiary is still there.
pub create_beneficiary_tx-delete_owned_beneficiary :
    (p : CreateBeneficiaryTxParams) (d : Db)
    → Runs
        (λ _ d'. Interrupted p d d')
        (λ deleted d'. (deleted ≡ 1) × (d' ≡ d))
        (create_beneficiary_tx p >>= λ r. delete_owned_beneficiary r.beneficiary.id p.owner)
        d
create_beneficiary_tx-delete_owned_beneficiary p d =
    bind_rule (weaken (create_beneficiary_tx-Saved p d) (λ _ _ s. s) (λ _ _ e. nothing_saved e))
      (λ r d' s. delete_owned_beneficiary_rule _ _ (λ _. still_saved r s) (undone r d' s))
  where
    undone :
        (r : CreateBeneficiaryTxResult) (d' : Db)
        → Saved p d r d'
        → (length (select (owned_row r.beneficiary.id p.owner) d'.beneficiaries) ≡ 1)
          × (with_beneficiaries d'
                (select (λ b. not (owned_row r.beneficiary.id p.owner b)) d'.beneficiaries)
              ≡ d)
    undone r d' s =
        rw (s.stored, s.row)
          (
            one_taken (beneficiary_params p r.destination_account) s.id d.clock d.beneficiaries
                s.unsaved.new_id,
            ap (with_beneficiaries d) (
                kept_rows (beneficiary_params p r.destination_account) s.id d.clock d.beneficiaries
                  s.unsaved.new_id),
          )
