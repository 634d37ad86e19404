-- ===== src/Tests/Payees.antt =====
-- Saving and listing beneficiaries on the small bank.
use monierave.Base.{
  ◌≡◌, refl, String, List, [], ◌∷◌, Option, none, some, map, arith, find_first, select, take,
  order_by, insert_row, select_rows, count_where,
}
use monierave.Models.{Error, account_not_found, beneficiary_already_exists}
use monierave.Store.{
  World, Result, ok, err, pure, raise, query, ◌>>=◌, end_tx, exec_tx, fail_if, catch, on_error,
  new_uuid,
}
use monierave.Queries.Accounts.{get_account_by_account_number, get_account_for_update}
use monierave.Store.Rules.{Runs}
use monierave.Queries.Beneficiaries.{
  OwnedBeneficiaryRow, delete_owned_beneficiary, list_owned_beneficiaries, beneficiary_violation,
  create_beneficiary, owned_beneficiary_row, skip_rows,
}
use monierave.Beneficiaries.{
  CreateBeneficiaryTxParams, create_beneficiary_tx, create_beneficiary_with_queries,
  duplicate_as_exists,
}
use monierave.Beneficiaries.Created.{
  Saved, SavedOnce, Interrupted, create_beneficiary_tx-SavedOnce,
  create_beneficiary_tx-delete_owned_beneficiary,
}
use monierave.Tests.Data.{sample_db}
use monierave.Tests.Scenario.{quiet_world}

abbrev landlord : CreateBeneficiaryTxParams
landlord = record {
  owner = "alice";
  destination_account_number = "0000000002";
  nickname = "Landlord";
}

none_twice : SavedOnce sample_db.beneficiaries
unfolding count_where
none_twice name id = omega arith

create_beneficiary_tx-SavedOnce_example :
    Runs
      (λ _ d'. d' ≡ sample_db)
      (λ r d'. Saved landlord sample_db r d' × SavedOnce d'.beneficiaries)
      (create_beneficiary_tx landlord)
      sample_db
create_beneficiary_tx-SavedOnce_example =
    create_beneficiary_tx-SavedOnce landlord sample_db none_twice

create_beneficiary_tx-delete_owned_beneficiary_example :
    Runs
      (λ _ d'. Interrupted landlord sample_db d')
      (λ deleted d'. (deleted ≡ 1) × (d' ≡ sample_db))
      (create_beneficiary_tx landlord >>= λ r.
        delete_owned_beneficiary r.beneficiary.id landlord.owner)
      sample_db
create_beneficiary_tx-delete_owned_beneficiary_example =
    create_beneficiary_tx-delete_owned_beneficiary landlord sample_db

-- The saved account is listed with its number; saving it again, or an unknown number, is an error.
abbrev unknown : CreateBeneficiaryTxParams
unknown = record landlord { destination_account_number = "9999999999" }

abbrev listed_numbers : Result (List OwnedBeneficiaryRow) × World → List String
listed_numbers (ok rows, w) = map (λ r. r.destination_account_number) rows
listed_numbers (err e, w) = []

abbrev error_of : {A : Type 0} → Result A × World → Option Error
error_of (ok a, w) = none
error_of (err e, w) = some e

payee_runs :
    (listed_numbers (
        (create_beneficiary_tx landlord >>= λ _. list_owned_beneficiaries "alice" 10 0) quiet_world)
      ≡ "0000000002" ∷ [])
    × (listed_numbers (
          (create_beneficiary_tx landlord >>= λ _. list_owned_beneficiaries "bob" 10 0) quiet_world)
        ≡ [])
    × (error_of
          ((create_beneficiary_tx landlord >>= λ _. create_beneficiary_tx landlord) quiet_world)
        ≡ some beneficiary_already_exists)
    × (error_of (create_beneficiary_tx unknown quiet_world) ≡ some account_not_found)
unfolding find_first select pure raise query ◌>>=◌ end_tx exec_tx fail_if catch on_error new_uuid
    get_account_by_account_number get_account_for_update beneficiary_violation create_beneficiary
    duplicate_as_exists create_beneficiary_with_queries create_beneficiary_tx
    list_owned_beneficiaries owned_beneficiary_row skip_rows take order_by insert_row select_rows
payee_runs = (refl, refl, refl, refl)
