-- ===== src/Beneficiaries.antt =====
-- Saving an account to pay to: `CreateBeneficiaryTx` of db/sqlc/beneficiary_tx.go.
pub mod Created
use monierave.Base.{ℕ, String, str_eq, if◌then◌else◌}
use monierave.Models.{
  Account, is_closed, Beneficiary, Error, constraint, db_fault, not_found_as, account_not_found,
  account_closed, beneficiary_already_exists,
}
use monierave.Store.{Tx, pure, ◌>>=◌, ◌>>◌, fail_if, on_error, new_uuid, exec_tx}
use monierave.Queries.Accounts.{get_account_by_account_number, get_account_for_update}
use monierave.Queries.Beneficiaries.{CreateBeneficiaryParams, create_beneficiary}

-- CreateBeneficiaryTxParams
pub record CreateBeneficiaryTxParams : Type 0 where
  pub owner : String
  pub destination_account_number : String
  pub nickname : String

-- CreateBeneficiaryTxResult
pub record CreateBeneficiaryTxResult : Type 0 where
  pub beneficiary : Beneficiary
  pub destination_account : Account

-- `if errors.As(err, &pgErr) && pgErr.ConstraintName == …`
unfoldable pub duplicate_as_exists : Error → Error
duplicate_as_exists (db_fault (constraint name)) =
    if str_eq name "beneficiaries_owner_destination_key"
    then beneficiary_already_exists
    else db_fault (constraint name)
duplicate_as_exists e = e

abbrev pub beneficiary_params : CreateBeneficiaryTxParams → Account → CreateBeneficiaryParams
beneficiary_params p account = record {
  owner = p.owner;
  destination_account_id = account.id;
  nickname = p.nickname;
}

unfoldable pub create_beneficiary_with_queries :
    CreateBeneficiaryTxParams → Tx CreateBeneficiaryTxResult
create_beneficiary_with_queries p = do
  found ←
      on_error (not_found_as account_not_found)
        (get_account_by_account_number p.destination_account_number)
  account ← get_account_for_update found.id
  fail_if (is_closed account.status) account_closed
  id ← new_uuid
  beneficiary ← on_error duplicate_as_exists (create_beneficiary (beneficiary_params p account) id)
  pure (record { beneficiary = beneficiary; destination_account = account })

unfoldable pub create_beneficiary_tx : CreateBeneficiaryTxParams → Tx CreateBeneficiaryTxResult
create_beneficiary_tx p = exec_tx (create_beneficiary_with_queries p)
