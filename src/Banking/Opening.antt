-- ===== src/Banking/Opening.antt =====
-- Opening an account (db/sqlc/account_tx.go, db/sqlc/account_number.go): an account number is drawn,
-- and drawn again where it is taken, five times at most.
pub mod Outcome
use Prim.Native.String.{◌++◌ as append_text}
use monierave.Base.{
  ℕ, zero, suc, ◌/◌, ◌%◌, String, [], ◌∷◌, Bool, true, false, Option, none, some, ◌==◌, str_eq,
  if◌then◌else◌,
}
use monierave.Models.{
  Account, status_text, text, Error, Fault, constraint, db_fault, account_number_attempts_exhausted,
  random_source_failed,
}
use monierave.Store.{Tx, pure, raise, ◌>>=◌, ◌>>◌, new_uuid, random_below, exec_tx, catch}
use monierave.Queries.Accounts.{CreateAccountParams, create_account}
use monierave.Queries.Ledger.{create_customer_ledger_account}
use monierave.Banking.Audit.{FinancialAuditParams, create_financial_audit}

abbrev pub account_number_digits : ℕ
account_number_digits = 10

abbrev pub account_number_upper_bound : ℕ
account_number_upper_bound = 10_000_000_000

unfoldable pub digit_text : ℕ → String
digit_text n =
    if n == 0
    then "0"
    else if n == 1
    then "1"
    else if n == 2
    then "2"
    else if n == 3
    then "3"
    else if n == 4
    then "4"
    else if n == 5
    then "5"
    else if n == 6
    then "6"
    else if n == 7
    then "7"
    else if n == 8
    then "8"
    else "9"

-- `%0kd` of a number below 10^k: its last k decimal digits.
unfoldable pub padded_decimal : ℕ → ℕ → String
unfolding digit_text
padded_decimal zero n = ""
padded_decimal (suc k) n = append_text (padded_decimal k (n / 10)) (digit_text (n % 10))

unfoldable pub number_of_draw : Option ℕ → Tx String
number_of_draw none = raise random_source_failed
number_of_draw (some n) = pure (padded_decimal account_number_digits n)

unfoldable pub generate_account_number : Tx String
generate_account_number = do value ← random_below account_number_upper_bound; number_of_draw value

-- `errors.As` finds the driver's error, and its constraint is accounts_account_number_key.
unfoldable pub is_account_number_collision : Error → Bool
is_account_number_collision (db_fault (constraint name)) = str_eq name "accounts_account_number_key"
is_account_number_collision _ = false

abbrev pub account_number_generation_attempts : ℕ
account_number_generation_attempts = 5

-- The loop, by the attempts that are left.
unfoldable pub create_account_with_generated_number :
    ℕ → Tx String → (String → Tx Account) → Tx Account
create_account_with_generated_number zero generate create = raise account_number_attempts_exhausted
create_account_with_generated_number (suc attempts) generate create =
    let again = create_account_with_generated_number attempts generate create in
    do
      account_number ← generate
      catch (create account_number) (λ e. if is_account_number_collision e then again else raise e)

abbrev pub account_created_audit : Account → FinancialAuditParams
account_created_audit account = record {
  entity_type = "account";
  entity_id = account.public_id;
  correlation_id = account.public_id;
  event_type = "account_created";
  actor = account.owner;
  from_state = "";
  to_state = status_text account.status;
  message = none;
  metadata = ("currency", text account.currency) ∷ [];
}

-- The two draws are the public ids that the schema's defaults give to the two rows.
unfoldable pub create_account_attempt : CreateAccountParams → Tx Account
create_account_attempt p = exec_tx (do
  account_public_id ← new_uuid
  account ← create_account p account_public_id
  ledger_public_id ← new_uuid
  create_customer_ledger_account account.id account.currency ledger_public_id
  create_financial_audit (account_created_audit account)
  pure account)

-- CreateAccountTxParams
pub record CreateAccountTxParams : Type 0 where
  pub owner : String
  pub currency : String

abbrev pub numbered : CreateAccountTxParams → String → CreateAccountParams
numbered p number = record { owner = p.owner; currency = p.currency; account_number = number }

unfoldable pub create_account_tx : CreateAccountTxParams → Tx Account
create_account_tx p =
    create_account_with_generated_number account_number_generation_attempts generate_account_number
      (λ number. create_account_attempt (numbered p number))
