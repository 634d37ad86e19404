-- ===== src/Queries/Beneficiaries.antt =====
-- The queries on `beneficiaries` (db/sqlc/beneficiary.sql.go). Written out are the primary key and the
-- unique constraint of db/migration/000017_beneficiaries_and_transfer_limits.up.sql.
use monierave.Base.{
  ℕ, zero, suc, ◌≡◌, ◌==◌, String, List, [], ◌∷◌, ◌++◌, Option, none, some, Bool, ◌&&◌, ◌||◌, not,
  ltb, str_eq, find_first, select, update_where, order_by, take, length, if◌then◌else◌, select_rows,
}
use monierave.Models.{
  Uuid, Time, Account, AccountStatus, Beneficiary, Fault, constraint, db_fault, Error, no_rows,
}
use monierave.Models.Tables.{Db}
use monierave.Store.{Tx, query, one, ok, err}
use monierave.Store.Rules.{Runs, Faulty, query_rule, query_here_rule, Answer-unless_fault}
use monierave.Queries.Ledger.{is_some}
use monierave.Queries.Accounts.{account_by_id}

-- CreateBeneficiaryParams
pub record CreateBeneficiaryParams : Type 0 where
  pub owner : String
  pub destination_account_id : ℕ
  pub nickname : String

abbrev pub with_beneficiaries : Db → List Beneficiary → Db
with_beneficiaries d rows = record d { beneficiaries = rows }

abbrev pub new_beneficiary : CreateBeneficiaryParams → Uuid → Time → Beneficiary
new_beneficiary p u now = record {
  id = u;
  owner = p.owner;
  destination_account_id = p.destination_account_id;
  nickname = p.nickname;
  created_at = now;
  updated_at = now;
}

abbrev pub has_beneficiary_id : Uuid → Beneficiary → Bool
has_beneficiary_id u b = b.id == u

-- The key of the unique constraint.
abbrev pub owner_saved : String → ℕ → Beneficiary → Bool
owner_saved name id b = str_eq b.owner name && b.destination_account_id == id

-- The unique constraint that a new row breaks.
unfoldable pub beneficiary_violation :
    CreateBeneficiaryParams → Uuid → List Beneficiary → Option Fault
beneficiary_violation p u rows =
    if is_some (find_first (has_beneficiary_id u) rows)
    then some (constraint "beneficiaries_pkey")
    else if is_some (find_first (owner_saved p.owner p.destination_account_id) rows)
    then some (constraint "beneficiaries_owner_destination_key")
    else none

-- The id is what the column's default, gen_random_uuid(), gives.
unfoldable pub create_beneficiary : CreateBeneficiaryParams → Uuid → Tx Beneficiary
create_beneficiary p u = query (λ d. elim (beneficiary_violation p u d.beneficiaries) [
  | some f ↦ err (db_fault f)
  | none ↦ ok (
    new_beneficiary p u d.clock,
    with_beneficiaries d (d.beneficiaries ++ new_beneficiary p u d.clock ∷ []),
  )
])

-- WHERE id = $1 AND owner = $2
abbrev pub owned_row : Uuid → String → Beneficiary → Bool
owned_row u name b = b.id == u && str_eq b.owner name

-- The number of rows deleted.
unfoldable pub delete_owned_beneficiary : Uuid → String → Tx ℕ
delete_owned_beneficiary u name = query (λ d. ok (
  length (select (owned_row u name) d.beneficiaries),
  with_beneficiaries d (select (λ b. not (owned_row u name b)) d.beneficiaries),
))

-- ListOwnedBeneficiariesRow, and UpdateOwnedBeneficiaryNicknameRow, which has the same fields.
pub record OwnedBeneficiaryRow : Type 0 where
  pub id : Uuid
  pub nickname : String
  pub destination_account_number : String
  pub currency : String
  pub destination_account_status : AccountStatus
  pub created_at : Time
  pub updated_at : Time

-- JOIN accounts AS account ON account.id = beneficiary.destination_account_id
unfoldable pub owned_beneficiary_row : List Account → Beneficiary → Option OwnedBeneficiaryRow
owned_beneficiary_row accounts b = elim (account_by_id b.destination_account_id accounts) [
  | none ↦ none
  | some account ↦ some (record {
    id = b.id;
    nickname = b.nickname;
    destination_account_number = account.account_number;
    currency = account.currency;
    destination_account_status = account.status;
    created_at = b.created_at;
    updated_at = b.updated_at;
  })
]

-- ORDER BY beneficiary.created_at DESC, beneficiary.id DESC
abbrev pub newer_beneficiary : OwnedBeneficiaryRow → OwnedBeneficiaryRow → Bool
newer_beneficiary r s =
    ltb s.created_at r.created_at || r.created_at == s.created_at && ltb s.id r.id

-- OFFSET n
unfoldable pub skip_rows : ℕ → List OwnedBeneficiaryRow → List OwnedBeneficiaryRow
skip_rows zero rows = rows
skip_rows (suc n) [] = []
skip_rows (suc n) (r ∷ rows) = skip_rows n rows

unfoldable pub list_owned_beneficiaries : String → ℕ → ℕ → Tx (List OwnedBeneficiaryRow)
list_owned_beneficiaries name limit offset = query (λ d. ok (
  take limit (
      skip_rows offset (
        order_by newer_beneficiary (
          select_rows (owned_beneficiary_row d.accounts)
            (select (λ b. str_eq b.owner name) d.beneficiaries)))),
  d,
))

-- SET nickname = $1, updated_at = now()
abbrev pub renamed : String → Time → Beneficiary → Beneficiary
renamed nickname now b = record b { nickname = nickname; updated_at = now }

unfoldable pub update_owned_beneficiary_nickname : String → Uuid → String → Tx OwnedBeneficiaryRow
update_owned_beneficiary_nickname nickname u name = query (λ d.
    elim (find_first (owned_row u name) d.beneficiaries) [
      | none ↦ err no_rows
      | some b ↦ one (owned_beneficiary_row d.accounts (renamed nickname d.clock b)) (λ r. (
        r,
        with_beneficiaries d
            (update_where (owned_row u name) (renamed nickname d.clock) d.beneficiaries),
      ))
    ])

module _ {E : Error → Db → Type 0} {d : Db} (fault : Faulty E) where
  pub create_beneficiary_rule :
      {Q : Beneficiary → Db → Type 0} (p : CreateBeneficiaryParams) (u : Uuid)
      → (beneficiary_violation p u d.beneficiaries ≡ none
          → Q
              (new_beneficiary p u d.clock)
              (with_beneficiaries d (d.beneficiaries ++ new_beneficiary p u d.clock ∷ [])))
      → Runs E Q (create_beneficiary p u) d
  unfolding create_beneficiary
  create_beneficiary_rule {Q} p u h =
      query_rule _ fault
        (Answer-unless_fault E Q d (beneficiary_violation p u d.beneficiaries) _ (λ f. fault f d) h)

pub delete_owned_beneficiary_rule :
    {E : Error → Db → Type 0} {Q : ℕ → Db → Type 0} {d : Db} (u : Uuid) (name : String)
    → ((f : Fault) → E (db_fault f) d)
    → Q
        (length (select (owned_row u name) d.beneficiaries))
        (with_beneficiaries d (select (λ b. not (owned_row u name b)) d.beneficiaries))
    → Runs E Q (delete_owned_beneficiary u name) d
unfolding delete_owned_beneficiary
delete_owned_beneficiary_rule u name fault h = query_here_rule _ fault h
