-- ===== src/Models/Beneficiaries.antt =====
-- The rows of `beneficiaries` (db/sqlc/models.go).
use monierave.Base.{ℕ, String}
use monierave.Models.Banking.{Uuid, Time}

pub record Beneficiary : Type 0 where
  pub id : Uuid
  pub owner : String
  pub destination_account_id : ℕ
  pub nickname : String
  pub created_at : Time
  pub updated_at : Time
