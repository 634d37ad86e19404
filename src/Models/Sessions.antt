-- ===== src/Models/Sessions.antt =====
-- The rows of `sessions` (db/sqlc/models.go). A hash is its bytes.
use monierave.Base.{ℕ, String, List, Option}
use monierave.Models.Banking.{Uuid, Time}

pub record Session : Type 0 where
  pub id : Uuid
  pub username : String
  pub user_agent : String
  pub client_ip : String
  pub expires_at : Time
  pub created_at : Time
  pub refresh_token_hash : List ℕ
  pub refresh_token_id : Uuid
  pub last_refreshed_at : Option Time
  pub revoked_at : Option Time
  pub revoked_reason : Option String
  pub device_token_hash : List ℕ
