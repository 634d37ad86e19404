-- ===== src/Models.antt =====
-- The rows of the tables (db/sqlc/models.go), and the database as the tables that the modelled
-- operations use.
mod Banking
mod Records
mod Sessions
mod Beneficiaries
mod Errors
pub mod Tables
pub use Banking.*
pub use Records.*
pub use Sessions.*
pub use Beneficiaries.*
pub use Errors.*
