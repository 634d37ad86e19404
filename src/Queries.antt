-- ===== src/Queries.antt =====
-- The SQL queries of db/sqlc/*.sql.go, by table.
pub mod Accounts
pub mod Ledger
pub mod Records
pub mod Idempotency
pub mod Sessions
pub mod Outbox
pub mod Emails
pub mod Users
pub mod Beneficiaries
pub mod Reconciliation
pub mod Reversal
