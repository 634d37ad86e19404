-- ===== src/Banking.antt =====
-- The banking transactions of db/sqlc/*_tx.go.
pub mod Audit
pub mod Notification
pub mod Posting
pub mod Transfer
pub mod Movement
pub mod Opening
pub mod Lifecycle
pub mod Idempotency
pub mod Reachable
pub mod ReversalPlan
pub mod Reversal
pub mod Reconciliation
