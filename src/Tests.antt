-- ===== src/Tests.antt =====
-- A small bank, and each result applied to it; runs of the operations on concrete data.
pub mod Data
pub mod Requests
pub mod Runs
pub mod Scenario
pub mod Reversals
pub mod Reconciling
pub mod Logins
pub mod Payees
pub mod Mails
pub mod Success
pub mod Relaying
