-- ===== src/Books.antt =====
-- Facts about the ledger's tables that the operations share.
pub mod Sums
pub mod Invariant
pub mod Credits
pub mod Posts
pub mod Transactions
pub mod Entry
pub mod Movement
pub mod Marking
pub mod Sources
pub mod Undoing
pub mod Daily
pub mod Opening
pub mod Status
