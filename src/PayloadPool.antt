-- ===== src/PayloadPool.antt =====
-- The pool of payload queues that share one budget
-- (examples/cf-game-audit/web/src/audit/payload-pool.ts).
pub mod Scopes
pub mod Store
pub mod Removal
pub mod Accounts
pub mod Kept
pub mod Transactions
pub mod Operations
pub mod Reached
pub mod Reserved
mod Tests
