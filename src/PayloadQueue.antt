-- ===== src/PayloadQueue.antt =====
-- The bounded queue of raw replay chunks
-- (examples/cf-game-audit/web/src/audit/bounded-payload-queue.ts) and its budget
-- (examples/player-local-runtime/payload-budget.ts, src/audit/payload_budget.mbt).
pub mod Budget
pub mod Store
pub mod Reopen
pub mod Consistent
pub mod Appends
pub mod Prunes
mod Tests
