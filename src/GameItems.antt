-- ===== src/GameItems.antt =====
-- Items of the game and the receipts that verify them
-- (examples/cf-game-audit/game/kernel.ts and contracts.ts).
pub mod State
pub mod Receipts
pub mod Settled
mod Tests
