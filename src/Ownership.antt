-- ===== src/Ownership.antt =====
-- Ownership of game assets: owner proofs
-- (examples/cf-game-audit/game/authority/owner-authentication.ts) and the chain of owner heads
-- (examples/cf-game-audit/game/authority/asset-ownership.ts).
pub mod Proofs
pub mod Separation
pub mod Heads
pub mod Transfers
pub mod Chain
pub mod Commitment
mod Tests
