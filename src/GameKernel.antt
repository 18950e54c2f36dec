-- ===== src/GameKernel.antt =====
-- The game's rules: how a frame of input advances the state
-- (examples/cf-game-audit/game/kernel.ts and content.ts).
pub mod Drops
pub mod Moves
pub mod Step
pub mod Advanced
pub mod Bounds
pub mod Census
pub mod Replay
mod Tests
