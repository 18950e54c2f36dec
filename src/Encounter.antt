-- ===== src/Encounter.antt =====
-- The authority that issues, settles and closes game encounters
-- (examples/cf-game-audit/game/encounter/).
pub mod Records
pub mod Wire
pub mod Attempts
pub mod Closing
pub mod Issue
pub mod Settlement
pub mod World
pub mod Shapes
pub mod Sound
pub mod Preserved
pub mod History
pub mod Origins
pub mod Sealing
pub mod Guarantees
pub mod Verify
pub mod Verified
mod Tests
