-- ===== src/InventoryRanges.antt =====
-- The runs of retired empty ordinals of an owner
-- (examples/cf-game-audit/game/encounter/inventory-ranges.ts).
pub mod Store
pub mod Runs
pub mod Refines
mod Tests
