-- ===== src/KeyLedger.antt =====
-- The lifecycle ledger of verification keys: planning a provision, a rotation or a revocation
-- (examples/player-local-runtime/key-lifecycle-ledger.ts).
pub mod Events
pub mod ImageCheck
pub mod Plan
pub mod Verdicts
mod Tests
