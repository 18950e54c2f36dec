-- ===== src/KeyLifecycle.antt =====
-- Versioned verification keys and key-bound signatures
-- (examples/player-local-runtime/key-lifecycle.ts).
pub mod Records
pub mod History
pub mod Statement
mod Tests
