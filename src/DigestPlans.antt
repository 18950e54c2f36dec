-- ===== src/DigestPlans.antt =====
-- Plans of digests that a platform's hash checks (examples/player-local-runtime/), and the Merkle
-- tree built with it (examples/player-local-runtime/merkle-digest.ts).
pub mod Flat
pub mod Dependent
pub mod Consistency
pub mod Merkle
pub mod MerkleBinding
mod Tests
