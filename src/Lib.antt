-- ===== src/Lib.antt =====
-- Verification of converge_audit, an audit runtime for games: players keep signed evidence of what
-- they did, authorities sign verdicts over it, and every peer can check them again. The parts that
-- are modelled decide whether a signature, a digest or a stored queue is accepted.
--
-- Prelude: what the parts share. Text is the list of its UTF-16 code units (Prelude/Text);
--   Prelude/Json is `JSON.stringify` of nested arrays of strings, whole numbers and null, with its
--   escapes, with its lemmas in Prelude/Json/Injective. Prelude/Results
--   has refusals with a reason, and `refuse_if` for the guard clauses of the source.
-- KeyLifecycle: examples/player-local-runtime/key-lifecycle.ts. Records is `validKeyRecord` and
--   `issuanceTimeRefusal`; History is `validateVerificationKeyHistory`,
--   `compileVerificationKeyHistory` and the compiled `lookup`; Statement is
--   `canonicalKeyBoundSignatureStatement`, `signKeyBoundStatement` and `verifyKeyBoundStatement`.
--   The other files of the tree are proofs about these.
-- KeyLedger: examples/player-local-runtime/key-lifecycle-ledger.ts. ImageCheck is
--   `lifecycleImageValid`, Plan is `planVerificationKeyLifecycleMutation`, Events the canonical
--   event. Its records are those of KeyLifecycle, whose validation it calls.
-- PayloadQueue: examples/cf-game-audit/web/src/audit/bounded-payload-queue.ts, with the gates of
--   examples/player-local-runtime/payload-budget.ts and src/audit/payload_budget.mbt (Budget). The
--   state is the metadata and the stored chunks, in the order of their keys; Store has `append`,
--   `readBatch` and `prune`, Reopen has `configureAndValidate`.
-- PayloadPool: examples/cf-game-audit/web/src/audit/payload-pool.ts, queues that share one budget and
--   may reserve room in it. Scopes is the state, Store has `openScope`, `reserve` and `append`,
--   Removal `remove`, `releaseEmpty` and `removeClosed`; Accounts is the invariant, Kept,
--   Transactions and Operations prove it, for all sequences of transactions in Reached.
-- InventoryRanges: examples/cf-game-audit/game/encounter/inventory-ranges.ts, the rows of one unit
--   and owner. Runs is the set of ordinals that they stand for, Refines the effect of `add` on it.
-- Ownership: examples/cf-game-audit/game/authority/owner-authentication.ts (Proofs) and
--   asset-ownership.ts beside it (Heads). The chain of heads that accepted transfers reach is a
--   relation, in Chain.
-- DigestPlans: examples/player-local-runtime/digest-verification-plan.ts (Flat),
--   dependent-digest-verification-plan.ts (Dependent) and merkle-digest.ts (Merkle).
-- GameItems: examples/cf-game-audit/game/contracts.ts (State) and, of kernel.ts beside it,
--   `applyItemVerification` and `listingEligibility` (Receipts). Coordinates and hit points are a ℤ.
--   A receipt carries the version and the identity of the owner head that Ownership computes.
-- GameKernel: `createInitialGame` and `advanceGame` of examples/cf-game-audit/game/kernel.ts with the
--   rules of content.ts beside it: Drops, Moves and Step are the code, Replay is the loop that
--   settles an encounter. Positions are ℤ; `localeCompare` is an argument.
-- Encounter: examples/cf-game-audit/game/encounter/. Records is contracts.ts, Wire and Verify are
--   wire.ts, Issue, Attempts, Settlement and Closing are the operations of authority.ts, each as one
--   round on the row that it has read. World is what is stored over time: a round reads a row at one
--   time and writes at a later one, if the revision is still the one that was read, as ledger.ts has
--   it; any rounds may interleave between. Sound is the invariant, Shapes, Preserved and History
--   prove it, Guarantees draws from it. Closing also has what generation-store.ts asks of a row that it
--   seals, when it deletes it and what it keeps of it, and `release` of recovery-store.ts; Origins and Sealing are about the row
--   after that.
--
-- Choices. A number that the source requires to be a safe or bounded integer that is not negative
-- is a ℕ; the upper bounds are checked as the source checks them, and values that are no such
-- numbers, or of another type, are outside the model. Digests, signers, verifiers and framings are
-- supplied by the platform, and are arguments. An `Async` variant awaits the same steps and is
-- modelled by the same definition. A `throw` is `none` or a refusal. `Map` and `Set` are lists in
-- the order of insertion. A transaction of IndexedDB is atomic, so an operation on the queue is one
-- function on its state; `pending` is the number of appends under way.
--
-- Bounds and fuel. `decimal` divides by ten on fuel of the number and one more, which exceeds the
-- number of digits. The levels of a Merkle tree are reduced on fuel of the number of payloads, and
-- every level with two or more entries has a shorter one above it. All other recursion follows a
-- list.
--
-- Not modelled: decoding of JSON of unknown shape, the persistence of IndexedDB and SQLite, the
-- HTTP worker, cryptography, the MoonBit engine and its bridge, the game's journal, and evidence
-- resolution. Of the pool: the check of stored data when it is opened. Of encounters:
-- `decodeEncounterLog`, which is an argument; the JSON of a final state;
-- the grants that only read a row (`pruneGrant`, `archiveHandoff`, `archiveRelease`); the signature
-- of an archive's custody, so that any custody may arrive; the check of the termination in a recovery
-- proof; and of the sealing of a generation its statement and the guards over the other rows of the unit.
-- The life of an encounter ends where its row is deleted.
pub mod DigestPlans
pub mod Encounter
pub mod GameItems
pub mod GameKernel
pub mod InventoryRanges
pub mod KeyLedger
pub mod KeyLifecycle
pub mod Ownership
pub mod PayloadPool
pub mod PayloadQueue
pub mod Prelude
