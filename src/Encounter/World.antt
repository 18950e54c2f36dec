-- ===== src/Encounter/World.antt =====
-- What is stored of one encounter, and how it changes until its generation is sealed and after that
-- (examples/cf-game-audit/game/encounter/authority.ts, ledger.ts, generation-store.ts and
-- recovery-store.ts). A round reads a row at one time and writes at a later one, after the awaits
-- between; the write is made if the stored row still has the revision that was read. Cases are
-- opened by the host together with a fence.
use converge_audit.Prelude.{
  ◌++◌, ℕ, ◌+◌, ◌≤◌, ◌≡◌, Bool, true, false, Option, List, [], ◌∷◌, Memᴰ, ok,
}
use converge_audit.Prelude.Text.{Text, max_safe_integer}
use converge_audit.PayloadQueue.Store.{Chunk}
use converge_audit.Encounter.Records.{
  EncounterTicket, EncounterCommit, EncounterReveal, EncounterReceipt, EncounterListing,
  EncounterTermination, TerminationReason, ArchiveCustody, LedgerRow,
}
use converge_audit.Encounter.Attempts.{
  Authority, Snapshot, write, commit_checked, commit_attempt, reveal_attempt, admit_checked,
  admit_attempt, hold_attempt, fence_attempt, forfeit_attempt,
}
use converge_audit.Encounter.Closing.{
  terminate_attempt, closure_attempt, ClosureGrant, retire_attempt, custody_attempt, stays,
  relinquish_attempt, closed, forgets, origin,
}
use converge_audit.Encounter.Settlement.{Platform, settle_receipt, settle_attempt}

-- `{ ...row, revision: row.revision + 1 }`
abbrev pub next_revision : LedgerRow → LedgerRow
next_revision row = record row { revision = row.revision + 1 }

module _ (authority : Authority) (platform : Platform) where
  -- The rounds that end with a write, by the snapshots that they read: `past` holds all of them.
  pub data Writes (past : List Snapshot) : Snapshot → LedgerRow → Type 0 where
    commits :
        {s i : Snapshot} {new : LedgerRow} {out : Text × Option ℕ} (c : EncounterCommit) (now : ℕ)
        → Memᴰ i past
        → commit_checked authority c i.row ≡ ok tt
        → commit_attempt authority c now s.row ≡ ok (write new out)
        → Writes past s new
    reveals :
        {s : Snapshot} {new : LedgerRow} {out : EncounterReveal} (now : ℕ)
        → reveal_attempt authority now s.row ≡ ok (write new out)
        → Writes past s new
    settles :
        {s i : Snapshot} {new : LedgerRow} {receipt out : EncounterReceipt} (chunks : List Chunk)
        (now : ℕ)
        → Memᴰ i past
        → settle_receipt authority platform chunks now i.row ≡ ok receipt
        → settle_attempt authority receipt s.row ≡ ok (write new out)
        → Writes past s new
    admits :
        {s i : Snapshot} {new : LedgerRow} {out : Text} (l : EncounterListing)
        → Memᴰ i past
        → admit_checked authority l i ≡ ok tt
        → admit_attempt authority l s ≡ ok (write new out)
        → Writes past s new
    holds :
        {s : Snapshot} {new : LedgerRow} (hold : Bool)
        → hold_attempt authority hold s.row ≡ ok (write new tt)
        → Writes past s new
    forfeits :
        {s : Snapshot} {new : LedgerRow}
        → forfeit_attempt authority s.row ≡ ok (write new tt)
        → Writes past s new
    terminates :
        {s : Snapshot} {new : LedgerRow} {out : EncounterTermination} (reason : TerminationReason)
        (now : ℕ)
        → terminate_attempt authority reason now s.row ≡ ok (write new out)
        → Writes past s new
    closes :
        {s : Snapshot} {new : LedgerRow} {out : ClosureGrant} (expected next now : ℕ)
        → closure_attempt authority expected next now s ≡ ok (write new out)
        → Writes past s new
    retires :
        {s : Snapshot} {new : LedgerRow} {out : LedgerRow} (now : ℕ)
        → retire_attempt authority now s ≡ ok (write new out)
        → Writes past s new
    archives :
        {s : Snapshot} {new : LedgerRow} (a : ArchiveCustody)
        → custody_attempt authority a s.row ≡ ok (write new tt)
        → Writes past s new
    relinquishes :
        {s : Snapshot} {new : LedgerRow} (ticket : EncounterTicket)
        (termination : EncounterTermination) (generation now : ℕ) (members : Bool)
        → relinquish_attempt ticket termination generation now members s ≡ ok (stays (write new tt))
        → Writes past s new

  -- From what is stored now to what is stored next. A round reads one of `reads` before it writes;
  -- its checks before may have read any of `past`.
  pub data Moves (reads past : List Snapshot) (current : Snapshot) : Snapshot → Type 0 where
    writes :
        {s next : Snapshot} {new : LedgerRow}
        → Memᴰ s reads
        → Writes past s new
        → s.row.revision ≡ current.row.revision
        → s.row.revision + 1 ≤ max_safe_integer
        → next ≡ record { row = next_revision new; cases = current.cases }
        → Moves reads past current next
    opens_case :
        {next : Snapshot} {new : LedgerRow}
        → fence_attempt authority current.row ≡ ok (write new tt)
        → current.row.revision + 1 ≤ max_safe_integer
        → next ≡ record { row = next_revision new; cases = true }
        → Moves reads past current next
    closes_cases :
        {next : Snapshot}
        → next ≡ record { row = current.row; cases = false }
        → Moves reads past current next

  -- The snapshots of an encounter until its generation is sealed, the current one first.
  pub data Lives (first : LedgerRow) : List Snapshot → Type 0 where
    issues : Lives first (record { row = first; cases = false } ∷ [])
    moves :
        {current next : Snapshot} {past : List Snapshot}
        → Lives first (current ∷ past)
        → Moves (current ∷ past) (current ∷ past) current next
        → Lives first (next ∷ current ∷ past)

  abbrev pub sealed : Snapshot → Snapshot
  sealed s = record { row = origin s.row; cases = s.cases }

  -- The whole life of an encounter while it has a row: the current snapshot, those since its
  -- generation was sealed, and those before. Where sealing deletes the row, or its owner
  -- gives it up in a later generation, nothing more is stored. Of the rounds that await between a read and a write
  -- none writes a row that sealing admits, so that no round reads it before and writes after.
  pub data Lasts (first : LedgerRow) : Snapshot → List Snapshot → List Snapshot → Type 0 where
    unsealed :
        {current : Snapshot} {past : List Snapshot}
        → Lives first (current ∷ past)
        → Lasts first current [] (current ∷ past)
    seals :
        {current : Snapshot} {before : List Snapshot}
        → Lasts first current [] before
        → closed current ≡ true
        → (members : Bool) → forgets members current ≡ false
        → Lasts first (sealed current) (sealed current ∷ []) before
    lasts :
        {current next : Snapshot} {since before : List Snapshot}
        → Lasts first current (current ∷ since) before
        → Moves (current ∷ since) (current ∷ since ++ before) current next
        → Lasts first next (next ∷ current ∷ since) before
