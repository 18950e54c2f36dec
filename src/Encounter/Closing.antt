-- ===== src/Encounter/Closing.antt =====
-- Terminating an encounter, closing its retention, archiving it, sealing it and giving it up: one
-- round of each (examples/cf-game-audit/game/encounter/authority.ts, generation-store.ts,
-- recovery-store.ts, termination-policy.ts beside it and
-- src/x/game_audit/audit/encounter_termination.mbt).
use converge_audit.Prelude.{
  ◌==◌, length, ℕ, ◌+◌, Bool, true, false, not, ◌&&◌, ◌||◌, Option, none, some, [], ◌∷◌, ltb, leb,
  if◌then◌else◌, Result, ok, err, ◌>>=◌, ◌>>◌, refuse_if,
}
use converge_audit.Prelude.Text.{Text, codes, text_eq}
use converge_audit.Encounter.Records.{
  EncounterTicket, EncounterCommit, TerminationReason, abandoned, EncounterTerminationStatement,
  EncounterTermination, ArchiveCustody, forfeited, LedgerRow,
}
use converge_audit.Encounter.Wire.{
  ticket_frame, is_digest, is_time, termination_frame, frame, digests_json,
}
use converge_audit.Prelude.Json.{str, num, stringify}
use converge_audit.Encounter.Attempts.{
  recovery_origin_changed, recovery_refused, is_settled, Authority, EncounterRefusal, invalid_clock,
  settled_cannot_terminate, expiry_not_allowed, termination_certificate_required,
  cleanup_not_allowed, retention_still_open, evidence_hold_open, custody_binding_mismatch,
  custody_changed, Attempt, keep, write, Snapshot, is_forfeited, is_settled, is_issued, is_some,
  held, or_zero, is_expired, known, clock,
}

-- `terminationAllowed` and `terminalCleanupAllowed`, with the engine's guards.
unfoldable pub termination_allowed : Bool → Bool → Bool → Bool → ℕ → ℕ → Bool
termination_allowed is_settled already_terminated expiry has_commitment now deadline =
    is_time now
    && is_time deadline
    && not is_settled
    && (already_terminated || not expiry || not has_commitment && leb deadline now)

unfoldable pub terminal_cleanup_allowed : Bool → ℕ → ℕ → Bool → Bool
terminal_cleanup_allowed terminated now retention_until is_held =
    is_time now && is_time retention_until && terminated && leb retention_until now && not is_held

pub record ClosureGrant : Type 0 where
  pub queue_id : Text
  pub expected_revision : ℕ
  pub next_sequence : ℕ
  pub closure_id : Text
  pub authorization : Text

abbrev pub scope_closure_frame : ClosureGrant → Text
scope_closure_frame g =
    frame (codes "encounter-terminal-closure-v1")
      (str g.queue_id ∷ num g.expected_revision ∷ num g.next_sequence ∷ str g.closure_id ∷ [])

abbrev pub latest : LedgerRow → ℕ
latest row = elim (row.reveal) [
  | none ↦ or_zero row.committed_at
  | some r ↦
      if ltb (or_zero row.committed_at) r.released_at
      then r.released_at
      else or_zero row.committed_at
]

abbrev root_of : Option EncounterCommit → Option Text
root_of none = none
root_of (some c) = some c.root

module _ (authority : Authority) where
  abbrev pub termination_statement :
      TerminationReason → ℕ → LedgerRow → EncounterTerminationStatement
  termination_statement reason now row = record {
    authority_key = authority.public_key;
    ticket_id = row.ticket.ticket_id;
    unit = row.ticket.unit;
    start_head = row.ticket.start_head;
    player_id = row.ticket.player_id;
    owner_public_key = row.ticket.owner_public_key;
    queue_id = row.ticket.queue_id;
    rules_id = row.ticket.rules_id;
    root = root_of row.commitment;
    reason = if is_forfeited row.phase then abandoned else reason;
    terminated_at = now;
    retention_until = now + authority.retention_ms;
  }

  abbrev pub signed_termination : EncounterTerminationStatement → EncounterTermination
  signed_termination statement =
      let id = authority.hash_string (termination_frame statement) in
      record { statement = statement; termination_id = id; signature = authority.sign_digest id }

  abbrev pub terminate_new :
      TerminationReason → ℕ → LedgerRow → Result EncounterRefusal (Attempt EncounterTermination)
  terminate_new reason now row = do
    clock authority now
    refuse_if (ltb now row.ticket.issued_at || ltb now (latest row)) invalid_clock
    refuse_if
        (not (
          termination_allowed false (is_forfeited row.phase) (is_expired reason)
            (not (is_issued row.phase) || is_some row.commitment) now row.ticket.release_at))
        expiry_not_allowed
    refuse_if (not (is_time (now + authority.retention_ms))) invalid_clock
    let termination = signed_termination (termination_statement reason now row)
    ok (write (record row { phase = forfeited; termination = some termination }) termination)

  unfoldable pub terminate_attempt :
      TerminationReason → ℕ → LedgerRow → Result EncounterRefusal (Attempt EncounterTermination)
  terminate_attempt reason now row = do
    known authority row
    refuse_if (is_some row.receipt || is_settled row.phase) settled_cannot_terminate
    elim (row.termination) [ some t ↦ ok (keep t) | none ↦ terminate_new reason now row ]

  abbrev pub release : LedgerRow → LedgerRow
  release row = record row { retention_released = true }

  abbrev pub closure_grant : LedgerRow → ℕ → ℕ → EncounterTermination → ClosureGrant
  closure_grant row expected_revision next_sequence termination =
      let unsigned : ClosureGrant = record {
        queue_id = row.ticket.queue_id;
        expected_revision = expected_revision;
        next_sequence = next_sequence;
        closure_id = termination.termination_id;
        authorization = [];
      } in
      record unsigned {
        authorization =
            authority.sign_digest (authority.hash_string (scope_closure_frame unsigned));
      }

  unfoldable pub closure_attempt :
      ℕ → ℕ → ℕ → Snapshot → Result EncounterRefusal (Attempt ClosureGrant)
  closure_attempt expected_revision next_sequence now s = do
    refuse_if
        (not (is_time expected_revision) || not (is_time next_sequence) || ltb 2 next_sequence)
        cleanup_not_allowed
    known authority s.row
    refuse_if (not (is_forfeited s.row.phase) || is_some s.row.receipt)
        termination_certificate_required
    termination ← elim (s.row.termination) [
      | none ↦ err termination_certificate_required
      | some t ↦ ok t
    ]
    clock authority now
    refuse_if
        (not (terminal_cleanup_allowed true now termination.statement.retention_until (held s)))
        cleanup_not_allowed
    let grant = closure_grant s.row expected_revision next_sequence termination
    ok (if s.row.retention_released then keep grant else write (release s.row) grant)

  -- `retireSettled`: closes retention before a right to delete is signed.
  unfoldable pub retire_attempt : ℕ → Snapshot → Result EncounterRefusal (Attempt LedgerRow)
  retire_attempt now s = do
    known authority s.row
    receipt ← elim (s.row.receipt) [ none ↦ err retention_still_open | some r ↦ ok r ]
    clock authority now
    refuse_if (ltb now receipt.statement.retention_until) retention_still_open
    refuse_if (held s) evidence_hold_open
    ok (if s.row.retention_released then keep s.row else write (release s.row) (release s.row))

  -- The rounds of `acceptArchive`, for a custody whose signature has been verified.
  unfoldable pub custody_attempt :
      ArchiveCustody → LedgerRow → Result EncounterRefusal (Attempt (Unit {0}))
  custody_attempt a row = do
    known authority row
    c ← elim (row.commitment) [ none ↦ err custody_binding_mismatch | some c ↦ ok c ]
    receipt ← elim (row.receipt) [ none ↦ err custody_binding_mismatch | some r ↦ ok r ]
    refuse_if
        (not (is_digest row.secret)
          || not (text_eq a.authority_key row.ticket.authority_key)
          || not (text_eq a.ticket_id row.ticket.ticket_id)
          || not (text_eq a.unit row.ticket.unit)
          || not (text_eq a.queue_id row.ticket.queue_id)
          || not (text_eq a.root c.root)
          || not (text_eq a.receipt_id receipt.receipt_id)
          || not (
              text_eq (stringify (digests_json a.chunk_digests))
                (stringify (digests_json c.chunk_digests)))
          || ltb a.min_retain_until receipt.statement.retention_until)
        custody_binding_mismatch
    elim (row.archive_custody) [
      | none ↦ ok (write (record row { archive_custody = some a }) tt)
      | some kept ↦ do
        refuse_if (not (text_eq kept.custody_id a.custody_id)) custody_changed
        ok (keep tt)
    ]

-- The answer to an owner who gives up recovery: the row stays, or it is deleted.
pub data Relinquished : Type 0 where
  stays : Attempt (Unit {0}) → Relinquished
  forgotten : Relinquished

abbrev pub without_assets : Bool → LedgerRow → Bool
without_assets members row =
    not (is_some row.receipt)
    && not (is_some row.archive_custody)
    && length row.admitted_assets == 0
    && not members

-- `encounter_recovery_release_allowed` and `encounter_recovery_forget_allowed`
abbrev pub recovery_release_allowed : Bool → Bool → Bool → Bool → Bool
recovery_release_allowed is_ended released clear no_assets =
    is_ended && released && clear && no_assets

abbrev pub recovery_forget_allowed : Bool → Bool → Bool → Bool → Bool → Bool → Bool
recovery_forget_allowed is_ended released clear no_assets owner_released old_generation =
    recovery_release_allowed is_ended released clear no_assets && owner_released && old_generation

-- `release` of the recovery store, for a proof whose termination has been verified; `members` is
-- whether the ticket is a member of an inventory.
unfoldable pub relinquish_attempt :
    EncounterTicket
    → EncounterTermination
    → ℕ
    → ℕ
    → Bool
    → Snapshot
    → Result EncounterRefusal Relinquished
relinquish_attempt ticket termination generation now members s = do
  refuse_if
      (not (is_time now)
        || ltb now termination.statement.retention_until
        || ltb generation (or_zero ticket.generation))
      retention_still_open
  refuse_if
      (not (text_eq (ticket_frame s.row.ticket) (ticket_frame ticket))
        || not (text_eq s.row.ticket.ticket_signature ticket.ticket_signature))
      recovery_origin_changed
  kept ← elim (s.row.termination) [ none ↦ err recovery_origin_changed | some t ↦ ok t ]
  refuse_if
      (not (text_eq kept.termination_id termination.termination_id)
        || not (text_eq kept.signature termination.signature))
      recovery_origin_changed
  refuse_if
      (not (
        recovery_release_allowed (is_forfeited s.row.phase) s.row.retention_released (not (held s))
          (without_assets members s.row)))
      recovery_refused
  ok (
      if recovery_forget_allowed true s.row.retention_released (not (held s))
        (without_assets members s.row) true (ltb (or_zero ticket.generation) generation)
      then forgotten
      else stays (
          if s.row.recovery_released
          then keep tt
          else write (record (s.row) { recovery_released = true }) tt))

-- `closed`, of a row of the generation that is sealed: what sealing asks of it.
unfoldable pub closed : Snapshot → Bool
closed s =
    s.row.retention_released
    && not (held s)
    && (is_settled s.row.phase && is_some s.row.receipt
        || is_forfeited s.row.phase && is_some s.row.termination)

-- Whether sealing deletes the row: its owner has given it up, and no inventory has it as a member.
unfoldable pub forgets : Bool → Snapshot → Bool
forgets members s =
    recovery_forget_allowed (is_forfeited s.row.phase) s.row.retention_released (not (held s))
      (without_assets (s.row.recovery_released && members) s.row) s.row.recovery_released true

-- What is kept of a row when its generation is sealed.
abbrev pub origin : LedgerRow → LedgerRow
origin row = record row { secret = []; reveal = none; archive_custody = none }
