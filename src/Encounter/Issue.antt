-- ===== src/Encounter/Issue.antt =====
-- Issuing a ticket (examples/cf-game-audit/game/encounter/authority.ts). The row that the ledger
-- already has for the start, the identifier, the secret and the clock are arguments.
use converge_audit.Prelude.{
  ℕ, ◌+◌, false, not, ◌&&◌, ◌||◌, Option, none, some, [], ◌∷◌, ◌==◌, Result, ok, ◌>>◌, refuse_if,
}
use converge_audit.Prelude.Text.{Text, codes, text_eq, bounded_text}
use converge_audit.Prelude.Json.{str}
use converge_audit.Encounter.Records.{EncounterAuthorization, EncounterTicket, issued, LedgerRow}
use converge_audit.Encounter.Wire.{
  is_digest, is_time, frame, encounter_start_key, encounter_queue_id, ticket_frame,
}
use converge_audit.Encounter.Attempts.{
  Authority, EncounterRefusal, invalid_clock, start_generation_unavailable,
  invalid_start_authorization, start_consumed, Attempt, keep, write, or_zero, clock,
}

-- What the host reads or draws while a ticket is issued: the generation of the unit at three times.
pub record IssueContext : Type 0 where
  pub at_start : ℕ
  pub after_key : ℕ
  pub before_insert : ℕ
  pub ticket_id : Text
  pub secret : Text
  pub now : ℕ

module _ (authority : Authority) where
  abbrev pub unsigned_ticket : EncounterAuthorization → IssueContext → EncounterTicket
  unsigned_ticket a x = record {
    authorization = a;
    ticket_id = x.ticket_id;
    authority_key = authority.public_key;
    rules_id = codes "reference-game-encounter-v1";
    queue_id = encounter_queue_id authority.hash_string a.unit a.start_head (or_zero a.generation);
    seed_commitment =
        authority.hash_string
          (frame (codes "encounter-seed-commitment-v1") (str x.ticket_id ∷ str x.secret ∷ []));
    issued_at = x.now;
    commit_not_before = x.now + 3000;
    release_at = x.now + 3000 + 1000;
    ticket_signature = [];
  }

  abbrev pub signed_ticket : EncounterAuthorization → IssueContext → EncounterTicket
  signed_ticket a x =
      let unsigned = unsigned_ticket a x in
      record unsigned {
        ticket_signature = authority.sign_digest (authority.hash_string (ticket_frame unsigned));
      }

  abbrev pub issued_row : EncounterAuthorization → IssueContext → LedgerRow
  issued_row a x = record {
    revision = 0;
    start_key =
        encounter_start_key authority.hash_string a.unit a.start_head (or_zero a.generation);
    ticket = signed_ticket a x;
    secret = x.secret;
    phase = issued;
    commitment = none;
    committed_at = none;
    reveal = none;
    receipt = none;
    termination = none;
    evidence_hold = false;
    retention_released = false;
    admitted_assets = [];
    archive_custody = none;
    recovery_released = false;
  }

  abbrev pub issue_new :
      EncounterAuthorization → IssueContext → Result EncounterRefusal (Attempt EncounterTicket)
  issue_new a x = do
    clock authority x.now
    refuse_if (not (is_time (x.now + 3000 + 1000))) invalid_clock
    refuse_if (not (or_zero a.generation == x.before_insert)) start_generation_unavailable
    ok (write (issued_row a x) (signed_ticket a x))

  unfoldable pub issue_attempt :
      EncounterAuthorization
      → Option LedgerRow
      → IssueContext
      → Result EncounterRefusal (Attempt EncounterTicket)
  issue_attempt a existing x = do
    refuse_if (not (is_time (or_zero a.generation)) || not (or_zero a.generation == x.at_start))
        start_generation_unavailable
    refuse_if
        (not (
            bounded_text a.unit 128
            && bounded_text a.start_head 128
            && bounded_text a.player_id 128)
          || not (is_digest a.owner_public_key))
        invalid_start_authorization
    refuse_if (not (or_zero a.generation == x.after_key)) start_generation_unavailable
    elim existing [
      | none ↦ issue_new a x
      | some row ↦ do
        refuse_if
            (not (text_eq row.ticket.authority_key authority.public_key)
              || not (text_eq row.ticket.player_id a.player_id)
              || not (text_eq row.ticket.owner_public_key a.owner_public_key))
            start_consumed
        ok (keep row.ticket)
    ]
