-- ===== src/Encounter/Verify.antt =====
-- What a client checks of the ticket, the receipt and the termination that it is given
-- (examples/cf-game-audit/game/encounter/wire.ts).
use converge_audit.Prelude.{
  ◌+◌, Bool, true, false, not, ◌&&◌, ◌||◌, Option, none, some, length, leb, ◌==◌,
}
use converge_audit.Prelude.Text.{Text, codes, text_eq, bounded_text}
use converge_audit.Encounter.Records.{EncounterTicket, EncounterReceipt, EncounterTermination}
use converge_audit.Encounter.Wire.{
  is_digest, is_time, encounter_queue_id, ticket_frame, receipt_frame, termination_frame,
}
use converge_audit.Encounter.Attempts.{or_zero, is_expired}

abbrev pub is_none {ℓ} : {A : Type ℓ} → Option A → Bool
is_none none = true
is_none (some a) = false

abbrev pub digest_or_null : Option Text → Bool
digest_or_null none = true
digest_or_null (some t) = is_digest t

module _ (hash_string : Text → Text) (verify : Text → Text → Text → Bool) where
  unfoldable pub verify_encounter_ticket : EncounterTicket → Text → Bool
  verify_encounter_ticket t trusted_key =
      text_eq t.rules_id (codes "reference-game-encounter-v1")
      && text_eq t.authority_key trusted_key
      && is_digest trusted_key
      && is_digest t.owner_public_key
      && is_digest t.seed_commitment
      && is_time (or_zero t.generation)
      && bounded_text t.ticket_id 128
      && bounded_text t.unit 128
      && bounded_text t.start_head 128
      && bounded_text t.player_id 128
      && bounded_text t.queue_id 128
      && is_time t.issued_at
      && is_time t.commit_not_before
      && is_time t.release_at
      && t.commit_not_before == t.issued_at + 3000
      && t.release_at == t.commit_not_before + 1000
      && text_eq t.queue_id
          (encounter_queue_id hash_string t.unit t.start_head (or_zero t.generation))
      && verify trusted_key (hash_string (ticket_frame t)) t.ticket_signature

  unfoldable pub verify_encounter_receipt : EncounterReceipt → Text → Bool
  verify_encounter_receipt receipt trusted_key =
      let s = receipt.statement in
      text_eq s.authority_key trusted_key
      && is_digest trusted_key
      && text_eq s.rules_id (codes "reference-game-encounter-v1")
      && is_digest s.root
      && is_digest s.final_state_digest
      && is_digest s.owner_public_key
      && is_time s.settled_at
      && is_time s.retention_until
      && leb s.settled_at s.retention_until
      && leb (length s.items) 1
      && text_eq receipt.receipt_id (hash_string (receipt_frame s))
      && verify trusted_key (hash_string (receipt_frame s)) receipt.signature

  unfoldable pub verify_encounter_termination : EncounterTicket → EncounterTermination → Text → Bool
  verify_encounter_termination t termination trusted_key =
      let s = termination.statement in
      verify_encounter_ticket t trusted_key
      && text_eq s.authority_key trusted_key
      && is_time s.terminated_at
      && is_time s.retention_until
      && leb t.issued_at s.terminated_at
      && leb s.terminated_at s.retention_until
      && digest_or_null s.root
      && (not (is_expired s.reason) || is_none s.root && leb t.release_at s.terminated_at)
      && text_eq s.ticket_id t.ticket_id
      && text_eq s.unit t.unit
      && text_eq s.start_head t.start_head
      && text_eq s.player_id t.player_id
      && text_eq s.owner_public_key t.owner_public_key
      && text_eq s.queue_id t.queue_id
      && text_eq s.rules_id t.rules_id
      && text_eq termination.termination_id (hash_string (termination_frame s))
      && verify trusted_key (hash_string (termination_frame s)) termination.signature
