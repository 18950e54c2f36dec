-- ===== src/Encounter/Verified.antt =====
-- What the authority signs, the client's checks accept
-- (examples/cf-game-audit/game/encounter/authority.ts and wire.ts).
use converge_audit.Prelude.{
  ℕ, ◌≤◌, ◌≡◌, refl, sym, subst, inl, inr, true, none, some, List, [], ◌∷◌, arith, Option-cases,
  Result, ok, err, length, take,
}
use converge_audit.Prelude.Text.{Text, codes, bounded_text, text_eq_refl}
use converge_audit.Prelude.Json.{str, num}
use converge_audit.PayloadQueue.Store.{Chunk}
use converge_audit.GameItems.State.{GameState}
use converge_audit.GameKernel.Step.{AdvanceRefusal, create_initial_game}
use converge_audit.GameKernel.Replay.{replay, replay-Fair}
use converge_audit.GameKernel.Census.{length-map}
use converge_audit.Encounter.Records.{
  EncounterAuthorization, EncounterTicket, EncounterCommit, EncounterReceipt, EncounterTermination,
  TerminationReason, LedgerRow,
}
use converge_audit.Encounter.Wire.{
  termination_frame, receipt_frame, frame, is_digest, ticket_frame, encounter_queue_id,
  encounter_start_key,
}
use converge_audit.Encounter.Attempts.{Authority, write, or_zero}
use converge_audit.Encounter.Closing.{
  signed_termination, termination_statement, terminate_attempt, termination_allowed,
}
use converge_audit.Encounter.Issue.{IssueContext, issue_attempt, unsigned_ticket, signed_ticket}
use converge_audit.Encounter.Settlement.{
  receipt_statement, encounter_item, or_replay_invalid, Platform, settle_receipt, final_state,
}
use converge_audit.Encounter.Shapes.{settle_receipt_shape}
use converge_audit.Encounter.Verify.{
  verify_encounter_ticket, verify_encounter_receipt, verify_encounter_termination,
}

-- What an authority's cryptography is for: digests are digests, and what it signs verifies.
pub record Signs (authority : Authority) : Type 0 where
  pub key_digest : is_digest authority.public_key ≡ true
  pub hash_digest : (t : Text) → is_digest (authority.hash_string t) ≡ true
  pub sign_verifies :
      (d : Text) → authority.verify authority.public_key d (authority.sign_digest d) ≡ true

queue_id_bounded :
    (authority : Authority) (unit head : Text) (g : ℕ)
    → Signs authority
    → bounded_text (encounter_queue_id authority.hash_string unit head g) 128 ≡ true
queue_id_bounded authority unit head g signs =
    let key = encounter_start_key authority.hash_string unit head g in
    let size : length key ≡ 64 = key_length unit head g in ground (arith, size)
  where
    key_length :
        (unit head : Text) (g : ℕ)
        → length (encounter_start_key authority.hash_string unit head g) ≡ 64
    key_length unit head g =
        unfold encounter_start_key in
        let plain =
          signs.hash_digest (frame (codes "encounter-start-v1") (str unit ∷ str head ∷ [])) in
        let numbered =
          signs.hash_digest
            (frame (codes "encounter-start-generation-v1") (str unit ∷ num g ∷ str head ∷ [])) in
        ground (arith, plain, numbered)

unsigned_frame :
    (authority : Authority) (a : EncounterAuthorization) (x : IssueContext)
    → ticket_frame (unsigned_ticket authority a x) ≡ ticket_frame (signed_ticket authority a x)
unfolding ticket_frame
unsigned_frame authority a x = refl

-- The ticket that is issued, for an identifier of at most 128 characters, passes the client's check,
-- if the authority's digests and signatures do what they are for.
pub issue_verifies :
    (authority : Authority) (a : EncounterAuthorization) (x : IssueContext) (first : LedgerRow)
    (ticket : EncounterTicket)
    → Signs authority
    → bounded_text x.ticket_id 128 ≡ true
    → issue_attempt authority a none x ≡ ok (write first ticket)
    → (verify_encounter_ticket authority.hash_string authority.verify ticket authority.public_key
        ≡ true)
      × (first.ticket ≡ ticket)
unfolding issue_attempt verify_encounter_ticket
issue_verifies authority a x first ticket signs id h =
    let sig =
      signs.sign_verifies (authority.hash_string (ticket_frame (signed_ticket authority a x))) in
    let seed =
      signs.hash_digest
        (frame (codes "encounter-seed-commitment-v1") (str x.ticket_id ∷ str x.secret ∷ [])) in
    let queue = queue_id_bounded authority a.unit a.start_head (or_zero a.generation) signs in
    let same_rules = text_eq_refl (codes "reference-game-encounter-v1") in
    let same_key = text_eq_refl authority.public_key in
    let same_queue =
      text_eq_refl
        (encounter_queue_id authority.hash_string a.unit a.start_head (or_zero a.generation)) in
    let sent = unsigned_frame authority a x in
    let made : signed_ticket authority a x ≡ ticket = ground arith in
    (
      subst
          (λ t.
            verify_encounter_ticket authority.hash_string authority.verify t authority.public_key
            ≡ true)
          made
          (ground
            (arith, sig, sent, seed, queue, signs.key_digest, same_rules, same_key, same_queue)),
      ground arith,
    )

-- A termination that is written, for a ticket that passes the client's check and a root that is a
-- digest where there is one, passes the client's check: an expiry names no root and comes after the
-- release.
pub terminate_verifies :
    (authority : Authority) (row new : LedgerRow) (reason : TerminationReason) (now : ℕ)
    (t : EncounterTermination)
    → Signs authority
    → verify_encounter_ticket authority.hash_string authority.verify row.ticket authority.public_key
      ≡ true
    → ((c : EncounterCommit) → row.commitment ≡ some c → is_digest c.root ≡ true)
    → terminate_attempt authority reason now row ≡ ok (write new t)
    → verify_encounter_termination authority.hash_string authority.verify row.ticket t
        authority.public_key
      ≡ true
unfolding terminate_attempt termination_allowed verify_encounter_termination
terminate_verifies authority row new reason now t signs ticket root h =
    elim (Option-cases row.termination) [
      | inr (k, e) ↦ absurd (ground (arith, e))
      | inl e ↦
          let made : signed_termination authority (termination_statement authority reason now row)
              ≡ t =
            ground (arith, e) in
          let s = termination_statement authority reason now row in
          let sig = signs.sign_verifies (authority.hash_string (termination_frame s)) in
          subst
            (λ k.
              verify_encounter_termination authority.hash_string authority.verify row.ticket k
                authority.public_key
              ≡ true)
            made
            (elim (Option-cases row.commitment) [
              | inl f ↦ ground (
                arith,
                h,
                e,
                f,
                ticket,
                sig,
                text_eq_refl authority.public_key,
                text_eq_refl row.ticket.ticket_id,
                text_eq_refl row.ticket.unit,
                text_eq_refl row.ticket.start_head,
                text_eq_refl row.ticket.player_id,
                text_eq_refl row.ticket.owner_public_key,
                text_eq_refl row.ticket.queue_id,
                text_eq_refl row.ticket.rules_id,
                text_eq_refl (authority.hash_string (termination_frame s)),
              )
              | inr (c, f) ↦ ground (
                arith,
                h,
                e,
                f,
                ticket,
                sig,
                root c f,
                text_eq_refl authority.public_key,
                text_eq_refl row.ticket.ticket_id,
                text_eq_refl row.ticket.unit,
                text_eq_refl row.ticket.start_head,
                text_eq_refl row.ticket.player_id,
                text_eq_refl row.ticket.owner_public_key,
                text_eq_refl row.ticket.queue_id,
                text_eq_refl row.ticket.rules_id,
                text_eq_refl (authority.hash_string (termination_frame s)),
              )
            ])
    ]

replayed :
    (o : Result AdvanceRefusal GameState) (state : GameState)
    → or_replay_invalid o ≡ ok state
    → o ≡ ok state
replayed (err reason) state h = absurd (ground (arith, h))
replayed (ok s) state h = ground (arith, h)

-- The final state of a replay has at most one item.
final_state_items :
    (authority : Authority) (platform : Platform) (row : LedgerRow) (c : EncounterCommit)
    (chunks : List Chunk) (state : GameState)
    → final_state authority platform row c chunks ≡ ok state
    → length state.inventory ≤ 1
unfolding final_state
final_state_items authority platform row c chunks state h =
    elim (Option-cases (platform.decode_log row.ticket c chunks)) [
      | inl e ↦ absurd (ground (arith, e))
      | inr (inputs, e) ↦
          let seed = platform.parse_hex (
            take 8 (
              authority.hash_string (
                frame (codes "encounter-game-seed-v1")
                  (str row.ticket.ticket_id ∷ str row.secret ∷ [])))) in
          elim (Option-cases (create_initial_game seed row.ticket.player_id)) [
            | inl f ↦ absurd (ground (arith, e, f))
            | inr (start, f) ↦
                let (tick, inside, all_few, few) =
                  replay-Fair platform.locale_compare seed row.ticket.player_id inputs start state f
                    (replayed (replay platform.locale_compare inputs start) state
                      (ground (arith, h, e, f))) in
                few
          ]
    ]

-- A receipt that is settled from a committed root that is a digest, for an owner whose key is a
-- digest, passes the client's check; in particular it has at most one item.
pub settle_verifies :
    (authority : Authority) (platform : Platform) (row : LedgerRow) (chunks : List Chunk) (now : ℕ)
    (receipt : EncounterReceipt)
    → Signs authority
    → is_digest row.ticket.owner_public_key ≡ true
    → ((c : EncounterCommit) → row.commitment ≡ some c → is_digest c.root ≡ true)
    → settle_receipt authority platform chunks now row ≡ ok receipt
    → verify_encounter_receipt authority.hash_string authority.verify receipt authority.public_key
      ≡ true
unfolding verify_encounter_receipt
settle_verifies authority platform row chunks now receipt signs owner root h =
    let (r, c, state, q, f, final, le, time, made) =
      settle_receipt_shape authority platform row chunks now receipt h in
    let s = receipt_statement authority platform row c state now in
    let few = final_state_items authority platform row c chunks state final in
    let items = length-map (encounter_item row.ticket.ticket_id) state.inventory in
    subst
      (λ k.
        verify_encounter_receipt authority.hash_string authority.verify k authority.public_key
        ≡ true)
      (sym made)
      (ground (
        arith,
        time,
        owner,
        root c f,
        few,
        items,
        signs.key_digest,
        text_eq_refl authority.public_key,
        text_eq_refl (codes "reference-game-encounter-v1"),
        text_eq_refl (authority.hash_string (receipt_frame s)),
        signs.sign_verifies (authority.hash_string (receipt_frame s)),
        signs.hash_digest (platform.final_state_frame row.ticket.ticket_id state),
      ))
