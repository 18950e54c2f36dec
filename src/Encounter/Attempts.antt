-- ===== src/Encounter/Attempts.antt =====
-- One round of each operation on a row that it has read: what it refuses, what it answers without a
-- write, and what it writes (examples/cf-game-audit/game/encounter/authority.ts). The clock is an
-- argument; crypto is a part of the authority.
use converge_audit.Prelude.{
  ℕ, Bool, true, false, not, ◌||◌, Option, none, some, List, [], ◌∷◌, ◌++◌, all, any, length, ltb,
  leb, ◌==◌, if◌then◌else◌, Result, ok, err, ◌>>=◌, ◌>>◌, refuse_if,
}
use converge_audit.Prelude.Text.{Text, text_eq}
use converge_audit.Encounter.Records.{
  EncounterCommit, EncounterReveal, EncounterListing, TerminationReason, abandoned, expired,
  EncounterItem, Phase, issued, committed, revealed, settled, forfeited, LedgerRow,
}
use converge_audit.Encounter.Wire.{
  is_digest, is_time, log_root_frame, commit_frame, reveal_frame, listing_frame,
}

pub record Authority : Type 0 where
  pub public_key : Text
  pub sign_digest : Text → Text
  pub hash_string : Text → Text
  pub verify : Text → Text → Text → Bool
  pub retention_ms : ℕ
  pub trusted_archive_key : Option Text

pub data EncounterRefusal : Type 0 where
  unknown_ticket invalid_clock invalid_committed_root invalid_owner_signature : EncounterRefusal
  start_generation_unavailable invalid_start_authorization start_consumed : EncounterRefusal
  commit_forfeited committed_root_changed outside_commit_window : EncounterRefusal
  commit_required replay_evidence_retired before_release_time : EncounterRefusal
  reveal_required settlement_root_changed invalid_settlement : EncounterRefusal
  evidence_hold_open unverified_item invalid_listing_signature : EncounterRefusal
  retention_already_closed ticket_already_terminal settled_cannot_terminate : EncounterRefusal
  expiry_not_allowed termination_certificate_required cleanup_not_allowed : EncounterRefusal
  retention_still_open custody_binding_mismatch custody_changed : EncounterRefusal
  recovery_origin_changed recovery_refused : EncounterRefusal

-- An answer without a write, or a row to write and the answer if the write succeeds.
pub data Attempt (A : Type 0) : Type 0 where
  keep : A → Attempt A
  write : LedgerRow → A → Attempt A

-- A row, and whether cases are open against its ticket.
pub record Snapshot : Type 0 where
  pub row : LedgerRow
  pub cases : Bool

abbrev pub is_forfeited : Phase → Bool
is_forfeited issued = false
is_forfeited committed = false
is_forfeited revealed = false
is_forfeited settled = false
is_forfeited forfeited = true

abbrev pub is_settled : Phase → Bool
is_settled issued = false
is_settled committed = false
is_settled revealed = false
is_settled settled = true
is_settled forfeited = false

abbrev pub is_revealed : Phase → Bool
is_revealed issued = false
is_revealed committed = false
is_revealed revealed = true
is_revealed settled = false
is_revealed forfeited = false

abbrev pub is_issued : Phase → Bool
is_issued issued = true
is_issued committed = false
is_issued revealed = false
is_issued settled = false
is_issued forfeited = false

abbrev pub is_some {ℓ} : {A : Type ℓ} → Option A → Bool
is_some none = false
is_some (some a) = true

abbrev pub held : Snapshot → Bool
held s = s.row.evidence_hold || s.cases

-- `a >= b` where `a` may be undefined.
abbrev at_least : Option ℕ → ℕ → Bool
at_least none n = false
at_least (some m) n = leb n m

abbrev pub or_zero : Option ℕ → ℕ
or_zero none = 0
or_zero (some n) = n

abbrev pub is_expired : TerminationReason → Bool
is_expired abandoned = false
is_expired expired = true

abbrev pub has_item : Text → List EncounterItem → Bool
has_item asset items = any (λ (i : EncounterItem). text_eq i.asset_id asset) items

module _ (authority : Authority) where
  abbrev pub known : LedgerRow → Result EncounterRefusal (Unit {0})
  known row = refuse_if (not (text_eq row.ticket.authority_key authority.public_key)) unknown_ticket

  abbrev pub clock : ℕ → Result EncounterRefusal (Unit {0})
  clock now = refuse_if (not (is_time now)) invalid_clock

  -- The checks of `commit` before its loop, on the row read first.
  unfoldable pub commit_checked : EncounterCommit → LedgerRow → Result EncounterRefusal (Unit {0})
  commit_checked c initial = do
    known initial
    refuse_if
        (not (is_digest c.root)
          || not (length c.chunk_digests == 2)
          || not (all is_digest c.chunk_digests)
          || not (
              text_eq (authority.hash_string (log_root_frame initial.ticket c.chunk_digests))
                c.root))
        invalid_committed_root
    refuse_if
        (not (
          authority.verify initial.ticket.owner_public_key (authority.hash_string (commit_frame c))
            c.owner_signature))
        invalid_owner_signature
    ok tt

  abbrev pub commit_new :
      EncounterCommit → ℕ → LedgerRow → Result EncounterRefusal (Attempt (Text × Option ℕ))
  commit_new c now row = do
    clock now
    refuse_if (ltb now row.ticket.commit_not_before || leb row.ticket.release_at now)
        outside_commit_window
    ok (
        write (record row { phase = committed; commitment = some c; committed_at = some now })
          (c.root, some now))

  unfoldable pub commit_attempt :
      EncounterCommit → ℕ → LedgerRow → Result EncounterRefusal (Attempt (Text × Option ℕ))
  commit_attempt c now row = do
    known row
    refuse_if (is_forfeited row.phase) commit_forfeited
    elim (row.commitment) [
      | none ↦ commit_new c now row
      | some d ↦ do
        refuse_if (not (text_eq (commit_frame d) (commit_frame c))) committed_root_changed
        ok (keep (c.root, row.committed_at))
    ]

  abbrev pub signed_reveal : LedgerRow → EncounterCommit → ℕ → EncounterReveal
  signed_reveal row c now =
      let unsigned : EncounterReveal = record {
        ticket_id = row.ticket.ticket_id;
        root = c.root;
        seed = row.secret;
        committed_at = or_zero row.committed_at;
        released_at = now;
        signature = [];
      } in
      record unsigned {
        signature = authority.sign_digest (authority.hash_string (reveal_frame unsigned));
      }

  abbrev pub reveal_new :
      ℕ → LedgerRow → EncounterCommit → Result EncounterRefusal (Attempt EncounterReveal)
  reveal_new now row c = do
    refuse_if (not (is_digest row.secret)) replay_evidence_retired
    clock now
    refuse_if (at_least row.committed_at row.ticket.release_at || ltb now row.ticket.release_at)
        before_release_time
    ok (
        write (record row { phase = revealed; reveal = some (signed_reveal row c now) })
          (signed_reveal row c now))

  unfoldable pub reveal_attempt : ℕ → LedgerRow → Result EncounterRefusal (Attempt EncounterReveal)
  reveal_attempt now row = do
    known row
    refuse_if (is_forfeited row.phase) commit_required
    elim (row.commitment) [
      | none ↦ err commit_required
      | some c ↦ elim (row.reveal) [ some r ↦ ok (keep r) | none ↦ reveal_new now row c ]
    ]

  -- `admitToMarket` before its loop, and one round of it.
  unfoldable pub admit_checked : EncounterListing → Snapshot → Result EncounterRefusal (Unit {0})
  admit_checked l initial = do
    known initial.row
    refuse_if (held initial) evidence_hold_open
    receipt ← elim (initial.row.receipt) [ none ↦ err unverified_item | some r ↦ ok r ]
    refuse_if
        (not (text_eq receipt.receipt_id l.receipt_id)
          || not (has_item l.asset_id receipt.statement.items))
        unverified_item
    refuse_if
        (not (
          authority.verify initial.row.ticket.owner_public_key
            (authority.hash_string (listing_frame l)) l.owner_signature))
        invalid_listing_signature
    ok tt

  unfoldable pub admit_attempt :
      EncounterListing → Snapshot → Result EncounterRefusal (Attempt Text)
  admit_attempt l current = do
    known current.row
    refuse_if (held current) evidence_hold_open
    ok (
        if any (λ a. text_eq a l.asset_id) current.row.admitted_assets
        then keep l.asset_id
        else write
            (record (current.row) {
              admitted_assets = current.row.admitted_assets ++ l.asset_id ∷ [];
            })
            l.asset_id)

  unfoldable pub hold_attempt : Bool → LedgerRow → Result EncounterRefusal (Attempt (Unit {0}))
  hold_attempt hold row = do
    known row
    refuse_if row.retention_released retention_already_closed
    ok (write (record row { evidence_hold = hold }) tt)

  unfoldable pub fence_attempt : LedgerRow → Result EncounterRefusal (Attempt (Unit {0}))
  fence_attempt row = do
    known row
    refuse_if row.retention_released retention_already_closed
    ok (write row tt)

  unfoldable pub forfeit_attempt : LedgerRow → Result EncounterRefusal (Attempt (Unit {0}))
  forfeit_attempt row = do
    known row
    refuse_if (is_settled row.phase || is_forfeited row.phase) ticket_already_terminal
    ok (write (record row { phase = forfeited }) tt)
