-- ===== src/Encounter/Shapes.antt =====
-- What a round that ends with a write has checked, and the row that it writes
-- (examples/cf-game-audit/game/encounter/authority.ts).
use converge_audit.Prelude.{
  ℕ, ◌+◌, ◌≤◌, ◌<◌, ◌≡◌, refl, Bool, true, false, Option, none, some, List, [], ◌∷◌, ◌++◌, arith,
  Option-cases, inl, inr, Result, ok, err,
}
use converge_audit.Prelude.Text.{Text, text_eq_iff}
use converge_audit.Encounter.Records.{
  EncounterTicket, EncounterCommit, EncounterReveal, EncounterReceipt, EncounterListing,
  EncounterTermination, TerminationReason, ArchiveCustody, committed, revealed, settled, forfeited,
  LedgerRow,
}
use converge_audit.Encounter.Attempts.{
  Authority, EncounterRefusal, Snapshot, write, held, has_item, is_forfeited, is_settled,
  is_revealed, commit_attempt, reveal_attempt, signed_reveal, admit_checked, admit_attempt,
  hold_attempt, fence_attempt, forfeit_attempt,
}
use converge_audit.Encounter.Closing.{
  terminate_attempt, signed_termination, termination_statement, closure_attempt, ClosureGrant,
  retire_attempt, release, terminal_cleanup_allowed, custody_attempt, stays, relinquish_attempt,
}
use converge_audit.PayloadQueue.Store.{Chunk}
use converge_audit.GameItems.State.{GameState}
use converge_audit.Encounter.Wire.{is_digest, is_time}
use converge_audit.Encounter.Settlement.{
  Platform, settle_receipt, settle_attempt, final_state, receipt_statement, signed_receipt,
}

module _ (authority : Authority) (row new : LedgerRow) where
  pub commit_shape :
      (c : EncounterCommit) (now : ℕ) {out : Text × Option ℕ}
      → commit_attempt authority c now row ≡ ok (write new out)
      → (row.commitment ≡ none)
        × (is_forfeited row.phase ≡ false)
        × (row.ticket.commit_not_before ≤ now)
        × (now < row.ticket.release_at)
        × (new ≡ record row { phase = committed; commitment = some c; committed_at = some now })
  unfolding commit_attempt
  commit_shape c now h = elim (Option-cases row.commitment) [
    | inl e ↦ ground (arith, e)
    | inr (d, e) ↦ absurd (ground (arith, e))
  ]

  pub reveal_shape :
      (now : ℕ) {out : EncounterReveal}
      → reveal_attempt authority now row ≡ ok (write new out)
      → (c : EncounterCommit) × (row.commitment ≡ some c)
        × (is_forfeited row.phase ≡ false)
        × (row.reveal ≡ none)
        × (row.ticket.release_at ≤ now)
        × (new ≡ record row { phase = revealed; reveal = some (signed_reveal authority row c now) })
  unfolding reveal_attempt
  reveal_shape now h = elim (Option-cases row.commitment) [
    | inl e ↦ absurd (ground (arith, e))
    | inr (c, e) ↦ elim (Option-cases row.reveal) [
      | inl f ↦ (c, e, ground (arith, e, f), f, ground (arith, e, f), ground (arith, e, f))
      | inr (r, f) ↦ absurd (ground (arith, e, f))
    ]
  ]

  pub settle_shape :
      (receipt : EncounterReceipt) {out : EncounterReceipt}
      → settle_attempt authority receipt row ≡ ok (write new out)
      → (c : EncounterCommit) × (row.receipt ≡ none)
        × (is_revealed row.phase ≡ true)
        × (row.commitment ≡ some c)
        × (c.root ≡ receipt.statement.root)
        × (new ≡ record row { phase = settled; receipt = some receipt })
  unfolding settle_attempt
  settle_shape receipt h = elim (Option-cases row.receipt) [
    | inl e ↦ elim (Option-cases row.commitment) [
      | inl f ↦ absurd (ground (arith, e, f))
      | inr (c, f) ↦ (
        c,
        e,
        ground (arith, e, f),
        f,
        (text_eq_iff c.root receipt.statement.root).0 (ground (arith, e, f)),
        ground (arith, e, f),
      )
    ]
    | inr (r, e) ↦ absurd (ground (arith, e))
  ]

  pub hold_shape :
      (hold : Bool)
      → hold_attempt authority hold row ≡ ok (write new tt)
      → (row.retention_released ≡ false) × (new ≡ record row { evidence_hold = hold })
  unfolding hold_attempt
  hold_shape hold h = ground arith

  pub fence_shape :
      fence_attempt authority row ≡ ok (write new tt)
      → (row.retention_released ≡ false) × (new ≡ row)
  unfolding fence_attempt
  fence_shape h = ground arith

  pub forfeit_shape :
      forfeit_attempt authority row ≡ ok (write new tt)
      → (is_settled row.phase ≡ false) × (new ≡ record row { phase = forfeited })
  unfolding forfeit_attempt
  forfeit_shape h = ground arith

  pub terminate_shape :
      (reason : TerminationReason) (now : ℕ) {out : EncounterTermination}
      → terminate_attempt authority reason now row ≡ ok (write new out)
      → (row.receipt ≡ none)
        × (is_settled row.phase ≡ false)
        × (row.termination ≡ none)
        × (new ≡ record row {
          phase = forfeited;
          termination =
              some (signed_termination authority (termination_statement authority reason now row));
        })
  unfolding terminate_attempt
  terminate_shape reason now h = elim (Option-cases row.termination) [
    | inl e ↦ elim (Option-cases row.receipt) [
      | inl f ↦ (f, ground (arith, e, f), e, ground (arith, e, f))
      | inr (r, f) ↦ absurd (ground (arith, e, f))
    ]
    | inr (t, e) ↦ absurd (ground (arith, e))
  ]

module _ (authority : Authority) (s : Snapshot) (new : LedgerRow) where
  pub admit_shape :
      (l : EncounterListing) {out : Text}
      → admit_attempt authority l s ≡ ok (write new out)
      → (held s ≡ false)
        × (new ≡ record (s.row) { admitted_assets = s.row.admitted_assets ++ l.asset_id ∷ [] })
  unfolding admit_attempt
  admit_shape l h = ground arith

  pub closure_shape :
      (expected next now : ℕ) {out : ClosureGrant}
      → closure_attempt authority expected next now s ≡ ok (write new out)
      → (t : EncounterTermination) × (s.row.termination ≡ some t)
        × (s.row.retention_released ≡ false)
        × (t.statement.retention_until ≤ now)
        × (held s ≡ false)
        × (new ≡ release authority s.row)
  unfolding closure_attempt terminal_cleanup_allowed
  closure_shape expected next now h = elim (Option-cases s.row.termination) [
    | inl e ↦ absurd (ground (arith, e))
    | inr (t, e) ↦
        (t, e, ground (arith, e), ground (arith, e), ground (arith, e), ground (arith, e))
  ]

  pub retire_shape :
      (now : ℕ) {out : LedgerRow}
      → retire_attempt authority now s ≡ ok (write new out)
      → (r : EncounterReceipt) × (s.row.receipt ≡ some r)
        × (s.row.retention_released ≡ false)
        × (r.statement.retention_until ≤ now)
        × (held s ≡ false)
        × (new ≡ release authority s.row)
  unfolding retire_attempt
  retire_shape now h = elim (Option-cases s.row.receipt) [
    | inl e ↦ absurd (ground (arith, e))
    | inr (r, e) ↦
        (r, e, ground (arith, e), ground (arith, e), ground (arith, e), ground (arith, e))
  ]

  pub admit_checked_shape :
      (l : EncounterListing)
      → admit_checked authority l s ≡ ok tt
      → (r : EncounterReceipt) × (s.row.receipt ≡ some r)
        × (has_item l.asset_id r.statement.items ≡ true)
  unfolding admit_checked
  admit_checked_shape l h = elim (Option-cases s.row.receipt) [
    | inl e ↦ absurd (ground (arith, e))
    | inr (r, e) ↦ (r, e, ground (arith, e))
  ]

module _ (authority : Authority) (platform : Platform) (row : LedgerRow) where
  pub settle_receipt_shape :
      (chunks : List Chunk) (now : ℕ) (receipt : EncounterReceipt)
      → settle_receipt authority platform chunks now row ≡ ok receipt
      → (r : EncounterReveal) × (c : EncounterCommit) × (state : GameState) × (row.reveal ≡ some r)
        × (row.commitment ≡ some c)
        × (final_state authority platform row c chunks ≡ ok state)
        × (r.released_at ≤ now)
        × (is_time (now + authority.retention_ms) ≡ true)
        × (receipt
            ≡ signed_receipt authority platform
                (receipt_statement authority platform row c state now))
  unfolding settle_receipt
  settle_receipt_shape chunks now receipt h = elim (Option-cases row.reveal) [
    | inl e ↦ absurd (ground (arith, e))
    | inr (r, e) ↦ elim (Option-cases row.commitment) [
      | inl f ↦ absurd (ground (arith, e, f))
      | inr (c, f) ↦ with_state r c e f (final_state authority platform row c chunks) refl
    ]
  ]
    where
      with_state :
          (r : EncounterReveal) (c : EncounterCommit)
          → row.reveal ≡ some r
          → row.commitment ≡ some c
          → (o : Result EncounterRefusal GameState)
          → final_state authority platform row c chunks ≡ o
          → (r : EncounterReveal) × (c : EncounterCommit) × (state : GameState) × (row.reveal
              ≡ some r)
            × (row.commitment ≡ some c)
            × (final_state authority platform row c chunks ≡ ok state)
            × (r.released_at ≤ now)
            × (is_time (now + authority.retention_ms) ≡ true)
            × (receipt
                ≡ signed_receipt authority platform
                    (receipt_statement authority platform row c state now))
      with_state r c e f (err reason) q = unfold settle_receipt in absurd (ground (arith, e, f, q))
      with_state r c e f (ok state) q =
          unfold settle_receipt in
          (
            r,
            c,
            state,
            e,
            f,
            q,
            ground (arith, e, f, q),
            ground (arith, e, f, q),
            ground (arith, e, f, q),
          )

module _ (authority : Authority) (row new : LedgerRow) where
  pub custody_shape :
      (a : ArchiveCustody)
      → custody_attempt authority a row ≡ ok (write new tt)
      → new ≡ record row { archive_custody = some a }
  unfolding custody_attempt
  custody_shape a h = elim (Option-cases row.commitment) [
    | inl e ↦ absurd (ground (arith, e))
    | inr (c, e) ↦ elim (Option-cases row.receipt) [
      | inl f ↦ absurd (ground (arith, e, f))
      | inr (p, f) ↦ elim (Option-cases row.archive_custody) [
        | inl g ↦ ground (arith, e, f, g)
        | inr (k, g) ↦ absurd (ground (arith, e, f, g))
      ]
    ]
  ]

  pub custody_secret :
      (a : ArchiveCustody)
      → custody_attempt authority a row ≡ ok (write new tt)
      → is_digest row.secret ≡ true
  unfolding custody_attempt
  custody_secret a h = elim (Option-cases row.commitment) [
    | inl e ↦ absurd (ground (arith, e))
    | inr (c, e) ↦ elim (Option-cases row.receipt) [
      | inl f ↦ absurd (ground (arith, e, f))
      | inr (p, f) ↦ ground (arith, h, e, f)
    ]
  ]

  pub reveal_secret :
      (now : ℕ) {out : EncounterReveal}
      → reveal_attempt authority now row ≡ ok (write new out)
      → is_digest row.secret ≡ true
  unfolding reveal_attempt
  reveal_secret now h = elim (Option-cases row.commitment) [
    | inl e ↦ absurd (ground (arith, e))
    | inr (c, e) ↦ elim (Option-cases row.reveal) [
      | inl f ↦ ground (arith, h, e, f)
      | inr (r, f) ↦ absurd (ground (arith, e, f))
    ]
  ]

  pub forfeit_open :
      forfeit_attempt authority row ≡ ok (write new tt) → is_forfeited row.phase ≡ false
  unfolding forfeit_attempt
  forfeit_open h = ground arith

module _ (s : Snapshot) (new : LedgerRow) where
  pub relinquish_shape :
      (ticket : EncounterTicket) (termination : EncounterTermination) (generation now : ℕ)
      (members : Bool)
      → relinquish_attempt ticket termination generation now members s ≡ ok (stays (write new tt))
      → new ≡ record (s.row) { recovery_released = true }
  unfolding relinquish_attempt
  relinquish_shape ticket termination generation now members h =
      elim (Option-cases s.row.termination) [
        | inl e ↦ absurd (ground (arith, h, e))
        | inr (t, e) ↦ ground (arith, h, e)
      ]
