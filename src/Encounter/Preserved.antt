-- ===== src/Encounter/Preserved.antt =====
-- Each kind of write keeps a row sound and what it has recorded
-- (examples/cf-game-audit/game/encounter/authority.ts).
use converge_audit.Prelude.{
  ℕ, ◌≤◌, ◌<◌, ◌≡◌, refl, sym, subst, ◌⊎◌, inl, inr, Bool, true, false, Option, none, some, List,
  [], ◌∷◌, ◌++◌, Memᴰ, mem-append_left,
}
use converge_audit.Prelude.Text.{Text}
use converge_audit.Encounter.Records.{
  EncounterTicket, EncounterCommit, EncounterReveal, EncounterReceipt, EncounterTermination,
  ArchiveCustody, Phase, issued, committed, revealed, settled, forfeited, LedgerRow,
}
use converge_audit.Encounter.Attempts.{
  Authority, has_item, is_some, is_forfeited, is_settled, is_revealed, signed_reveal,
}
use converge_audit.Encounter.Sound.{
  CommitSound, RevealSound, ReceiptSound, PhaseSound, AssetSound, IsSound, Grows,
}

is_some-ne : {A : Type 0} (o : Option A) → is_some o ≡ true → o ≡ none → ⊥
is_some-ne none h e = cc
is_some-ne (some a) h e = cc

-- A reveal has a commitment, a receipt has a reveal.
reveal_committed :
    (t : EncounterTicket) (secret : Text) (c : Option EncounterCommit) (o : Option EncounterReveal)
    → RevealSound t secret c o
    → is_some o ≡ true
    → is_some c ≡ true
reveal_committed t secret c none h e = cc
reveal_committed t secret c (some r) h e = rw (h.1) refl

receipt_revealed :
    (r : Option EncounterReveal) (o : Option EncounterReceipt)
    → ReceiptSound r o
    → is_some o ≡ true
    → is_some r ≡ true
receipt_revealed r none h e = cc
receipt_revealed r (some p) h e = rw (h.1) refl

module _ (row : LedgerRow) (h : IsSound row) where
  abbrev FreshPhase : Type 0
  FreshPhase = (row.reveal ≡ none) × (row.receipt ≡ none) × (row.termination ≡ none)

  uncommitted : row.commitment ≡ none → is_forfeited row.phase ≡ false → FreshPhase
  uncommitted e f = by_phase row.phase h.phase_sound f
    where
      no_reveal : is_some row.reveal ≡ true → ⊥
      no_reveal r =
          is_some-ne row.commitment
            (reveal_committed row.ticket row.secret row.commitment row.reveal h.reveal_sound r) e

      by_phase :
          (p : Phase)
          → PhaseSound row.commitment row.reveal row.receipt row.termination p
          → is_forfeited p ≡ false
          → FreshPhase
      by_phase issued s f = (s.1, s.2, s.3)
      by_phase committed s f = (s.1, s.2, s.3)
      by_phase revealed s f = absurd (no_reveal s.0)
      by_phase settled s f =
          absurd (no_reveal (receipt_revealed row.reveal row.receipt h.receipt_sound s.0))
      by_phase forfeited s f = cc

  -- Where nothing is recorded of reveal, receipt and termination, nothing is released.
  unreleased : row.receipt ≡ none → row.termination ≡ none → row.retention_released ≡ true → ⊥
  unreleased p t e = elim ((h.retention_sound e).1) [
    | inl y ↦ is_some-ne row.receipt y p
    | inr y ↦ is_some-ne row.termination y t
  ]

  no_assets : row.receipt ≡ none → (a : Text) → Memᴰ a row.admitted_assets → ⊥
  no_assets e a m = let (p, q, i) = h.assets_sound a m in cc

  pub commit-IsSound :
      (c : EncounterCommit) (now : ℕ)
      → row.commitment ≡ none
      → is_forfeited row.phase ≡ false
      → row.ticket.commit_not_before ≤ now
      → now < row.ticket.release_at
      → let new : LedgerRow = record row {
        phase = committed;
        commitment = some c;
        committed_at = some now;
      } in
        IsSound new × Grows row new
  commit-IsSound c now e f lo hi =
      let (r, p, t) = uncommitted e f in
      (
        record {
          commit_sound = (now, refl, lo, hi);
          reveal_sound = subst (RevealSound row.ticket row.secret (some c)) (sym r) tt;
          receipt_sound = h.receipt_sound;
          phase_sound = (refl, r, p, t);
          retention_sound = h.retention_sound;
          assets_sound = h.assets_sound;
        },
        record {
          ticket_stays = refl;
          secret_stays = refl;
          commitment_stays = λ a q. absurd (some_none q);
          committed_at_stays = λ a q. absurd (no_time q);
          reveal_stays = λ a q. q;
          receipt_stays = λ a q. q;
          termination_stays = λ a q. q;
          release_stays = λ q. q;
          assets_stay = λ a m. m;
        },
      )
    where
      some_none : {a : EncounterCommit} → row.commitment ≡ some a → ⊥
      some_none q = cc

      no_time : {a : ℕ} → row.committed_at ≡ some a → ⊥
      no_time q =
          let at : row.committed_at ≡ none =
            subst (λ o. CommitSound row.ticket o row.committed_at) e h.commit_sound in
          cc

  pub reveal-IsSound :
      (authority : Authority) (c : EncounterCommit) (now : ℕ)
      → row.commitment ≡ some c
      → is_forfeited row.phase ≡ false
      → row.reveal ≡ none
      → row.ticket.release_at ≤ now
      → let new : LedgerRow = record row {
        phase = revealed;
        reveal = some (signed_reveal authority row c now);
      } in
        IsSound new × Grows row new
  reveal-IsSound authority c now e f r le =
      let p = no_receipt in
      (
        record {
          commit_sound = h.commit_sound;
          reveal_sound = (c, e, refl, refl, le);
          receipt_sound =
              subst (ReceiptSound (some (signed_reveal authority row c now))) (sym p) tt;
          phase_sound = (refl, p, no_termination row.phase h.phase_sound f);
          retention_sound = h.retention_sound;
          assets_sound = h.assets_sound;
        },
        record {
          ticket_stays = refl;
          secret_stays = refl;
          commitment_stays = λ a q. q;
          committed_at_stays = λ a q. q;
          reveal_stays = λ a q. absurd (none_some q);
          receipt_stays = λ a q. q;
          termination_stays = λ a q. q;
          release_stays = λ q. q;
          assets_stay = λ a m. m;
        },
      )
    where
      none_some : {a : EncounterReveal} → row.reveal ≡ some a → ⊥
      none_some q = cc

      no_receipt : row.receipt ≡ none
      no_receipt = absent row.receipt refl
        where
          absent : (o : Option EncounterReceipt) → row.receipt ≡ o → row.receipt ≡ none
          absent none q = q
          absent (some p) q = absurd (
              is_some-ne row.reveal
                (receipt_revealed row.reveal row.receipt h.receipt_sound (rw q refl)) r)

      no_termination :
          (p : Phase)
          → PhaseSound row.commitment row.reveal row.receipt row.termination p
          → is_forfeited p ≡ false
          → row.termination ≡ none
      no_termination issued s f = s.3
      no_termination committed s f = s.3
      no_termination revealed s f = s.2
      no_termination settled s f = s.1
      no_termination forfeited s f = cc

  pub settle-IsSound :
      (receipt : EncounterReceipt) (r : EncounterReveal)
      → row.receipt ≡ none
      → is_revealed row.phase ≡ true
      → row.reveal ≡ some r
      → receipt.statement.root ≡ r.root
      → r.released_at ≤ receipt.statement.settled_at
      → let new : LedgerRow = record row { phase = settled; receipt = some receipt } in
        IsSound new × Grows row new
  settle-IsSound receipt r e f q root le =
      let t = no_termination row.phase h.phase_sound f in
      (
        record {
          commit_sound = h.commit_sound;
          reveal_sound = h.reveal_sound;
          receipt_sound = (r, q, root, le);
          phase_sound = (refl, t);
          retention_sound = λ y. absurd (unreleased e t y);
          assets_sound = λ a m. absurd (no_assets e a m);
        },
        record {
          ticket_stays = refl;
          secret_stays = refl;
          commitment_stays = λ a q. q;
          committed_at_stays = λ a q. q;
          reveal_stays = λ a q. q;
          receipt_stays = λ a q. absurd (none_some q);
          termination_stays = λ a q. q;
          release_stays = λ q. q;
          assets_stay = λ a m. m;
        },
      )
    where
      none_some : {a : EncounterReceipt} → row.receipt ≡ some a → ⊥
      none_some q = cc

      no_termination :
          (p : Phase)
          → PhaseSound row.commitment row.reveal row.receipt row.termination p
          → is_revealed p ≡ true
          → row.termination ≡ none
      no_termination issued s f = cc
      no_termination committed s f = cc
      no_termination revealed s f = s.2
      no_termination settled s f = cc
      no_termination forfeited s f = cc

  pub admit-IsSound :
      (asset : Text) (p : EncounterReceipt)
      → row.receipt ≡ some p
      → has_item asset p.statement.items ≡ true
      → let new : LedgerRow = record row { admitted_assets = row.admitted_assets ++ asset ∷ [] } in
        IsSound new × Grows row new
  admit-IsSound asset p e i = (
    record {
      commit_sound = h.commit_sound;
      reveal_sound = h.reveal_sound;
      receipt_sound = h.receipt_sound;
      phase_sound = h.phase_sound;
      retention_sound = h.retention_sound;
      assets_sound = λ a m. each row.admitted_assets a h.assets_sound m;
    },
    record {
      ticket_stays = refl;
      secret_stays = refl;
      commitment_stays = λ a q. q;
      committed_at_stays = λ a q. q;
      reveal_stays = λ a q. q;
      receipt_stays = λ a q. q;
      termination_stays = λ a q. q;
      release_stays = λ q. q;
      assets_stay = λ a m. mem-append_left row.admitted_assets (asset ∷ []) m;
    },
  )
    where
      each :
          (xs : List Text) (a : Text)
          → ((b : Text) → Memᴰ b xs → AssetSound row.receipt b)
          → Memᴰ a (xs ++ asset ∷ [])
          → AssetSound row.receipt a
      each [] a k (Memᴰ.head q) = (p, e, rw q i)
      each [] a k (Memᴰ.tail m) = elim m [ ]
      each (x ∷ xs) a k (Memᴰ.head q) = k a (Memᴰ.head q)
      each (x ∷ xs) a k (Memᴰ.tail m) = each xs a (λ b n. k b (Memᴰ.tail n)) m

  pub hold-IsSound :
      (hold : Bool)
      → row.retention_released ≡ false
      → let new : LedgerRow = record row { evidence_hold = hold } in IsSound new × Grows row new
  hold-IsSound hold e = (
    record {
      commit_sound = h.commit_sound;
      reveal_sound = h.reveal_sound;
      receipt_sound = h.receipt_sound;
      phase_sound = h.phase_sound;
      retention_sound = λ y. cc;
      assets_sound = h.assets_sound;
    },
    record {
      ticket_stays = refl;
      secret_stays = refl;
      commitment_stays = λ a q. q;
      committed_at_stays = λ a q. q;
      reveal_stays = λ a q. q;
      receipt_stays = λ a q. q;
      termination_stays = λ a q. q;
      release_stays = λ q. q;
      assets_stay = λ a m. m;
    },
  )

  pub forfeit-IsSound :
      is_settled row.phase ≡ false
      → let new : LedgerRow = record row { phase = forfeited } in IsSound new × Grows row new
  forfeit-IsSound e = (
    record {
      commit_sound = h.commit_sound;
      reveal_sound = h.reveal_sound;
      receipt_sound = h.receipt_sound;
      phase_sound = no_receipt row.phase h.phase_sound e;
      retention_sound = h.retention_sound;
      assets_sound = h.assets_sound;
    },
    record {
      ticket_stays = refl;
      secret_stays = refl;
      commitment_stays = λ a q. q;
      committed_at_stays = λ a q. q;
      reveal_stays = λ a q. q;
      receipt_stays = λ a q. q;
      termination_stays = λ a q. q;
      release_stays = λ q. q;
      assets_stay = λ a m. m;
    },
  )
    where
      no_receipt :
          (p : Phase)
          → PhaseSound row.commitment row.reveal row.receipt row.termination p
          → is_settled p ≡ false
          → row.receipt ≡ none
      no_receipt issued s f = s.2
      no_receipt committed s f = s.2
      no_receipt revealed s f = s.1
      no_receipt settled s f = cc
      no_receipt forfeited s f = s

  pub terminate-IsSound :
      (t : EncounterTermination)
      → row.receipt ≡ none
      → row.termination ≡ none
      → let new : LedgerRow = record row { phase = forfeited; termination = some t } in
        IsSound new × Grows row new
  terminate-IsSound t p e = (
    record {
      commit_sound = h.commit_sound;
      reveal_sound = h.reveal_sound;
      receipt_sound = h.receipt_sound;
      phase_sound = p;
      retention_sound = λ y. ((h.retention_sound y).0, inr refl);
      assets_sound = h.assets_sound;
    },
    record {
      ticket_stays = refl;
      secret_stays = refl;
      commitment_stays = λ a q. q;
      committed_at_stays = λ a q. q;
      reveal_stays = λ a q. q;
      receipt_stays = λ a q. q;
      termination_stays = λ a q. absurd (none_some q);
      release_stays = λ q. q;
      assets_stay = λ a m. m;
    },
  )
    where
      none_some : {a : EncounterTermination} → row.termination ≡ some a → ⊥
      none_some q = cc

  pub release-IsSound :
      row.evidence_hold ≡ false
      → (is_some row.receipt ≡ true) ⊎ (is_some row.termination ≡ true)
      → let new : LedgerRow = record row { retention_released = true } in
        IsSound new × Grows row new
  release-IsSound e o = (
    record {
      commit_sound = h.commit_sound;
      reveal_sound = h.reveal_sound;
      receipt_sound = h.receipt_sound;
      phase_sound = h.phase_sound;
      retention_sound = λ y. (e, o);
      assets_sound = h.assets_sound;
    },
    record {
      ticket_stays = refl;
      secret_stays = refl;
      commitment_stays = λ a q. q;
      committed_at_stays = λ a q. q;
      reveal_stays = λ a q. q;
      receipt_stays = λ a q. q;
      termination_stays = λ a q. q;
      release_stays = λ y. refl;
      assets_stay = λ a m. m;
    },
  )

  pub archive-IsSound :
      (a : ArchiveCustody)
      → let new : LedgerRow = record row { archive_custody = some a } in IsSound new × Grows row new
  archive-IsSound a = (
    record {
      commit_sound = h.commit_sound;
      reveal_sound = h.reveal_sound;
      receipt_sound = h.receipt_sound;
      phase_sound = h.phase_sound;
      retention_sound = h.retention_sound;
      assets_sound = h.assets_sound;
    },
    record {
      ticket_stays = refl;
      secret_stays = refl;
      commitment_stays = λ x q. q;
      committed_at_stays = λ x q. q;
      reveal_stays = λ x q. q;
      receipt_stays = λ x q. q;
      termination_stays = λ x q. q;
      release_stays = λ y. y;
      assets_stay = λ x m. m;
    },
  )

  pub relinquish-IsSound :
      let new : LedgerRow = record row { recovery_released = true } in IsSound new × Grows row new
  relinquish-IsSound = (
    record {
      commit_sound = h.commit_sound;
      reveal_sound = h.reveal_sound;
      receipt_sound = h.receipt_sound;
      phase_sound = h.phase_sound;
      retention_sound = h.retention_sound;
      assets_sound = h.assets_sound;
    },
    record {
      ticket_stays = refl;
      secret_stays = refl;
      commitment_stays = λ x q. q;
      committed_at_stays = λ x q. q;
      reveal_stays = λ x q. q;
      receipt_stays = λ x q. q;
      termination_stays = λ x q. q;
      release_stays = λ y. y;
      assets_stay = λ x m. m;
    },
  )
