-- ===== src/Encounter/Sound.antt =====
-- What every stored row satisfies, and what never changes once it is recorded
-- (examples/cf-game-audit/game/encounter/authority.ts).
use converge_audit.Prelude.{
  ℕ, ◌≤◌, ◌<◌, ◌≡◌, refl, ◌∙◌, ◌⊎◌, Bool, true, false, Option, none, some, Memᴰ,
}
use converge_audit.Prelude.Text.{Text}
use converge_audit.Encounter.Records.{
  EncounterTicket, EncounterCommit, EncounterReveal, EncounterReceipt, EncounterTermination, Phase,
  issued, committed, revealed, settled, forfeited, LedgerRow,
}
use converge_audit.Encounter.Attempts.{has_item, is_some}

-- A commitment was made inside the window, and has its time.
abbrev pub CommitSound : EncounterTicket → Option EncounterCommit → Option ℕ → Type 0
CommitSound t none at = at ≡ none
CommitSound t (some c) at = (n : ℕ) × (at ≡ some n) × (t.commit_not_before ≤ n) × (n < t.release_at)

-- The seed was revealed for the committed root, and no earlier than the release.
abbrev pub RevealSound :
    EncounterTicket → Text → Option EncounterCommit → Option EncounterReveal → Type 0
RevealSound t secret commitment none = Unit
RevealSound t secret commitment (some r) =
    (c : EncounterCommit) × (commitment ≡ some c)
    × (r.root ≡ c.root)
    × (r.seed ≡ secret)
    × (t.release_at ≤ r.released_at)

-- A receipt is for the revealed root, and no earlier than the reveal.
abbrev pub ReceiptSound : Option EncounterReveal → Option EncounterReceipt → Type 0
ReceiptSound reveal none = Unit
ReceiptSound reveal (some p) =
    (r : EncounterReveal) × (reveal ≡ some r)
    × (p.statement.root ≡ r.root)
    × (r.released_at ≤ p.statement.settled_at)

module _ (commitment : Option EncounterCommit) (reveal : Option EncounterReveal)
    (receipt : Option EncounterReceipt) (termination : Option EncounterTermination) where
  -- What each phase comes with.
  abbrev pub PhaseSound : Phase → Type 0
  PhaseSound issued =
      (commitment ≡ none) × (reveal ≡ none) × (receipt ≡ none) × (termination ≡ none)
  PhaseSound committed =
      (is_some commitment ≡ true) × (reveal ≡ none) × (receipt ≡ none) × (termination ≡ none)
  PhaseSound revealed = (is_some reveal ≡ true) × (receipt ≡ none) × (termination ≡ none)
  PhaseSound settled = (is_some receipt ≡ true) × (termination ≡ none)
  PhaseSound forfeited = receipt ≡ none

-- An asset on the market is an item of the receipt.
abbrev pub AssetSound : Option EncounterReceipt → Text → Type 0
AssetSound receipt asset =
    (p : EncounterReceipt) × (receipt ≡ some p) × (has_item asset p.statement.items ≡ true)

-- A closed retention leaves no hold, and an outcome.
abbrev pub RetentionSound :
    Bool → Bool → Option EncounterReceipt → Option EncounterTermination → Type 0
RetentionSound released hold receipt termination =
    released ≡ true → (hold ≡ false) × ((is_some receipt ≡ true) ⊎ (is_some termination ≡ true))

pub record IsSound (row : LedgerRow) : Type 0 where
  pub commit_sound : CommitSound row.ticket row.commitment row.committed_at
  pub reveal_sound : RevealSound row.ticket row.secret row.commitment row.reveal
  pub receipt_sound : ReceiptSound row.reveal row.receipt
  pub phase_sound : PhaseSound row.commitment row.reveal row.receipt row.termination row.phase
  pub retention_sound :
      RetentionSound row.retention_released row.evidence_hold row.receipt row.termination
  pub assets_sound : (a : Text) → Memᴰ a row.admitted_assets → AssetSound row.receipt a

-- What is recorded stays.
abbrev pub Persists : {A : Type 0} → Option A → Option A → Type 0
Persists {A} old new = (a : A) → old ≡ some a → new ≡ some a

pub record Grows (old new : LedgerRow) : Type 0 where
  pub ticket_stays : new.ticket ≡ old.ticket
  pub secret_stays : new.secret ≡ old.secret
  pub commitment_stays : Persists old.commitment new.commitment
  pub committed_at_stays : Persists old.committed_at new.committed_at
  pub reveal_stays : Persists old.reveal new.reveal
  pub receipt_stays : Persists old.receipt new.receipt
  pub termination_stays : Persists old.termination new.termination
  pub release_stays : old.retention_released ≡ true → new.retention_released ≡ true
  pub assets_stay : (a : Text) → Memᴰ a old.admitted_assets → Memᴰ a new.admitted_assets

pub Grows-refl : (row : LedgerRow) → Grows row row
Grows-refl row = record {
  ticket_stays = refl;
  secret_stays = refl;
  commitment_stays = λ a e. e;
  committed_at_stays = λ a e. e;
  reveal_stays = λ a e. e;
  receipt_stays = λ a e. e;
  termination_stays = λ a e. e;
  release_stays = λ e. e;
  assets_stay = λ a m. m;
}

pub Grows-trans : (a b c : LedgerRow) → Grows a b → Grows b c → Grows a c
Grows-trans a b c g h = record {
  ticket_stays = h.ticket_stays ∙ g.ticket_stays;
  secret_stays = h.secret_stays ∙ g.secret_stays;
  commitment_stays = λ x e. h.commitment_stays x (g.commitment_stays x e);
  committed_at_stays = λ x e. h.committed_at_stays x (g.committed_at_stays x e);
  reveal_stays = λ x e. h.reveal_stays x (g.reveal_stays x e);
  receipt_stays = λ x e. h.receipt_stays x (g.receipt_stays x e);
  termination_stays = λ x e. h.termination_stays x (g.termination_stays x e);
  release_stays = λ e. h.release_stays (g.release_stays e);
  assets_stay = λ x m. h.assets_stay x (g.assets_stay x m);
}

-- What is recorded stays, but perhaps for the secret and its reveal.
pub record Lasting (old new : LedgerRow) : Type 0 where
  pub ticket_stays : new.ticket ≡ old.ticket
  pub commitment_stays : Persists old.commitment new.commitment
  pub committed_at_stays : Persists old.committed_at new.committed_at
  pub receipt_stays : Persists old.receipt new.receipt
  pub termination_stays : Persists old.termination new.termination
  pub release_stays : old.retention_released ≡ true → new.retention_released ≡ true
  pub assets_stay : (a : Text) → Memᴰ a old.admitted_assets → Memᴰ a new.admitted_assets
