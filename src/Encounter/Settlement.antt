-- ===== src/Encounter/Settlement.antt =====
-- Settling an encounter by replaying its log
-- (examples/cf-game-audit/game/encounter/authority.ts). The decoder of a log, the number that
-- `parseInt` reads from hexadecimal digits and the JSON text of a final state are arguments.
use converge_audit.Prelude.{
  ℕ, ◌+◌, Bool, false, not, ◌||◌, Option, none, some, List, [], ◌∷◌, ◌++◌, map, any, take, length,
  ltb, ◌==◌, Result, ok, err, ◌>>=◌, ◌>>◌, refuse_if,
}
use converge_audit.Prelude.Text.{Text, codes, text_eq}
use converge_audit.Prelude.Json.{str}
use converge_audit.GameItems.State.{InventoryItem, GameState}
use converge_audit.GameKernel.Moves.{InputFrame}
use converge_audit.GameKernel.Step.{LocaleCompare, AdvanceRefusal, create_initial_game}
use converge_audit.GameKernel.Replay.{replay}
use converge_audit.PayloadQueue.Store.{Chunk}
use converge_audit.Encounter.Records.{
  EncounterTicket, EncounterCommit, EncounterItem, EncounterReceiptStatement, EncounterReceipt,
  settled, LedgerRow,
}
use converge_audit.Encounter.Wire.{is_time, frame, receipt_frame}
use converge_audit.Encounter.Attempts.{
  Authority, EncounterRefusal, invalid_clock, reveal_required, settlement_root_changed,
  invalid_settlement, Attempt, keep, write, is_revealed, known, clock,
}

-- What the platform supplies to a settlement.
pub record Platform : Type 0 where
  pub locale_compare : LocaleCompare
  pub decode_log : EncounterTicket → EncounterCommit → List Chunk → Option (List InputFrame)
  pub parse_hex : Text → ℕ
  pub final_state_frame : Text → GameState → Text

abbrev or_invalid : {A : Type 0} → Option A → Result EncounterRefusal A
or_invalid none = err invalid_settlement
or_invalid (some a) = ok a

abbrev pub or_replay_invalid : Result AdvanceRefusal GameState → Result EncounterRefusal GameState
or_replay_invalid (err reason) = err invalid_settlement
or_replay_invalid (ok s) = ok s

-- The asset of an item is named after its ticket.
abbrev pub encounter_item : Text → InventoryItem → EncounterItem
encounter_item id i = record {
  asset_id = codes "encounter:" ++ id ++ b':' ∷ i.asset_id;
  owner_id = i.owner_id;
  item_type = i.item_type;
  rarity = i.rarity;
  power = i.power;
  source_enemy_id = i.source_enemy_id;
  kill_tick = i.kill_tick;
  drop_index = i.drop_index;
}

module _ (authority : Authority) (platform : Platform) where
  -- The game that a ticket's secret and its log determine.
  unfoldable pub final_state :
      LedgerRow → EncounterCommit → List Chunk → Result EncounterRefusal GameState
  final_state initial c chunks = do
    refuse_if (not (length chunks == 2) || any (λ (k : Chunk). ltb 4096 (length k.payload)) chunks)
        invalid_settlement
    inputs ← or_invalid (platform.decode_log initial.ticket c chunks)
    let seed_digest = authority.hash_string (
        frame (codes "encounter-game-seed-v1")
          (str initial.ticket.ticket_id ∷ str initial.secret ∷ []))
    start ←
        or_invalid
          (create_initial_game (platform.parse_hex (take 8 seed_digest)) initial.ticket.player_id)
    or_replay_invalid (replay platform.locale_compare inputs start)

  abbrev pub receipt_statement :
      LedgerRow → EncounterCommit → GameState → ℕ → EncounterReceiptStatement
  receipt_statement initial c state now = record {
    authority_key = authority.public_key;
    ticket_id = initial.ticket.ticket_id;
    unit = initial.ticket.unit;
    rules_id = codes "reference-game-encounter-v1";
    player_id = initial.ticket.player_id;
    owner_public_key = initial.ticket.owner_public_key;
    root = c.root;
    final_state_digest =
        authority.hash_string (platform.final_state_frame initial.ticket.ticket_id state);
    items = map (encounter_item initial.ticket.ticket_id) state.inventory;
    settled_at = now;
    retention_until = now + authority.retention_ms;
  }

  abbrev pub signed_receipt : EncounterReceiptStatement → EncounterReceipt
  signed_receipt statement =
      let id = authority.hash_string (receipt_frame statement) in
      record { statement = statement; receipt_id = id; signature = authority.sign_digest id }

  -- The receipt that `settle` makes before its loop, from the row read first, if that has none yet.
  unfoldable pub settle_receipt :
      List Chunk → ℕ → LedgerRow → Result EncounterRefusal EncounterReceipt
  settle_receipt chunks now initial = do
    known authority initial
    reveal ← elim (initial.reveal) [ none ↦ err reveal_required | some r ↦ ok r ]
    refuse_if (not (is_revealed initial.phase)) reveal_required
    c ← or_invalid initial.commitment
    state ← final_state initial c chunks
    clock authority now
    refuse_if (not (is_time (now + authority.retention_ms)) || ltb now reveal.released_at)
        invalid_clock
    ok (signed_receipt (receipt_statement initial c state now))

module _ (authority : Authority) where
  abbrev root_is : Text → Option EncounterCommit → Bool
  root_is root none = false
  root_is root (some c) = text_eq c.root root

  -- One round of the loop of `settle`.
  unfoldable pub settle_attempt :
      EncounterReceipt → LedgerRow → Result EncounterRefusal (Attempt EncounterReceipt)
  settle_attempt receipt row = do
    known authority row
    elim (row.receipt) [
      | some r ↦ ok (keep r)
      | none ↦ do
        refuse_if
            (not (is_revealed row.phase) || not (root_is receipt.statement.root row.commitment))
            settlement_root_changed
        ok (write (record row { phase = settled; receipt = some receipt }) receipt)
    ]
