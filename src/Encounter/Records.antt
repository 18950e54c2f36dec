-- ===== src/Encounter/Records.antt =====
-- The rows of the ledger and what they hold
-- (examples/cf-game-audit/game/encounter/contracts.ts and archive.ts). A field that is always 1, the
-- version, is left out; a field that may be missing is an Option.
use converge_audit.Prelude.{ℕ, Bool, Option, List}
use converge_audit.Prelude.Text.{Text}
use converge_audit.GameItems.State.{ItemRarity}

pub record EncounterAuthorization : Type 0 where
  pub generation : Option ℕ
  pub unit : Text
  pub start_head : Text
  pub player_id : Text
  pub owner_public_key : Text

pub record EncounterTicket : Type 0 where
  pub authorization : EncounterAuthorization
  pub open authorization use *
  pub ticket_id : Text
  pub authority_key : Text
  pub rules_id : Text
  pub queue_id : Text
  pub seed_commitment : Text
  pub issued_at : ℕ
  pub commit_not_before : ℕ
  pub release_at : ℕ
  pub ticket_signature : Text

pub record EncounterCommit : Type 0 where
  pub ticket_id : Text
  pub root : Text
  pub chunk_digests : List Text
  pub owner_signature : Text

pub record EncounterReveal : Type 0 where
  pub ticket_id : Text
  pub root : Text
  pub seed : Text
  pub committed_at : ℕ
  pub released_at : ℕ
  pub signature : Text

-- `Omit<InventoryItem, "audit">`
pub record EncounterItem : Type 0 where
  pub asset_id : Text
  pub owner_id : Text
  pub item_type : Text
  pub rarity : ItemRarity
  pub power : ℕ
  pub source_enemy_id : Text
  pub kill_tick : ℕ
  pub drop_index : ℕ

pub record EncounterReceiptStatement : Type 0 where
  pub authority_key : Text
  pub ticket_id : Text
  pub unit : Text
  pub rules_id : Text
  pub player_id : Text
  pub owner_public_key : Text
  pub root : Text
  pub final_state_digest : Text
  pub items : List EncounterItem
  pub settled_at : ℕ
  pub retention_until : ℕ

pub record EncounterReceipt : Type 0 where
  pub statement : EncounterReceiptStatement
  pub receipt_id : Text
  pub signature : Text

pub record EncounterListing : Type 0 where
  pub ticket_id : Text
  pub receipt_id : Text
  pub asset_id : Text
  pub owner_signature : Text

pub data TerminationReason : Type 0 where
  abandoned expired : TerminationReason

pub record EncounterTerminationStatement : Type 0 where
  pub authority_key : Text
  pub ticket_id : Text
  pub unit : Text
  pub start_head : Text
  pub player_id : Text
  pub owner_public_key : Text
  pub queue_id : Text
  pub rules_id : Text
  pub root : Option Text
  pub reason : TerminationReason
  pub terminated_at : ℕ
  pub retention_until : ℕ

pub record EncounterTermination : Type 0 where
  pub statement : EncounterTerminationStatement
  pub termination_id : Text
  pub signature : Text

-- Of a custody and its statement, what the authority reads.
pub record ArchiveCustody : Type 0 where
  pub archive_key : Text
  pub authority_key : Text
  pub ticket_id : Text
  pub unit : Text
  pub queue_id : Text
  pub root : Text
  pub receipt_id : Text
  pub chunk_digests : List Text
  pub min_retain_until : ℕ
  pub custody_id : Text

pub data Phase : Type 0 where
  issued committed revealed settled forfeited : Phase

pub record LedgerRow : Type 0 where
  pub revision : ℕ
  pub start_key : Text
  pub ticket : EncounterTicket
  pub secret : Text
  pub phase : Phase
  pub commitment : Option EncounterCommit
  pub committed_at : Option ℕ
  pub reveal : Option EncounterReveal
  pub receipt : Option EncounterReceipt
  pub termination : Option EncounterTermination
  pub evidence_hold : Bool
  pub retention_released : Bool
  pub admitted_assets : List Text
  pub archive_custody : Option ArchiveCustody
  pub recovery_released : Bool
