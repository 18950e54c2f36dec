-- ===== src/GameItems/State.antt =====
-- The state of the game (examples/cf-game-audit/game/contracts.ts). Coordinates and hit points may
-- be negative.
use converge_audit.Prelude.{ℕ, List}
use converge_audit.Prelude.Text.{Text}
pub use converge_audit.Prelude.Int.{ℤ, pos, negsuc}

pub record PlayerState : Type 0 where
  pub id : Text
  pub x : ℤ
  pub y : ℤ
  pub hp : ℤ
  pub max_hp : ℤ

pub record EnemyState : Type 0 where
  pub id : Text
  pub x : ℤ
  pub y : ℤ
  pub hp : ℤ
  pub max_hp : ℤ

pub record TelegraphState : Type 0 where
  pub id : Text
  pub x : ℤ
  pub y : ℤ
  pub radius : ℤ
  pub start_tick : ℕ
  pub resolve_tick : ℕ
  pub damage : ℤ

pub data ItemRarity : Type 0 where
  common magic rare legendary : ItemRarity

-- What a verified item carries.
pub record Verification : Type 0 where
  pub authority_receipt_id : Text
  pub owner_public_key : Text
  pub owner_version : ℕ
  pub owner_head_id : Text
  pub checkpoint_digest : Text
  pub inventory_epoch : ℕ

pub data ItemAuditState : Type 0 where
  provisional : ItemAuditState
  verified : Verification → ItemAuditState

pub record InventoryItem : Type 0 where
  pub asset_id : Text
  pub owner_id : Text
  pub item_type : Text
  pub rarity : ItemRarity
  pub power : ℕ
  pub source_enemy_id : Text
  pub kill_tick : ℕ
  pub drop_index : ℕ
  pub audit : ItemAuditState

pub record GroundDrop : Type 0 where
  pub id : Text
  pub x : ℤ
  pub y : ℤ
  pub item : InventoryItem

pub record GameState : Type 0 where
  pub seed : ℕ
  pub tick : ℕ
  pub player : PlayerState
  pub enemies : List EnemyState
  pub telegraphs : List TelegraphState
  pub drops : List GroundDrop
  pub inventory : List InventoryItem
