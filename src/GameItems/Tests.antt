-- ===== src/GameItems/Tests.antt =====
-- A game with one item, and the theorems at it.
use converge_audit.Prelude.{ℕ, zero, suc, ◌≡◌, ◌≢◌, ◌↔◌, refl, Bool, false, some, [], ◌∷◌, ok, err}
use converge_audit.Prelude.Text.{Text, codes, text_eq}
use converge_audit.GameItems.State.{pos, InventoryItem, GameState, provisional, rare}
use converge_audit.GameItems.Receipts.{
  ItemVerificationReceipt, verification_conflict, receipt_invalid, same_verification, find_asset,
  set_at, apply_item_verification, listing_eligibility,
}
use converge_audit.GameItems.Settled.{
  FirstAt, LeadsTo, settled, receipt_applied_iff, receipt_settles,
}

abbrev repeated : ℕ → ℕ → Text
repeated zero c = []
repeated (suc n) c = c ∷ repeated n c

abbrev blade : InventoryItem
blade = record {
  asset_id = codes "loot-v1:blade";
  owner_id = codes "ann";
  item_type = codes "ember-blade";
  rarity = rare;
  power = 40;
  source_enemy_id = codes "enemy-0";
  kill_tick = 15;
  drop_index = 0;
  audit = provisional;
}

abbrev game : GameState
game = record {
  seed = 7;
  tick = 15;
  player = record { id = codes "ann"; x = pos 640; y = pos 360; hp = pos 3; max_hp = pos 3 };
  enemies = [];
  telegraphs = [];
  drops = [];
  inventory = blade ∷ [];
}

abbrev receipt_at : ℕ → ItemVerificationReceipt
receipt_at epoch = record {
  asset_id = codes "loot-v1:blade";
  owner_id = codes "ann";
  verification = record {
    authority_receipt_id = codes "receipt-1";
    owner_public_key = repeated 64 b'a';
    owner_version = 0;
    owner_head_id = repeated 64 b'b';
    checkpoint_digest = codes "digest";
    inventory_epoch = epoch;
  };
}

run_of_receipt : ItemVerificationReceipt → Bool
unfolding apply_item_verification receipt_invalid find_asset set_at same_verification text_eq
run_of_receipt r = receipt_invalid r

receipt_applied :
    apply_item_verification game (receipt_at 1) ≡ ok (settled game (receipt_at 1) 0 blade)
unfolding run_of_receipt
receipt_applied = refl

other_valid : receipt_invalid (receipt_at 2) ≡ false
unfolding run_of_receipt
other_valid = refl

other_epoch : (receipt_at 2).verification ≢ (receipt_at 1).verification
other_epoch e = cc

abbrev after_receipt : GameState
after_receipt = settled game (receipt_at 1) 0 blade

receipt_applied_iff_example :
    (apply_item_verification game (receipt_at 1) ≡ ok after_receipt)
    ↔ LeadsTo game (receipt_at 1) after_receipt
receipt_applied_iff_example = receipt_applied_iff game after_receipt (receipt_at 1)

receipt_settles_example :
    ((n : ℕ) × (item : InventoryItem) × FirstAt
        (codes "loot-v1:blade")
        after_receipt.inventory
        n
        item
      × (listing_eligibility item ≡ some (receipt_at 1).verification))
    × (apply_item_verification after_receipt (receipt_at 1) ≡ ok after_receipt)
    × (apply_item_verification after_receipt (receipt_at 2) ≡ err verification_conflict)
receipt_settles_example =
    receipt_settles game after_receipt (receipt_at 1) (receipt_at 2) receipt_applied other_valid
      refl refl other_epoch
