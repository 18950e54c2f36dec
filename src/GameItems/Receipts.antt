-- ===== src/GameItems/Receipts.antt =====
-- Applying a verification receipt, and whether an item may be listed
-- (examples/cf-game-audit/game/kernel.ts).
use converge_audit.Prelude.{
  ℕ, zero, suc, Bool, not, ◌&&◌, ◌||◌, Option, none, some, List, [], ◌∷◌, length, ◌==◌,
  if◌then◌else◌, Result, ok, err, ◌>>=◌, ◌>>◌, refuse_if,
}
use converge_audit.Prelude.Text.{Text, text_eq, is_hex, safe_non_negative_integer}
use converge_audit.GameItems.State.{
  InventoryItem, GameState, Verification, ItemAuditState, provisional, verified,
}

pub record ItemVerificationReceipt : Type 0 where
  pub asset_id : Text
  pub owner_id : Text
  pub verification : Verification
  pub open verification use *

pub data ReceiptRefusal : Type 0 where
  invalid_receipt unknown_asset owner_mismatch verification_conflict : ReceiptRefusal

-- What allows a listing; `none` is `awaiting_checkpoint`.
unfoldable pub listing_eligibility : InventoryItem → Option Verification
listing_eligibility item = elim (item.audit) [ provisional ↦ none | verified v ↦ some v ]

unfoldable pub receipt_invalid : ItemVerificationReceipt → Bool
receipt_invalid r =
    length r.authority_receipt_id == 0
    || length r.asset_id == 0
    || length r.owner_id == 0
    || not (is_hex 64 r.owner_public_key)
    || not (safe_non_negative_integer r.owner_version)
    || not (is_hex 64 r.owner_head_id)
    || length r.checkpoint_digest == 0
    || not (safe_non_negative_integer r.inventory_epoch)

unfoldable pub same_verification : Verification → Verification → Bool
same_verification v w =
    text_eq v.authority_receipt_id w.authority_receipt_id
    && text_eq v.owner_public_key w.owner_public_key
    && v.owner_version == w.owner_version
    && text_eq v.owner_head_id w.owner_head_id
    && text_eq v.checkpoint_digest w.checkpoint_digest
    && v.inventory_epoch == w.inventory_epoch

abbrev pub one_later : Option (ℕ × InventoryItem) → Option (ℕ × InventoryItem)
one_later none = none
one_later (some (n, x)) = some (suc n, x)

-- The place of the first item with the asset, and the item.
unfoldable pub find_asset : Text → List InventoryItem → Option (ℕ × InventoryItem)
find_asset asset [] = none
find_asset asset (item ∷ rest) =
    let later = one_later (find_asset asset rest) in
    if text_eq item.asset_id asset then some (0, item) else later

-- `inventory[index] = item`, for an index in range.
unfoldable pub set_at : ℕ → InventoryItem → List InventoryItem → List InventoryItem
set_at index item [] = []
set_at zero item (x ∷ rest) = item ∷ rest
set_at (suc index) item (x ∷ rest) = x ∷ set_at index item rest

abbrev pub verified_by : ItemVerificationReceipt → InventoryItem → InventoryItem
verified_by r item = record item { audit = verified r.verification }

abbrev pub settle :
    GameState
    → ItemVerificationReceipt
    → ℕ
    → InventoryItem
    → ItemAuditState
    → Result ReceiptRefusal GameState
settle state r index item provisional =
    ok (record state { inventory = set_at index (verified_by r item) state.inventory })
settle state r index item (verified v) = do
  refuse_if (not (same_verification v r.verification)) verification_conflict
  ok state

abbrev pub or_unknown : Option (ℕ × InventoryItem) → Result ReceiptRefusal (ℕ × InventoryItem)
or_unknown none = err unknown_asset
or_unknown (some found) = ok found

unfoldable pub apply_item_verification :
    GameState → ItemVerificationReceipt → Result ReceiptRefusal GameState
apply_item_verification state r = do
  refuse_if (receipt_invalid r) invalid_receipt
  found ← or_unknown (find_asset r.asset_id state.inventory)
  refuse_if (not (text_eq found.1.owner_id r.owner_id)) owner_mismatch
  settle state r found.0 found.1 found.1.audit
