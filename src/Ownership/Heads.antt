-- ===== src/Ownership/Heads.antt =====
-- Owner heads and transfers (examples/cf-game-audit/game/authority/asset-ownership.ts).
use converge_audit.Prelude.{
  ℕ, ◌+◌, Bool, not, ◌&&◌, ◌||◌, Option, none, some, [], ◌∷◌, if◌then◌else◌, ◌==◌, Result, ok, ◌>>◌,
  refuse_if,
}
use converge_audit.Prelude.Text.{
  Text, codes, text_eq, bounded_text, is_hex, safe_non_negative_integer, max_safe_integer,
}
use converge_audit.Prelude.Json.{Json, num, str, array, stringify}
use converge_audit.Ownership.Proofs.{
  TransferBoundary, SignatureVerifier, TransferRefusal, invalid_transfer,
  authority_receipt_mismatch, stale_owner_head, invalid_owner_version, unchanged_owner,
  item_transfer_proof_digest, verify_item_transfer_proof,
}

pub record AssetOrigin : Type 0 where
  pub asset_id : Text
  pub authority_receipt_id : Text
  pub owner_id : Text
  pub owner_public_key : Text

-- `Omit<GameAssetOwnershipHead, "headId">`
pub record HeadContent : Type 0 where
  pub origin : AssetOrigin
  pub open origin use *
  pub version : ℕ
  pub last_transfer_id : Text

pub record OwnershipHead : Type 0 where
  pub content : HeadContent
  pub open content use *
  pub head_id : Text

pub record TransferRequest : Type 0 where
  pub boundary : TransferBoundary
  pub open boundary use *
  pub sender_signature : Text
  pub recipient_signature : Text

abbrev is_bounded : Text → ℕ → Bool
is_bounded = bounded_text

abbrev is_digest : Text → Bool
is_digest = is_hex 64

abbrev is_public_key : Text → Bool
is_public_key = is_hex 64

abbrev is_signature : Text → Bool
is_signature = is_hex 128

abbrev is_safe_version : ℕ → Bool
is_safe_version = safe_non_negative_integer

abbrev pub head_json : Text → HeadContent → Json
head_json unit h = array (
    str (codes "audit-survivors-asset-owner-head-v1")
    ∷ str unit
    ∷ str h.asset_id
    ∷ str h.authority_receipt_id
    ∷ str h.owner_id
    ∷ str h.owner_public_key
    ∷ num h.version
    ∷ str h.last_transfer_id
    ∷ [])

unfoldable pub canonical_asset_ownership_head : Text → HeadContent → Text
canonical_asset_ownership_head unit h = stringify (head_json unit h)

module _ (hash_string : Text → Text) (unit : Text) where
  abbrev pub asset_ownership_head_id : HeadContent → Text
  asset_ownership_head_id h = hash_string (canonical_asset_ownership_head unit h)

  abbrev pub ownership_head_with_id : HeadContent → OwnershipHead
  ownership_head_with_id h = record { content = h; head_id = asset_ownership_head_id h }

  -- `none` where it throws.
  unfoldable pub create_initial_asset_ownership_head : AssetOrigin → Option OwnershipHead
  create_initial_asset_ownership_head origin =
      if not (is_bounded unit 128)
        || not (is_bounded origin.asset_id 1024)
        || not (is_digest origin.authority_receipt_id)
        || not (is_bounded origin.owner_id 256)
        || not (is_public_key origin.owner_public_key)
      then none
      else some (
          ownership_head_with_id (record {
            origin = origin;
            version = 0;
            last_transfer_id = origin.authority_receipt_id;
          }))

-- The shape of a request, before it is compared with the head.
unfoldable pub request_well_formed : Text → TransferRequest → Bool
request_well_formed unit r =
    is_bounded unit 128
    && is_bounded r.asset_id 1024
    && is_digest r.authority_receipt_id
    && is_digest r.previous_head_id
    && is_bounded r.from_owner_id 256
    && is_public_key r.from_owner_public_key
    && is_bounded r.to_owner_id 256
    && is_public_key r.to_owner_public_key
    && is_safe_version r.previous_version
    && is_safe_version r.next_version
    && is_signature r.sender_signature
    && is_signature r.recipient_signature

unfoldable pub names_current : OwnershipHead → TransferRequest → Bool
names_current current r =
    text_eq current.head_id r.previous_head_id
    && text_eq current.owner_id r.from_owner_id
    && text_eq current.owner_public_key r.from_owner_public_key
    && current.version == r.previous_version

pub record AppliedTransfer : Type 0 where
  pub transfer_id : Text
  pub head : OwnershipHead

-- The head that a transfer leads to.
abbrev pub next_head : (Text → Text) → Text → TransferRequest → OwnershipHead
next_head hash_string unit r = ownership_head_with_id hash_string unit (record {
  origin = record {
    asset_id = r.asset_id;
    authority_receipt_id = r.authority_receipt_id;
    owner_id = r.to_owner_id;
    owner_public_key = r.to_owner_public_key;
  };
  version = r.next_version;
  last_transfer_id = item_transfer_proof_digest hash_string unit r.boundary;
})

unfoldable pub verify_and_apply_item_transfer :
    (Text → Text)
    → SignatureVerifier
    → Text
    → OwnershipHead
    → TransferRequest
    → Result TransferRefusal AppliedTransfer
verify_and_apply_item_transfer hash_string verify unit current r = do
  refuse_if (not (request_well_formed unit r)) invalid_transfer
  refuse_if
      (not (text_eq current.authority_receipt_id r.authority_receipt_id)
        || not (text_eq current.asset_id r.asset_id))
      authority_receipt_mismatch
  refuse_if (not (names_current current r)) stale_owner_head
  refuse_if
      (r.previous_version == max_safe_integer || not (r.next_version == r.previous_version + 1))
      invalid_owner_version
  refuse_if
      (text_eq r.from_owner_id r.to_owner_id
        && text_eq r.from_owner_public_key r.to_owner_public_key)
      unchanged_owner
  verify_item_transfer_proof hash_string verify unit r.boundary r.sender_signature
      r.recipient_signature
  ok (record {
    transfer_id = item_transfer_proof_digest hash_string unit r.boundary;
    head = next_head hash_string unit r;
  })
