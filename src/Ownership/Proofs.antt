-- ===== src/Ownership/Proofs.antt =====
-- The statements that an owner signs, and signing and verifying them
-- (examples/cf-game-audit/game/authority/owner-authentication.ts). Digest, signer and verifier are
-- supplied by the platform: they are arguments.
use converge_audit.Prelude.{
  ℕ, ◌%◌, ◌^◌, Bool, not, ◌&&◌, Option, none, some, [], ◌∷◌, if◌then◌else◌, Result, ok, ◌>>◌,
  refuse_if,
}
use converge_audit.Prelude.Text.{Text, codes, text_eq}
use converge_audit.Prelude.Json.{Json, num, str, array, stringify}

pub record OwnerSigner : Type 0 where
  pub public_key : Text
  pub sign_digest : Text → Text

-- A public key, a digest and a signature.
abbrev pub SignatureVerifier : Type 0
SignatureVerifier = Text → Text → Text → Bool

pub record ItemOwnerBoundary : Type 0 where
  pub player_id : Text
  pub seed : ℕ
  pub checkpoint_digest : Text
  pub asset_id : Text
  pub owner_public_key : Text

pub record ListingBoundary : Type 0 where
  pub asset_id : Text
  pub seller_id : Text
  pub authority_receipt_id : Text
  pub owner_public_key : Text
  pub owner_version : ℕ
  pub owner_head_id : Text
  pub listing_nonce : Text

pub record CancelBoundary : Type 0 where
  pub listing : ListingBoundary
  pub open listing use *
  pub listing_id : Text

pub record TransferBoundary : Type 0 where
  pub asset_id : Text
  pub authority_receipt_id : Text
  pub previous_head_id : Text
  pub from_owner_id : Text
  pub from_owner_public_key : Text
  pub to_owner_id : Text
  pub to_owner_public_key : Text
  pub previous_version : ℕ
  pub next_version : ℕ

-- `boundary.seed >>> 0`
abbrev pub to_uint32 : ℕ → ℕ
to_uint32 n = n % 2 ^ 32

abbrev pub item_owner_json : Text → ItemOwnerBoundary → Json
item_owner_json unit b = array (
    str (codes "audit-survivors-item-owner-proof-v1")
    ∷ str unit
    ∷ str b.player_id
    ∷ num (to_uint32 b.seed)
    ∷ str b.checkpoint_digest
    ∷ str b.asset_id
    ∷ str b.owner_public_key
    ∷ [])

unfoldable pub canonical_item_owner_proof : Text → ItemOwnerBoundary → Text
canonical_item_owner_proof unit b = stringify (item_owner_json unit b)

-- The fields that a listing's proof and its identity share.
abbrev pub listing_json : Text → Text → ListingBoundary → Json
listing_json domain unit b = array (
    str domain
    ∷ str unit
    ∷ str b.asset_id
    ∷ str b.seller_id
    ∷ str b.authority_receipt_id
    ∷ str b.owner_public_key
    ∷ num b.owner_version
    ∷ str b.owner_head_id
    ∷ str b.listing_nonce
    ∷ [])

unfoldable pub canonical_market_listing_proof : Text → ListingBoundary → Text
canonical_market_listing_proof unit b =
    stringify (listing_json (codes "audit-survivors-market-listing-owner-proof-v2") unit b)

unfoldable pub canonical_market_listing : Text → ListingBoundary → Text
canonical_market_listing unit b =
    stringify (listing_json (codes "audit-survivors-market-listing-v3") unit b)

abbrev pub cancel_json : Text → CancelBoundary → Json
cancel_json unit b = array (
    str (codes "audit-survivors-market-listing-cancel-proof-v2")
    ∷ str unit
    ∷ str b.listing_id
    ∷ str b.asset_id
    ∷ str b.seller_id
    ∷ str b.authority_receipt_id
    ∷ str b.owner_public_key
    ∷ num b.owner_version
    ∷ str b.owner_head_id
    ∷ str b.listing_nonce
    ∷ [])

unfoldable pub canonical_market_listing_cancel_proof : Text → CancelBoundary → Text
canonical_market_listing_cancel_proof unit b = stringify (cancel_json unit b)

abbrev pub transfer_json : Text → TransferBoundary → Json
transfer_json unit b = array (
    str (codes "audit-survivors-item-transfer-proof-v1")
    ∷ str unit
    ∷ str b.asset_id
    ∷ str b.authority_receipt_id
    ∷ str b.previous_head_id
    ∷ str b.from_owner_id
    ∷ str b.from_owner_public_key
    ∷ str b.to_owner_id
    ∷ str b.to_owner_public_key
    ∷ num b.previous_version
    ∷ num b.next_version
    ∷ [])

unfoldable pub canonical_item_transfer_proof : Text → TransferBoundary → Text
canonical_item_transfer_proof unit b = stringify (transfer_json unit b)

module _ (hash_string : Text → Text) where
  abbrev pub item_owner_proof_digest : Text → ItemOwnerBoundary → Text
  item_owner_proof_digest unit b = hash_string (canonical_item_owner_proof unit b)

  abbrev pub market_listing_proof_digest : Text → ListingBoundary → Text
  market_listing_proof_digest unit b = hash_string (canonical_market_listing_proof unit b)

  abbrev pub market_listing_id : Text → ListingBoundary → Text
  market_listing_id unit b = hash_string (canonical_market_listing unit b)

  abbrev pub market_listing_cancel_proof_digest : Text → CancelBoundary → Text
  market_listing_cancel_proof_digest unit b =
      hash_string (canonical_market_listing_cancel_proof unit b)

  abbrev pub item_transfer_proof_digest : Text → TransferBoundary → Text
  item_transfer_proof_digest unit b = hash_string (canonical_item_transfer_proof unit b)

  -- Signing; `none` where it throws.
  unfoldable pub sign_item_owner_proof : Text → ItemOwnerBoundary → OwnerSigner → Option Text
  sign_item_owner_proof unit b signer =
      if not (text_eq b.owner_public_key signer.public_key)
      then none
      else some (signer.sign_digest (item_owner_proof_digest unit b))

  unfoldable pub sign_market_listing_proof : Text → ListingBoundary → OwnerSigner → Option Text
  sign_market_listing_proof unit b signer =
      if not (text_eq b.owner_public_key signer.public_key)
      then none
      else some (signer.sign_digest (market_listing_proof_digest unit b))

  unfoldable pub sign_market_listing_cancel_proof :
      Text → CancelBoundary → OwnerSigner → Option Text
  sign_market_listing_cancel_proof unit b signer =
      if not (text_eq b.owner_public_key signer.public_key)
      then none
      else some (signer.sign_digest (market_listing_cancel_proof_digest unit b))

  unfoldable pub sign_item_transfer_proof : Text → TransferBoundary → OwnerSigner → Option Text
  sign_item_transfer_proof unit b signer =
      if not (text_eq signer.public_key b.from_owner_public_key)
        && not (text_eq signer.public_key b.to_owner_public_key)
      then none
      else some (signer.sign_digest (item_transfer_proof_digest unit b))

  module _ (verify : SignatureVerifier) where
    unfoldable pub verify_item_owner_proof : Text → ItemOwnerBoundary → Text → Bool
    verify_item_owner_proof unit b signature =
        verify b.owner_public_key (item_owner_proof_digest unit b) signature

    unfoldable pub verify_market_listing_proof : Text → ListingBoundary → Text → Bool
    verify_market_listing_proof unit b signature =
        verify b.owner_public_key (market_listing_proof_digest unit b) signature

    unfoldable pub verify_market_listing_cancel_proof : Text → CancelBoundary → Text → Bool
    verify_market_listing_cancel_proof unit b signature =
        verify b.owner_public_key (market_listing_cancel_proof_digest unit b) signature

pub data TransferRefusal : Type 0 where
  invalid_transfer authority_receipt_mismatch stale_owner_head : TransferRefusal
  invalid_owner_version unchanged_owner : TransferRefusal
  sender_authentication_refused recipient_authentication_refused : TransferRefusal

unfoldable pub verify_item_transfer_proof :
    (Text → Text)
    → SignatureVerifier
    → Text
    → TransferBoundary
    → Text
    → Text
    → Result TransferRefusal (Unit {0})
verify_item_transfer_proof hash_string verify unit b sender_signature recipient_signature = do
  let proof_digest = item_transfer_proof_digest hash_string unit b
  refuse_if (not (verify b.from_owner_public_key proof_digest sender_signature))
      sender_authentication_refused
  refuse_if (not (verify b.to_owner_public_key proof_digest recipient_signature))
      recipient_authentication_refused
  ok tt
