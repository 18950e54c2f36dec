-- ===== src/Ownership/Transfers.antt =====
-- When a transfer is accepted
-- (examples/cf-game-audit/game/authority/asset-ownership.ts).
use converge_audit.Prelude.{
  ◌+◌, ◌≤◌, ◌≡◌, ◌≢◌, refl, sym, ap, ◌∙◌, ◌↔◌, ◌⊎◌, inl, inr, true, some, arith, ok,
}
use converge_audit.Prelude.Text.{Text, text_eq_iff, max_safe_integer}
use converge_audit.Ownership.Proofs.{
  OwnerSigner, SignatureVerifier, item_transfer_proof_digest, verify_item_transfer_proof,
  sign_item_transfer_proof,
}
use converge_audit.Ownership.Heads.{
  OwnershipHead, TransferRequest, AppliedTransfer, request_well_formed, names_current, next_head,
  verify_and_apply_item_transfer,
}

-- The request is about this head.
abbrev pub Names : OwnershipHead → TransferRequest → Type 0
Names current r =
    (current.head_id ≡ r.previous_head_id)
    × (current.owner_id ≡ r.from_owner_id)
    × (current.owner_public_key ≡ r.from_owner_public_key)
    × (current.version ≡ r.previous_version)

pub Names-iff :
    (current : OwnershipHead) (r : TransferRequest)
    → (names_current current r ≡ true) ↔ Names current r
unfolding names_current
Names-iff current r = ground (
  arith,
  text_eq_iff current.head_id r.previous_head_id,
  text_eq_iff current.owner_id r.from_owner_id,
  text_eq_iff current.owner_public_key r.from_owner_public_key,
)

module _ (hash_string : Text → Text) (verify : SignatureVerifier) (unit : Text) where
  -- Everything that the acceptance of a transfer rests on.
  pub record Transferable (current : OwnershipHead) (r : TransferRequest) : Type 0 where
    pub well_formed : request_well_formed unit r ≡ true
    pub same_receipt : current.authority_receipt_id ≡ r.authority_receipt_id
    pub same_asset : current.asset_id ≡ r.asset_id
    pub current_head : Names current r
    pub version_left : r.previous_version ≢ max_safe_integer
    pub next : r.next_version ≡ r.previous_version + 1
    pub owner_changes :
        (r.from_owner_id ≡ r.to_owner_id) → r.from_owner_public_key ≡ r.to_owner_public_key → ⊥
    pub sender_signed :
        verify r.from_owner_public_key
          (item_transfer_proof_digest hash_string unit r.boundary)
          r.sender_signature
        ≡ true
    pub recipient_signed :
        verify r.to_owner_public_key
          (item_transfer_proof_digest hash_string unit r.boundary)
          r.recipient_signature
        ≡ true

  abbrev pub applied : TransferRequest → AppliedTransfer
  applied r = record {
    transfer_id = item_transfer_proof_digest hash_string unit r.boundary;
    head = next_head hash_string unit r;
  }

  pub Transferable-applies :
      (current : OwnershipHead) (r : TransferRequest)
      → Transferable current r
      → verify_and_apply_item_transfer hash_string verify unit current r ≡ ok (applied r)
  unfolding verify_and_apply_item_transfer verify_item_transfer_proof
  Transferable-applies current r h = ground (
    arith,
    (Names-iff current r).1 h.current_head,
    text_eq_iff current.authority_receipt_id r.authority_receipt_id,
    text_eq_iff current.asset_id r.asset_id,
    text_eq_iff r.from_owner_id r.to_owner_id,
    text_eq_iff r.from_owner_public_key r.to_owner_public_key,
  )

  pub applied-Transferable :
      (current : OwnershipHead) (r : TransferRequest) {out : AppliedTransfer}
      → verify_and_apply_item_transfer hash_string verify unit current r ≡ ok out
      → Transferable current r × (out ≡ applied r)
  unfolding verify_and_apply_item_transfer verify_item_transfer_proof
  applied-Transferable current r h = ground (
    arith,
    Names-iff current r,
    text_eq_iff current.authority_receipt_id r.authority_receipt_id,
    text_eq_iff current.asset_id r.asset_id,
    text_eq_iff r.from_owner_id r.to_owner_id,
    text_eq_iff r.from_owner_public_key r.to_owner_public_key,
  )

-- A transfer is accepted, with the digest of its text and the next head as the result, exactly when
-- the request is well formed, is for the head's receipt and asset, names the head's identity, owner,
-- key and version, has the next version and another owner or key, and both the sender's and the
-- recipient's keys verify their signatures over the digest of the transfer's canonical text.
pub transfer_accepts_iff :
    (hash_string : Text → Text) (verify : SignatureVerifier) (unit : Text) (current : OwnershipHead)
    (r : TransferRequest)
    → ((out : AppliedTransfer) × (verify_and_apply_item_transfer hash_string verify unit current r
          ≡ ok out)
        × (out.head ≡ next_head hash_string unit r)
        × (out.transfer_id ≡ item_transfer_proof_digest hash_string unit r.boundary))
      ↔ Transferable hash_string verify unit current r
transfer_accepts_iff hash_string verify unit current r = (
  λ p. (applied-Transferable hash_string verify unit current r (p.1)).0,
  λ h. (
    applied hash_string verify unit r,
    Transferable-applies hash_string verify unit current r h,
    refl,
    refl,
  ),
)

-- The request with the signatures of two signers over the digest of its transfer.
abbrev pub signed_by :
    (Text → Text) → Text → OwnerSigner → OwnerSigner → TransferRequest → TransferRequest
signed_by hash_string unit sender recipient r = record r {
  sender_signature = sender.sign_digest (item_transfer_proof_digest hash_string unit r.boundary);
  recipient_signature =
      recipient.sign_digest (item_transfer_proof_digest hash_string unit r.boundary);
}

may_sign :
    (hash_string : Text → Text) (unit : Text) (signer : OwnerSigner) (r : TransferRequest)
    → (signer.public_key ≡ r.from_owner_public_key) ⊎ (signer.public_key ≡ r.to_owner_public_key)
    → sign_item_transfer_proof hash_string unit r.boundary signer
      ≡ some (signer.sign_digest (item_transfer_proof_digest hash_string unit r.boundary))
unfolding sign_item_transfer_proof
may_sign hash_string unit signer r (inl e) =
    ground (arith, (text_eq_iff signer.public_key r.from_owner_public_key).1 e)
may_sign hash_string unit signer r (inr e) =
    ground (arith, (text_eq_iff signer.public_key r.to_owner_public_key).1 e)

-- A signer who holds the sender's key and one who holds the recipient's, whose signatures the
-- verifier accepts, can both sign a transfer, and the request with their signatures is accepted,
-- with the next head as the result, if it is well formed, is for the head's receipt and asset, names
-- the head, has the next version, and changes the owner or the key.
pub apply-sign :
    (hash_string : Text → Text) (verify : SignatureVerifier) (unit : Text) (current : OwnershipHead)
    (sender recipient : OwnerSigner) (r : TransferRequest)
    → ((d : Text) → verify sender.public_key d (sender.sign_digest d) ≡ true)
    → ((d : Text) → verify recipient.public_key d (recipient.sign_digest d) ≡ true)
    → sender.public_key ≡ r.from_owner_public_key
    → recipient.public_key ≡ r.to_owner_public_key
    → request_well_formed unit (signed_by hash_string unit sender recipient r) ≡ true
    → (current.authority_receipt_id ≡ r.authority_receipt_id) × (current.asset_id ≡ r.asset_id)
    → Names current r
    → (r.next_version ≡ r.previous_version + 1) × (r.next_version ≤ max_safe_integer)
    → (r.from_owner_id ≡ r.to_owner_id → r.from_owner_public_key ≡ r.to_owner_public_key → ⊥)
    → let request = signed_by hash_string unit sender recipient r in
      (sign_item_transfer_proof hash_string unit r.boundary sender ≡ some request.sender_signature)
      × (sign_item_transfer_proof hash_string unit r.boundary recipient
          ≡ some request.recipient_signature)
      × (verify_and_apply_item_transfer hash_string verify unit current request
          ≡ ok (applied hash_string verify unit request))
apply-sign hash_string verify unit current sender recipient r vs vr ks kr wf origin names version
      owner =
    let digest = item_transfer_proof_digest hash_string unit r.boundary in
    (
      may_sign hash_string unit sender r (inl ks),
      may_sign hash_string unit recipient r (inr kr),
      Transferable-applies hash_string verify unit current
          (signed_by hash_string unit sender recipient r)
          (record {
            well_formed = wf;
            same_receipt = origin.0;
            same_asset = origin.1;
            current_head = names;
            version_left = λ e. omega (arith, version, e);
            next = version.0;
            owner_changes = owner;
            sender_signed =
                ap (λ k. verify k digest (sender.sign_digest digest)) (sym ks) ∙ vs digest;
            recipient_signed =
                ap (λ k. verify k digest (recipient.sign_digest digest)) (sym kr) ∙ vr digest;
          }),
    )
