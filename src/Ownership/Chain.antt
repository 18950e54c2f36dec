-- ===== src/Ownership/Chain.antt =====
-- The chain of heads that accepted transfers build
-- (examples/cf-game-audit/game/authority/asset-ownership.ts).
use converge_audit.Prelude.{
  ℕ, suc, ◌≤◌, ◌≡◌, ◌≢◌, refl, sym, ap, subst, ◌∙◌, true, false, some, List, [], ◌∷◌, length, arith,
  ok, err,
}
use converge_audit.Prelude.Text.{Text, text_eq_iff, max_safe_integer}
use converge_audit.Ownership.Proofs.{
  SignatureVerifier, TransferBoundary, stale_owner_head, canonical_item_transfer_proof,
}
use converge_audit.Ownership.Heads.{
  AssetOrigin, OwnershipHead, TransferRequest, AppliedTransfer, request_well_formed, names_current,
  next_head, asset_ownership_head_id, create_initial_asset_ownership_head,
  verify_and_apply_item_transfer, canonical_asset_ownership_head,
}
use converge_audit.Ownership.Transfers.{Transferable, applied-Transferable}

module _ (hash_string : Text → Text) (verify : SignatureVerifier) (unit : Text) where
  -- The heads reached from an origin, with the transfers that led there, the last one first.
  pub data Reached : AssetOrigin → List TransferBoundary → OwnershipHead → Type 0 where
    initial :
        {o : AssetOrigin} {h : OwnershipHead}
        → create_initial_asset_ownership_head hash_string unit o ≡ some h
        → Reached o [] h
    transferred :
        {o : AssetOrigin} {ts : List TransferBoundary} {h h' : OwnershipHead} {b : TransferBoundary}
        → Reached o ts h
        → (r : TransferRequest) (out : AppliedTransfer)
        → verify_and_apply_item_transfer hash_string verify unit h r ≡ ok out
        → h' ≡ out.head
        → b ≡ r.boundary
        → Reached o (b ∷ ts) h'

  -- What every reached head keeps of its origin, and how it is numbered and named.
  pub record IsHeadOf (o : AssetOrigin) (n : ℕ) (h : OwnershipHead) : Type 0 where
    pub same_asset : h.asset_id ≡ o.asset_id
    pub same_receipt : h.authority_receipt_id ≡ o.authority_receipt_id
    pub numbered : h.version ≡ n
    pub safe_version : n ≤ max_safe_integer
    pub identified : h.head_id ≡ asset_ownership_head_id hash_string unit h.content

  pub initial-head :
      (o : AssetOrigin) (h : OwnershipHead)
      → create_initial_asset_ownership_head hash_string unit o ≡ some h
      → (h.origin ≡ o)
        × (h.version ≡ 0)
        × (h.head_id ≡ asset_ownership_head_id hash_string unit h.content)
  unfolding create_initial_asset_ownership_head
  initial-head o h e = ground arith

  next-IsHeadOf :
      (o : AssetOrigin) (n : ℕ) (h : OwnershipHead) (r : TransferRequest)
      → Transferable hash_string verify unit h r
      → IsHeadOf o n h
      → IsHeadOf o (suc n) (next_head hash_string unit r)
  unfolding request_well_formed
  next-IsHeadOf o n h r t i = record {
    same_asset = sym t.same_asset ∙ i.same_asset;
    same_receipt = sym t.same_receipt ∙ i.same_receipt;
    numbered = omega (arith, t.next, t.current_head, i.numbered);
    safe_version = ground (arith, t.well_formed, t.next, t.current_head, i.numbered);
    identified = refl;
  }

  -- The texts that were hashed on the way.
  abbrev pub hashed :
      {o : AssetOrigin} {ts : List TransferBoundary} {h : OwnershipHead}
      → Reached o ts h
      → List Text
  hashed {h = h} (initial e) = canonical_asset_ownership_head unit h.content ∷ []
  hashed {h = h} (transferred p r out e same b) =
      canonical_asset_ownership_head unit h.content
      ∷ canonical_item_transfer_proof unit r.boundary
      ∷ hashed p

  pub Reached-IsHeadOf :
      {o : AssetOrigin} {ts : List TransferBoundary} {h : OwnershipHead}
      → Reached o ts h
      → IsHeadOf o (length ts) h
  Reached-IsHeadOf {o} {h = h} (initial e) =
      let (origin, version, head) = initial-head o h e in
      record {
        same_asset = ap (λ (x : AssetOrigin). x.asset_id) origin;
        same_receipt = ap (λ (x : AssetOrigin). x.authority_receipt_id) origin;
        numbered = version;
        safe_version = omega arith;
        identified = head;
      }
  Reached-IsHeadOf {o} (transferred {ts = ts} {h = h} p r out e same b) =
      let (t, made) = applied-Transferable hash_string verify unit h r e in
      let head : out.head ≡ next_head hash_string unit r =
        ap (λ (x : AppliedTransfer). x.head) made in
      subst (IsHeadOf o (suc (length ts))) (sym (same ∙ head))
        (next-IsHeadOf o (length ts) h r t (Reached-IsHeadOf p))

  stale_version :
      (h : OwnershipHead) (r : TransferRequest)
      → h.version ≢ r.previous_version
      → names_current h r ≡ false
  unfolding names_current
  stale_version h r ne = ground arith

  refused_stale :
      (h : OwnershipHead) (r : TransferRequest)
      → request_well_formed unit r ≡ true
      → h.authority_receipt_id ≡ r.authority_receipt_id
      → h.asset_id ≡ r.asset_id
      → names_current h r ≡ false
      → verify_and_apply_item_transfer hash_string verify unit h r ≡ err stale_owner_head
  unfolding verify_and_apply_item_transfer
  refused_stale h r wf receipt asset stale = ground (
    arith,
    text_eq_iff h.authority_receipt_id r.authority_receipt_id,
    text_eq_iff h.asset_id r.asset_id,
  )

-- A request that one head of an asset's chain accepts is refused as stale by every head of the
-- chain with another number of transfers behind it: no transfer is applied twice, and none after
-- another that it did not follow.
pub transfer_replay_refused :
    (hash_string : Text → Text) (verify : SignatureVerifier) (unit : Text) (o : AssetOrigin)
    (ts us : List TransferBoundary) (h later : OwnershipHead) (r : TransferRequest)
    (out : AppliedTransfer)
    → Reached hash_string verify unit o ts h
    → Reached hash_string verify unit o us later
    → length ts ≢ length us
    → verify_and_apply_item_transfer hash_string verify unit h r ≡ ok out
    → verify_and_apply_item_transfer hash_string verify unit later r ≡ err stale_owner_head
transfer_replay_refused hash_string verify unit o ts us h later r out p q ne e =
    let t = (applied-Transferable hash_string verify unit h r e).0 in
    let i = Reached-IsHeadOf hash_string verify unit p in
    let j = Reached-IsHeadOf hash_string verify unit q in
    refused_stale hash_string verify unit later r t.well_formed
      (j.same_receipt ∙ sym i.same_receipt ∙ t.same_receipt)
      (j.same_asset ∙ sym i.same_asset ∙ t.same_asset)
      (stale_version hash_string verify unit later r
        (omega (arith, t.current_head, i.numbered, j.numbered, ne)))

-- Every head that accepted transfers reach from an origin is of the origin's asset and receipt, has
-- the number of transfers as its version, which stays a safe integer, and its identity is the hash
-- of its own content.
pub head_chain_invariant :
    (hash_string : Text → Text) (verify : SignatureVerifier) (unit : Text) (o : AssetOrigin)
    (ts : List TransferBoundary) (h : OwnershipHead)
    → Reached hash_string verify unit o ts h
    → IsHeadOf hash_string verify unit o (length ts) h
head_chain_invariant hash_string verify unit o ts h p = Reached-IsHeadOf hash_string verify unit p
