-- ===== src/Ownership/Commitment.antt =====
-- The identity of an owner head stands for the whole chain behind it
-- (examples/cf-game-audit/game/authority/asset-ownership.ts).
use converge_audit.Prelude.{◌≡◌, refl, sym, ap, ◌∙◌, List, length, Memᴰ, arith}
use converge_audit.Prelude.Text.{Text}
use converge_audit.Ownership.Proofs.{
  transfer_json, SignatureVerifier, TransferBoundary, item_transfer_proof_digest,
  canonical_item_transfer_proof,
}
use converge_audit.Prelude.Json.Injective.{stringify_injective}
use converge_audit.Ownership.Heads.{
  head_json, AssetOrigin, HeadContent, OwnershipHead, TransferRequest, AppliedTransfer,
  canonical_asset_ownership_head,
}
use converge_audit.Ownership.Transfers.{applied, applied-Transferable}
use converge_audit.Ownership.Chain.{
  Reached, initial, transferred, hashed, initial-head, Reached-IsHeadOf,
}

head_text_injective :
    (unit : Text) (c d : HeadContent)
    → canonical_asset_ownership_head unit c ≡ canonical_asset_ownership_head unit d
    → c ≡ d
unfolding canonical_asset_ownership_head
head_text_injective unit c d e =
    let same = stringify_injective (head_json unit c) (head_json unit d) e in cc

transfer_text_injective :
    (unit : Text) (b c : TransferBoundary)
    → canonical_item_transfer_proof unit b ≡ canonical_item_transfer_proof unit c
    → b ≡ c
unfolding canonical_item_transfer_proof
transfer_text_injective unit b c e =
    let same = stringify_injective (transfer_json unit b) (transfer_json unit c) e in cc

module _ (hash_string : Text → Text) (verify : SignatureVerifier) (unit : Text) where
  -- The hash tells the texts of two chains apart.
  abbrev pub NoCollision :
      {o o' : AssetOrigin} {ts us : List TransferBoundary} {h h' : OwnershipHead}
      → Reached hash_string verify unit o ts h
      → Reached hash_string verify unit o' us h'
      → Type 0
  NoCollision p q =
      (a b : Text)
      → Memᴰ a (hashed hash_string verify unit p)
      → Memᴰ b (hashed hash_string verify unit q)
      → hash_string a ≡ hash_string b
      → a ≡ b

  head_hashed :
      {o : AssetOrigin} {ts : List TransferBoundary} {h : OwnershipHead}
      (p : Reached hash_string verify unit o ts h)
      → Memᴰ (canonical_asset_ownership_head unit h.content) (hashed hash_string verify unit p)
  head_hashed (initial e) = Memᴰ.head refl
  head_hashed (transferred p r out e same b) = Memᴰ.head refl

  same_content :
      {o o' : AssetOrigin} {ts us : List TransferBoundary} {h h' : OwnershipHead}
      (p : Reached hash_string verify unit o ts h) (q : Reached hash_string verify unit o' us h')
      → NoCollision p q
      → h.head_id ≡ h'.head_id
      → (h.content ≡ h'.content) × (length ts ≡ length us)
  same_content {h = h} {h' = h'} p q apart e =
      let i = Reached-IsHeadOf hash_string verify unit p in
      let j = Reached-IsHeadOf hash_string verify unit q in
      let texts =
        apart (canonical_asset_ownership_head unit h.content)
          (canonical_asset_ownership_head unit h'.content) (head_hashed p) (head_hashed q)
          (sym i.identified ∙ e ∙ j.identified) in
      let contents = head_text_injective unit h.content h'.content texts in
      (contents, sym i.numbered ∙ ap (λ (c : HeadContent). c.version) contents ∙ j.numbered)

  last_transfer :
      (g : OwnershipHead) (out : AppliedTransfer) (r : TransferRequest)
      → g ≡ out.head
      → out ≡ applied hash_string verify unit r
      → g.last_transfer_id ≡ item_transfer_proof_digest hash_string unit r.boundary
  last_transfer g out r same made =
      ap (λ (x : OwnershipHead). x.last_transfer_id) same
      ∙ ap (λ (x : AppliedTransfer). x.head.last_transfer_id) made

  pub same_chain :
      {o o' : AssetOrigin} {ts us : List TransferBoundary} {h h' : OwnershipHead}
      (p : Reached hash_string verify unit o ts h) (q : Reached hash_string verify unit o' us h')
      → NoCollision p q
      → h.head_id ≡ h'.head_id
      → (o ≡ o') × (ts ≡ us)
  same_chain {o} {o'} {h = h} {h' = h'} (initial x) (initial y) apart e =
      let contents = (same_content (initial x) (initial y) apart e).0 in
      (
        sym (initial-head hash_string verify unit o h x).0
            ∙ ap (λ (c : HeadContent). c.origin) contents
            ∙ (initial-head hash_string verify unit o' h' y).0,
        refl,
      )
  same_chain (initial x) (transferred q s out f same b) apart e =
      absurd (omega (arith, (same_content (initial x) (transferred q s out f same b) apart e).1))
  same_chain (transferred p r out f same b) (initial y) apart e =
      absurd (omega (arith, (same_content (transferred p r out f same b) (initial y) apart e).1))
  same_chain {h = g} {h' = g'} (transferred {h = h} p r out f same b)
        (transferred {h = h'} q s out' f' same' b') apart e =
      let (t, made) = applied-Transferable hash_string verify unit h r f in
      let (t', made') = applied-Transferable hash_string verify unit h' s f' in
      let contents =
        (same_content (transferred p r out f same b) (transferred q s out' f' same' b') apart
          e).0 in
      let last : item_transfer_proof_digest hash_string unit r.boundary
          ≡ item_transfer_proof_digest hash_string unit s.boundary =
        sym (last_transfer g out r (same) made)
        ∙ ap (λ (c : HeadContent). c.last_transfer_id) contents
        ∙ last_transfer g' out' s same' made' in
      let texts =
        apart (canonical_item_transfer_proof unit r.boundary)
          (canonical_item_transfer_proof unit s.boundary) (Memᴰ.tail (Memᴰ.head refl))
          (Memᴰ.tail (Memᴰ.head refl)) last in
      let boundaries = transfer_text_injective unit r.boundary s.boundary texts in
      let previous : h.head_id ≡ h'.head_id =
        t.current_head.0
        ∙ ap (λ (x : TransferBoundary). x.previous_head_id) boundaries
        ∙ sym t'.current_head.0 in
      let rest =
        same_chain p q
          (λ a c ma mc. apart a c (Memᴰ.tail (Memᴰ.tail ma)) (Memᴰ.tail (Memᴰ.tail mc))) previous in
      (rest.0, cc (rest.1, boundaries, b, b'))

-- If the hash tells apart the texts that were hashed along two chains of accepted transfers, and the
-- heads that the chains end with have the same identity, the chains began at the same origin and
-- made the same transfers in the same order.
pub head_identity_commits :
    (hash_string : Text → Text) (verify : SignatureVerifier) (unit : Text) (o o' : AssetOrigin)
    (ts us : List TransferBoundary) (h h' : OwnershipHead)
    (p : Reached hash_string verify unit o ts h) (q : Reached hash_string verify unit o' us h')
    → NoCollision hash_string verify unit p q
    → h.head_id ≡ h'.head_id
    → (o ≡ o') × (ts ≡ us)
head_identity_commits hash_string verify unit o o' ts us h h' p q apart e =
    same_chain hash_string verify unit p q apart e
