-- ===== src/Ownership/Tests.antt =====
-- An asset that changes hands once, and the theorems at it.
use converge_audit.Prelude.{
  ◌≡◌, ◌≢◌, ◌↔◌, refl, sym, ap, subst, ◌∙◌, ℕ, zero, suc, ◌%◌, ◌+◌, ◌++◌, Bool, true, some, List,
  [], ◌∷◌, ok, err, Memᴰ, arith, length, ◌==◌, if◌then◌else◌,
}
use converge_audit.Prelude.Text.{Text, codes, text_eq, text_eq_refl}
use converge_audit.Prelude.Decimal.{decimal}
use converge_audit.Prelude.Json.{stringify, stringify_items, stringify_rest}
use converge_audit.Prelude.Json.Quote.{quote, escape, escape_all}
use converge_audit.Ownership.Proofs.{
  OwnerSigner, SignatureVerifier, TransferBoundary, stale_owner_head, canonical_item_transfer_proof,
  item_transfer_proof_digest, sign_item_transfer_proof, verify_item_transfer_proof,
}
use converge_audit.Ownership.Separation.{Framed, owner_proof, canonical_texts_separate}
use converge_audit.Ownership.Heads.{
  AssetOrigin, HeadContent, OwnershipHead, TransferRequest, AppliedTransfer,
  asset_ownership_head_id, create_initial_asset_ownership_head, canonical_asset_ownership_head,
  request_well_formed, names_current, next_head, verify_and_apply_item_transfer,
}
use converge_audit.Ownership.Transfers.{
  Transferable, transfer_accepts_iff, apply-sign, applied, signed_by,
}
use converge_audit.Ownership.Chain.{
  Reached, initial, transferred, IsHeadOf, hashed, transfer_replay_refused, head_chain_invariant,
}
use converge_audit.Ownership.Commitment.{NoCollision, head_identity_commits}

abbrev repeated : ℕ → ℕ → Text
repeated zero c = []
repeated (suc n) c = c ∷ repeated n c

-- A digest by the length of the text, and signatures of a key followed by the digest.
abbrev hash_string : Text → Text
hash_string t = repeated 64 (b'0' + length t % 10)

abbrev verify : SignatureVerifier
verify key d signature = text_eq signature (key ++ d)

abbrev seller : Text
seller = repeated 64 b'a'

abbrev buyer : Text
buyer = repeated 64 b'b'

abbrev world : Text
world = codes "w"

abbrev origin : AssetOrigin
origin = record {
  asset_id = codes "sword";
  authority_receipt_id = repeated 64 b'c';
  owner_id = codes "ann";
  owner_public_key = seller;
}

abbrev first_content : HeadContent
first_content = record {
  origin = origin;
  version = 0;
  last_transfer_id = origin.authority_receipt_id;
}

abbrev first_head : OwnershipHead
first_head = record {
  content = first_content;
  head_id = asset_ownership_head_id hash_string world first_content;
}

abbrev boundary : TransferBoundary
boundary = record {
  asset_id = codes "sword";
  authority_receipt_id = repeated 64 b'c';
  previous_head_id = first_head.head_id;
  from_owner_id = codes "ann";
  from_owner_public_key = seller;
  to_owner_id = codes "robert";
  to_owner_public_key = buyer;
  previous_version = 0;
  next_version = 1;
}

abbrev transfer_digest : Text
transfer_digest = item_transfer_proof_digest hash_string world boundary

abbrev request : TransferRequest
request = record {
  boundary = boundary;
  sender_signature = seller ++ transfer_digest;
  recipient_signature = buyer ++ transfer_digest;
}

-- Opens what hashing and applying compute with.
run_of_hash : Text → Text
unfolding canonical_item_transfer_proof canonical_asset_ownership_head stringify stringify_items
    stringify_rest quote escape escape_all decimal
run_of_hash t = hash_string t

run_of_apply : OwnershipHead → TransferRequest → Bool
unfolding run_of_hash create_initial_asset_ownership_head request_well_formed names_current text_eq
    verify_item_transfer_proof verify_and_apply_item_transfer sign_item_transfer_proof
run_of_apply h r = true

first_created : create_initial_asset_ownership_head hash_string world origin ≡ some first_head
unfolding run_of_apply
first_created = refl

-- The head after the transfer.
abbrev last_head : OwnershipHead
last_head = next_head hash_string world request

request_accepted :
    verify_and_apply_item_transfer hash_string verify world first_head request
    ≡ ok (applied hash_string verify world request)
unfolding run_of_apply
request_accepted = refl

abbrev at_origin : Reached hash_string verify world origin [] first_head
at_origin = initial first_created

abbrev after_transfer : Reached hash_string verify world origin (boundary ∷ []) last_head
after_transfer =
    transferred at_origin request (applied hash_string verify world request) request_accepted refl
      refl

transfer_accepts_iff_example :
    ((out : AppliedTransfer) × (verify_and_apply_item_transfer hash_string verify world first_head
          request
        ≡ ok out)
      × (out.head ≡ last_head)
      × (out.transfer_id ≡ transfer_digest))
    ↔ Transferable hash_string verify world first_head request
transfer_accepts_iff_example = transfer_accepts_iff hash_string verify world first_head request

head_chain_invariant_example : IsHeadOf hash_string verify world origin 1 last_head
head_chain_invariant_example =
    head_chain_invariant hash_string verify world origin (boundary ∷ []) last_head after_transfer

transfer_replay_refused_example :
    verify_and_apply_item_transfer hash_string verify world last_head request ≡ err stale_owner_head
transfer_replay_refused_example =
    transfer_replay_refused hash_string verify world origin [] (boundary ∷ []) first_head last_head
      request (applied hash_string verify world request) at_origin after_transfer (omega arith)
      request_accepted

abbrev signer_of : Text → OwnerSigner
signer_of key = record { public_key = key; sign_digest = λ d. key ++ d }

well_formed : request_well_formed world request ≡ true
unfolding run_of_apply
well_formed = refl

signed_by_seller :
    sign_item_transfer_proof hash_string world boundary (signer_of seller)
    ≡ some (seller ++ transfer_digest)
unfolding sign_item_transfer_proof text_eq
signed_by_seller = refl

signed_by_buyer :
    sign_item_transfer_proof hash_string world boundary (signer_of buyer)
    ≡ some (buyer ++ transfer_digest)
unfolding sign_item_transfer_proof text_eq
signed_by_buyer = refl

ann-robert : codes "ann" ≢ codes "robert"
ann-robert e = cc

abbrev signed_request : TransferRequest
signed_request = signed_by hash_string world (signer_of seller) (signer_of buyer) request

apply-sign_example :
    (sign_item_transfer_proof hash_string world request.boundary (signer_of seller)
      ≡ some signed_request.sender_signature)
    × (sign_item_transfer_proof hash_string world request.boundary (signer_of buyer)
        ≡ some signed_request.recipient_signature)
    × (verify_and_apply_item_transfer hash_string verify world first_head signed_request
        ≡ ok (applied hash_string verify world signed_request))
apply-sign_example =
    apply-sign hash_string verify world first_head (signer_of seller) (signer_of buyer) request
      (λ d. text_eq_refl (seller ++ d)) (λ d. text_eq_refl (buyer ++ d)) refl refl well_formed
      (refl, refl) (refl, refl, refl, refl) (refl, omega arith) (λ e f. ann-robert e)

-- The three texts of the chain have lengths that end in different digits.
abbrev text_of : ℕ → Text
text_of n =
    if n == 0
    then canonical_asset_ownership_head world first_content
    else if n == 3
    then canonical_asset_ownership_head world last_head.content
    else canonical_item_transfer_proof world boundary

abbrev Recovered : Text → Type 0
Recovered t = t ≡ text_of (length t % 10)

first-Recovered : Recovered (canonical_asset_ownership_head world first_content)
unfolding run_of_hash
first-Recovered = refl

transfer-Recovered : Recovered (canonical_item_transfer_proof world boundary)
unfolding run_of_hash
transfer-Recovered = refl

last-Recovered : Recovered (canonical_asset_ownership_head world last_head.content)
unfolding run_of_hash
last-Recovered = refl

each-Recovered : (t : Text) → Memᴰ t (hashed hash_string verify world after_transfer) → Recovered t
each-Recovered t (Memᴰ.head e) = subst Recovered (sym e) last-Recovered
each-Recovered t (Memᴰ.tail (Memᴰ.head e)) = subst Recovered (sym e) transfer-Recovered
each-Recovered t (Memᴰ.tail (Memᴰ.tail (Memᴰ.head e))) = subst Recovered (sym e) first-Recovered
each-Recovered t (Memᴰ.tail (Memᴰ.tail (Memᴰ.tail m))) = elim m [ ]

same_digit : (s t : Text) → hash_string s ≡ hash_string t → length s % 10 ≡ length t % 10
same_digit s t e = omega (arith, digit)
  where
    first_unit : Text → ℕ
    first_unit [] = 0
    first_unit (c ∷ cs) = c

    digit : b'0' + length s % 10 ≡ b'0' + length t % 10
    digit = ap first_unit e

apart : NoCollision hash_string verify world after_transfer after_transfer
apart a b ma mb e = each-Recovered a ma ∙ ap text_of (same_digit a b e) ∙ sym (each-Recovered b mb)

head_identity_commits_example :
    (origin ≡ origin) × (◌≡◌ {A = List TransferBoundary} (boundary ∷ []) (boundary ∷ []))
head_identity_commits_example =
    head_identity_commits hash_string verify world origin origin (boundary ∷ []) (boundary ∷ [])
      last_head last_head after_transfer after_transfer apart refl

abbrev owner_claim : Framed
owner_claim = (
  owner_proof,
  world,
  record {
    player_id = codes "ann";
    seed = 7;
    checkpoint_digest = repeated 64 b'd';
    asset_id = codes "sword";
    owner_public_key = seller;
  },
)

canonical_texts_separate_example : owner_claim ≡ owner_claim
canonical_texts_separate_example =
    canonical_texts_separate owner_claim owner_claim (omega arith) (omega arith) refl
