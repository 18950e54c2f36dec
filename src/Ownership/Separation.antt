-- ===== src/Ownership/Separation.antt =====
-- The canonical texts of the owner protocol are told apart by their first element
-- (examples/cf-game-audit/game/authority/owner-authentication.ts and asset-ownership.ts).
use converge_audit.Prelude.{
  ℕ, ◌^◌, ◌<◌, ◌≡◌, refl, sym, ap, subst, ◌∙◌, Option, none, some, if◌then◌else◌, arith,
}
use converge_audit.Prelude.Text.{Text, codes, text_eq}
use converge_audit.Prelude.Json.{Json, Items, null, num, str, arr, nil, cons, stringify}
use converge_audit.Prelude.Json.Injective.{stringify_injective}
use converge_audit.Ownership.Proofs.{
  ItemOwnerBoundary, ListingBoundary, CancelBoundary, TransferBoundary, item_owner_json,
  listing_json, cancel_json, transfer_json, to_uint32, canonical_item_owner_proof,
  canonical_market_listing_proof, canonical_market_listing, canonical_market_listing_cancel_proof,
  canonical_item_transfer_proof,
}
use converge_audit.Ownership.Heads.{HeadContent, head_json, canonical_asset_ownership_head}

-- The six texts that are hashed, to be signed or to be an identity.
pub data FramedKind : Type 0 where
  owner_proof listing_proof listing_identity cancel_proof transfer_proof owner_head : FramedKind

abbrev pub BoundaryOf : FramedKind → Type 0
BoundaryOf owner_proof = ItemOwnerBoundary
BoundaryOf listing_proof = ListingBoundary
BoundaryOf listing_identity = ListingBoundary
BoundaryOf cancel_proof = CancelBoundary
BoundaryOf transfer_proof = TransferBoundary
BoundaryOf owner_head = HeadContent

-- A kind, a unit and the boundary that the kind frames.
abbrev pub Framed : Type 0
Framed = (k : FramedKind) × Text × BoundaryOf k

unfoldable pub canonical_text : Framed → Text
canonical_text (owner_proof, u, b) = canonical_item_owner_proof u b
canonical_text (listing_proof, u, b) = canonical_market_listing_proof u b
canonical_text (listing_identity, u, b) = canonical_market_listing u b
canonical_text (cancel_proof, u, b) = canonical_market_listing_cancel_proof u b
canonical_text (transfer_proof, u, b) = canonical_item_transfer_proof u b
canonical_text (owner_head, u, b) = canonical_asset_ownership_head u b

-- Seeds are unsigned 32-bit integers.
abbrev pub SeedIsUint32 : Framed → Type 0
SeedIsUint32 (owner_proof, u, b) = b.seed < 2 ^ 32
SeedIsUint32 (listing_proof, u, b) = Unit
SeedIsUint32 (listing_identity, u, b) = Unit
SeedIsUint32 (cancel_proof, u, b) = Unit
SeedIsUint32 (transfer_proof, u, b) = Unit
SeedIsUint32 (owner_head, u, b) = Unit

abbrev framed_json : (k : FramedKind) → Text → BoundaryOf k → Json
framed_json owner_proof u b = item_owner_json u b
framed_json listing_proof u b =
    listing_json (codes "audit-survivors-market-listing-owner-proof-v2") u b
framed_json listing_identity u b = listing_json (codes "audit-survivors-market-listing-v3") u b
framed_json cancel_proof u b = cancel_json u b
framed_json transfer_proof u b = transfer_json u b
framed_json owner_head u b = head_json u b

canonical_text_json :
    (k : FramedKind) (u : Text) (b : BoundaryOf k)
    → canonical_text (k, u, b) ≡ stringify (framed_json k u b)
unfolding canonical_text canonical_item_owner_proof canonical_market_listing_proof
    canonical_market_listing canonical_market_listing_cancel_proof canonical_item_transfer_proof
    canonical_asset_ownership_head
canonical_text_json owner_proof u b = refl
canonical_text_json listing_proof u b = refl
canonical_text_json listing_identity u b = refl
canonical_text_json cancel_proof u b = refl
canonical_text_json transfer_proof u b = refl
canonical_text_json owner_head u b = refl

-- The kind that a first element names.
abbrev kind_named : Text → Option FramedKind
kind_named d =
    if text_eq d (codes "audit-survivors-item-owner-proof-v1")
    then some owner_proof
    else if text_eq d (codes "audit-survivors-market-listing-owner-proof-v2")
    then some listing_proof
    else if text_eq d (codes "audit-survivors-market-listing-v3")
    then some listing_identity
    else if text_eq d (codes "audit-survivors-market-listing-cancel-proof-v2")
    then some cancel_proof
    else if text_eq d (codes "audit-survivors-item-transfer-proof-v1")
    then some transfer_proof
    else if text_eq d (codes "audit-survivors-asset-owner-head-v1")
    then some owner_head
    else none

abbrev first_element : Items → Option FramedKind
first_element nil = none
first_element (cons null rest) = none
first_element (cons (num n) rest) = none
first_element (cons (str d) rest) = kind_named d
first_element (cons (arr xs) rest) = none

abbrev kind_of_json : Json → Option FramedKind
kind_of_json null = none
kind_of_json (num n) = none
kind_of_json (str d) = none
kind_of_json (arr xs) = first_element xs

kind_of_framed :
    (k : FramedKind) (u : Text) (b : BoundaryOf k) → kind_of_json (framed_json k u b) ≡ some k
unfolding text_eq
kind_of_framed owner_proof u b = refl
kind_of_framed listing_proof u b = refl
kind_of_framed listing_identity u b = refl
kind_of_framed cancel_proof u b = refl
kind_of_framed transfer_proof u b = refl
kind_of_framed owner_head u b = refl

uint32_injective : (m n : ℕ) → m < 2 ^ 32 → n < 2 ^ 32 → to_uint32 m ≡ to_uint32 n → m ≡ n
uint32_injective m n hm hn e = omega arith

-- Within one kind, the array determines the unit and the boundary.
same_kind :
    (k : FramedKind) (u v : Text) (b c : BoundaryOf k)
    → SeedIsUint32 (k, u, b)
    → SeedIsUint32 (k, v, c)
    → framed_json k u b ≡ framed_json k v c
    → ◌≡◌ {A = Framed} (k, u, b) (k, v, c)
same_kind owner_proof u v b c hb hc e =
    let seeds : to_uint32 b.seed ≡ to_uint32 c.seed = cc in
    let same = uint32_injective b.seed c.seed hb hc seeds in cc
same_kind listing_proof u v b c hb hc e = cc
same_kind listing_identity u v b c hb hc e = cc
same_kind cancel_proof u v b c hb hc e = cc
same_kind transfer_proof u v b c hb hc e = cc
same_kind owner_head u v b c hb hc e = cc

-- If two things that the owner protocol hashes have the same canonical text, their seeds being
-- unsigned 32-bit integers, they are the same kind of thing with the same unit and fields: no
-- listing is read as a cancellation, no owner head as a transfer.
pub canonical_texts_separate :
    (x y : Framed) → SeedIsUint32 x → SeedIsUint32 y → canonical_text x ≡ canonical_text y → x ≡ y
canonical_texts_separate (k, u, b) (l, v, c) hx hy e = subst Claim kinds base c hy jsons
  where
    jsons : framed_json k u b ≡ framed_json l v c
    jsons =
        stringify_injective (framed_json k u b) (framed_json l v c)
          (sym (canonical_text_json k u b) ∙ e ∙ canonical_text_json l v c)

    kinds : k ≡ l
    kinds =
        some-injective (sym (kind_of_framed k u b) ∙ ap kind_of_json jsons ∙ kind_of_framed l v c)
      where
        some-injective : ◌≡◌ {A = Option FramedKind} (some k) (some l) → k ≡ l
        some-injective p = cc

    Claim : FramedKind → Type 0
    Claim m =
        (d : BoundaryOf m)
        → SeedIsUint32 (m, v, d)
        → framed_json k u b ≡ framed_json m v d
        → ◌≡◌ {A = Framed} (k, u, b) (m, v, d)

    base : Claim k
    base d h p = same_kind k u v b d hx h p
