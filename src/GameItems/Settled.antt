-- ===== src/GameItems/Settled.antt =====
-- What an applied receipt leaves behind (examples/cf-game-audit/game/kernel.ts).
use converge_audit.Prelude.{
  ℕ, suc, ◌≡◌, ◌≢◌, refl, sym, ap, subst, ◌∙◌, ◌↔◌, ◌⊎◌, inl, inr, true, false, Option, none, some,
  List, [], ◌∷◌, arith, Bool-cases, ok, err, ok-injective,
}
use converge_audit.Prelude.Text.{Text, text_eq, text_eq_iff, text_eq_refl}
use converge_audit.GameItems.State.{
  InventoryItem, GameState, Verification, ItemAuditState, provisional, verified,
}
use converge_audit.GameItems.Receipts.{
  one_later, ItemVerificationReceipt, verification_conflict, receipt_invalid, same_verification,
  find_asset, set_at, verified_by, settle, apply_item_verification, listing_eligibility,
}

same_verification_iff : (v w : Verification) → (same_verification v w ≡ true) ↔ (v ≡ w)
unfolding same_verification
same_verification_iff v w = (
  forward,
  λ e. ground (
    arith,
    e,
    text_eq_refl w.authority_receipt_id,
    text_eq_refl w.owner_public_key,
    text_eq_refl w.owner_head_id,
    text_eq_refl w.checkpoint_digest,
  ),
)
  where
    forward : same_verification v w ≡ true → v ≡ w
    forward h =
        let a : v.authority_receipt_id ≡ w.authority_receipt_id =
          (text_eq_iff v.authority_receipt_id w.authority_receipt_id).0 (ground arith) in
        let b : v.owner_public_key ≡ w.owner_public_key =
          (text_eq_iff v.owner_public_key w.owner_public_key).0 (ground arith) in
        let c : v.owner_version ≡ w.owner_version = ground arith in
        let d : v.owner_head_id ≡ w.owner_head_id =
          (text_eq_iff v.owner_head_id w.owner_head_id).0 (ground arith) in
        let e : v.checkpoint_digest ≡ w.checkpoint_digest =
          (text_eq_iff v.checkpoint_digest w.checkpoint_digest).0 (ground arith) in
        let f : v.inventory_epoch ≡ w.inventory_epoch = ground arith in cc

-- The item of an asset stands first at a place of the inventory.
abbrev pub FirstAt : Text → List InventoryItem → ℕ → InventoryItem → Type 0
FirstAt asset inventory n item = find_asset asset inventory ≡ some (n, item)

FirstAt-cases :
    (asset : Text) (x : InventoryItem) (xs : List InventoryItem) (n : ℕ) (item : InventoryItem)
    → FirstAt asset (x ∷ xs) n item
    → ((text_eq x.asset_id asset ≡ true) × (n ≡ 0) × (item ≡ x))
      ⊎ ((text_eq x.asset_id asset ≡ false) × (m : ℕ) × (n ≡ suc m) × FirstAt asset xs m item)
unfolding find_asset
FirstAt-cases asset x xs n item h = elim (Bool-cases (text_eq x.asset_id asset)) [
  | inl e ↦ inl (
      let same : ◌≡◌ {A = Option (ℕ × InventoryItem)} (some (0, x)) (some (n, item)) =
        ground arith in
      (e, cc, cc))
  | inr e ↦
      let (m, z, rest) = later (find_asset asset xs) refl (ground arith) in inr (e, m, z, rest)
]
  where
    later :
        (o : Option (ℕ × InventoryItem))
        → find_asset asset xs ≡ o
        → one_later o ≡ some (n, item)
        → (m : ℕ) × (n ≡ suc m) × FirstAt asset xs m item
    later none e q = absurd (cc)
    later (some (m, y)) e q = (m, cc, cc)

pub FirstAt-asset :
    (asset : Text) (xs : List InventoryItem) (n : ℕ) (item : InventoryItem)
    → FirstAt asset xs n item
    → item.asset_id ≡ asset
unfolding find_asset
FirstAt-asset asset [] n item h = absurd (cc)
FirstAt-asset asset (x ∷ xs) n item h = elim (FirstAt-cases asset x xs n item h) [
  | inl (e, z, same) ↦
      ap (λ (i : InventoryItem). i.asset_id) same ∙ (text_eq_iff x.asset_id asset).0 e
  | inr (e, m, z, rest) ↦ FirstAt-asset asset xs m item rest
]

pub FirstAt-set_at :
    (asset : Text) (xs : List InventoryItem) (n : ℕ) (item new : InventoryItem)
    → FirstAt asset xs n item
    → new.asset_id ≡ asset
    → FirstAt asset (set_at n new xs) n new
unfolding find_asset set_at
FirstAt-set_at asset [] n item new h e = absurd (cc)
FirstAt-set_at asset (x ∷ xs) n item new h e = elim (FirstAt-cases asset x xs n item h) [
  | inl (_, z, same) ↦ rw z (rw ((text_eq_iff new.asset_id asset).1 e) refl)
  | inr (f, m, z, rest) ↦ rw z (rw f (ap one_later (FirstAt-set_at asset xs m item new rest e)))
]

pub set_at-same :
    (asset : Text) (xs : List InventoryItem) (n : ℕ) (item : InventoryItem)
    → FirstAt asset xs n item
    → set_at n item xs ≡ xs
unfolding set_at
set_at-same asset [] n item h = refl
set_at-same asset (x ∷ xs) n item h = elim (FirstAt-cases asset x xs n item h) [
  | inl (e, z, same) ↦ rw z (ap (λ i. i ∷ xs) same)
  | inr (e, m, z, rest) ↦
      rw z (ap (λ (l : List InventoryItem). x ∷ l) (set_at-same asset xs m item rest))
]

-- The state with the item at a place verified by a receipt.
abbrev pub settled : GameState → ItemVerificationReceipt → ℕ → InventoryItem → GameState
settled s r n item = record s { inventory = set_at n (verified_by r item) s.inventory }

-- The receipt's verification is the item's, or the item has none.
abbrev pub MaySettle : InventoryItem → ItemVerificationReceipt → Type 0
MaySettle item r = (item.audit ≡ provisional) ⊎ (item.audit ≡ verified r.verification)

-- What an applied receipt rests on and leads to.
abbrev pub LeadsTo : GameState → ItemVerificationReceipt → GameState → Type 0
LeadsTo s r t =
    (receipt_invalid r ≡ false)
    × (n : ℕ) × (item : InventoryItem) × FirstAt r.asset_id s.inventory n item
    × (item.owner_id ≡ r.owner_id)
    × MaySettle item r
    × (t ≡ settled s r n item)

already_verified :
    (s : GameState) (r : ItemVerificationReceipt) (n : ℕ) (item : InventoryItem)
    → FirstAt r.asset_id s.inventory n item
    → item.audit ≡ verified r.verification
    → s ≡ settled s r n item
already_verified s r n item h e =
    let same : verified_by r item ≡ item = cc in
    let kept : set_at n (verified_by r item) s.inventory ≡ s.inventory =
      ap (λ i. set_at n i s.inventory) same ∙ set_at-same r.asset_id s.inventory n item h in
    sym (ap (λ l. record s { inventory = l }) kept)

settle_iff :
    (s t : GameState) (r : ItemVerificationReceipt) (n : ℕ) (item : InventoryItem)
    → FirstAt r.asset_id s.inventory n item
    → (a : ItemAuditState) → item.audit ≡ a
    → (settle s r n item a ≡ ok t) ↔ (MaySettle item r × (t ≡ settled s r n item))
settle_iff s t r n item h provisional e = (λ q. (inl e, cc), λ p. ap ok (sym p.1))
settle_iff s t r n item h (verified v) e = elim (Bool-cases (same_verification v r.verification)) [
  | inl y ↦
      let same = (same_verification_iff v r.verification).0 y in
      let audit : item.audit ≡ verified r.verification = e ∙ ap verified same in
      let kept = already_verified s r n item h audit in
      rw y (λ q. (inr audit, sym (ok-injective q) ∙ kept), λ p. ap ok (kept ∙ sym p.1))
  | inr f ↦ rw f (λ q. absurd (cc), λ p. absurd (conflict f p.0))
]
  where
    conflict : same_verification v r.verification ≡ false → MaySettle item r → ⊥
    conflict f (inl x) = cc
    conflict f (inr x) =
        let same : v ≡ r.verification = cc in
        let yes = (same_verification_iff v r.verification).1 same in cc

reaches_settle :
    (s : GameState) (r : ItemVerificationReceipt) (n : ℕ) (item : InventoryItem)
    → receipt_invalid r ≡ false
    → FirstAt r.asset_id s.inventory n item
    → item.owner_id ≡ r.owner_id
    → apply_item_verification s r ≡ settle s r n item item.audit
unfolding apply_item_verification
reaches_settle s r n item v h o = rw v (rw h (rw ((text_eq_iff item.owner_id r.owner_id).1 o) refl))

found_owned :
    (s t : GameState) (r : ItemVerificationReceipt)
    → apply_item_verification s r ≡ ok t
    → (receipt_invalid r ≡ false)
      × (n : ℕ) × (item : InventoryItem) × FirstAt r.asset_id s.inventory n item
      × (item.owner_id ≡ r.owner_id)
unfolding apply_item_verification
found_owned s t r h =
    let valid : receipt_invalid r ≡ false = ground arith in
    let (n, item, first, owned) = owner (find_asset r.asset_id s.inventory) refl in
    (valid, n, item, first, owned)
  where
    owner :
        (f : Option (ℕ × InventoryItem))
        → find_asset r.asset_id s.inventory ≡ f
        → (n : ℕ) × (item : InventoryItem) × FirstAt r.asset_id s.inventory n item
          × (item.owner_id ≡ r.owner_id)
    owner none e = unfold apply_item_verification in absurd (ground arith)
    owner (some (n, item)) e =
        unfold apply_item_verification in
        (n, item, e, (text_eq_iff item.owner_id r.owner_id).0 (ground arith))

-- A receipt is applied, with a given state as the result, exactly when it is well formed, the
-- inventory has an item of its asset whose first one has its owner and either no verification or
-- the receipt's own, and the result is the state with that item, and nothing else, verified by the
-- receipt.
pub receipt_applied_iff :
    (s t : GameState) (r : ItemVerificationReceipt)
    → (apply_item_verification s r ≡ ok t) ↔ LeadsTo s r t
receipt_applied_iff s t r = (forward, backward)
  where
    forward : apply_item_verification s r ≡ ok t → LeadsTo s r t
    forward h =
        let (v, n, item, first, owned) = found_owned s t r h in
        let (may, same) =
          (settle_iff s t r n item first item.audit refl).0
            (sym (reaches_settle s r n item v first owned) ∙ h) in
        (v, n, item, first, owned, may, same)

    backward : LeadsTo s r t → apply_item_verification s r ≡ ok t
    backward (v, n, item, first, owned, may, same) =
        reaches_settle s r n item v first owned
        ∙ (settle_iff s t r n item first item.audit refl).1 (may, same)

-- After a receipt has been applied, the first item of its asset may be listed with the receipt's
-- verification, the same receipt applied again changes nothing, and a well-formed receipt for the
-- same asset and owner with another verification is refused as a conflict.
pub receipt_settles :
    (s t : GameState) (r other : ItemVerificationReceipt)
    → apply_item_verification s r ≡ ok t
    → receipt_invalid other ≡ false
    → other.asset_id ≡ r.asset_id
    → other.owner_id ≡ r.owner_id
    → other.verification ≢ r.verification
    → ((n : ℕ) × (item : InventoryItem) × FirstAt r.asset_id t.inventory n item
        × (listing_eligibility item ≡ some r.verification))
      × (apply_item_verification t r ≡ ok t)
      × (apply_item_verification t other ≡ err verification_conflict)
unfolding listing_eligibility
receipt_settles s t r other h v asset owner ne =
    let (valid, n, item, first, owned, may, same) = (receipt_applied_iff s t r).0 h in
    let new = verified_by r item in
    let kept : t.inventory ≡ set_at n new s.inventory = ap (λ (g : GameState). g.inventory) same in
    let now : FirstAt r.asset_id t.inventory n new =
      subst (λ l. FirstAt r.asset_id l n new) (sym kept)
        (FirstAt-set_at r.asset_id s.inventory n item new first
          (FirstAt-asset r.asset_id s.inventory n item first)) in
    let others : FirstAt other.asset_id t.inventory n new =
      subst (λ a. FirstAt a t.inventory n new) (sym asset) now in
    (
      (n, new, now, refl),
      (receipt_applied_iff t t r).1
          (valid, n, new, now, owned, inr refl, already_verified t r n new now refl),
      reaches_settle t other n new v others (owned ∙ sym owner) ∙ conflict n new,
    )
  where
    conflict :
        (n : ℕ) (i : InventoryItem)
        → settle t other n i (verified r.verification) ≡ err verification_conflict
    conflict n i = elim (Bool-cases (same_verification r.verification other.verification)) [
      | inl y ↦ absurd (ne (sym ((same_verification_iff r.verification other.verification).0 y)))
      | inr f ↦ rw f refl
    ]
