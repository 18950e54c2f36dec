-- ===== src/KeyLifecycle/History/Slots.antt =====
-- Every record of a validated history stands in the slot of its key, with valid records alone.
use converge_audit.Prelude.{
  ◌≡◌, refl, sym, inl, inr, true, false, not, List, [], ◌∷◌, ◌++◌, Memᴰ, arith, all, any, all-mem,
  ok, sort_by, mem-sort_by, subst, mem-append_left, mem-append_right, if◌then◌else◌, Bool-cases,
  Result, bind-eq-ok, ok-injective, ◌>>=◌, any-mem, all-sort_by, all-append,
}
use converge_audit.Prelude.Text.{Text, text_eq, text_eq_iff, text_eq_refl}
use converge_audit.Prelude.Dict.{lookup-insert}
use converge_audit.KeyLifecycle.Records.{VerificationKeyRecord, valid_key_record, key_version_index}
use converge_audit.KeyLifecycle.History.{
  Slots, slot_of, push_slot, group, check_slot, check_slots, same_identity, HistoryRefusal,
  validate_verification_key_history,
}
use converge_audit.KeyLifecycle.History.Chain.{Ordered, check_ordered-Ordered}

slot_of-push_slot :
    (k : Text) (key : VerificationKeyRecord) (m : Slots)
    → slot_of k (push_slot key m)
      ≡ (if text_eq key.key_id k then slot_of key.key_id m ++ key ∷ [] else slot_of k m)
unfolding push_slot
slot_of-push_slot k key m =
    ground (arith, lookup-insert key.key_id k (slot_of key.key_id m ++ key ∷ []) m)

push_slot-self :
    (key : VerificationKeyRecord) (m : Slots) → Memᴰ key (slot_of key.key_id (push_slot key m))
push_slot-self key m =
    rw (slot_of-push_slot key.key_id key m, text_eq_refl key.key_id)
      (mem-append_right (slot_of key.key_id m) (key ∷ []) (Memᴰ.head refl))

push_slot-keeps :
    (k : Text) (key : VerificationKeyRecord) (m : Slots) {r : VerificationKeyRecord}
    → Memᴰ r (slot_of k m)
    → Memᴰ r (slot_of k (push_slot key m))
push_slot-keeps k key m {r} h = elim (Bool-cases (text_eq key.key_id k)) [
  | inl e ↦
      rw (slot_of-push_slot k key m, e)
        (mem-append_left (slot_of key.key_id m) (key ∷ [])
          (subst (λ x. Memᴰ r (slot_of x m)) (sym ((text_eq_iff key.key_id k).0 e)) h))
  | inr e ↦ rw (slot_of-push_slot k key m, e) h
]

push_slot-valid :
    (k : Text) (key : VerificationKeyRecord) (m : Slots)
    → valid_key_record key ≡ true
    → ((j : Text) → all valid_key_record (slot_of j m) ≡ true)
    → all valid_key_record (slot_of k (push_slot key m)) ≡ true
push_slot-valid k key m v h = elim (Bool-cases (text_eq key.key_id k)) [
  | inl e ↦
      rw (slot_of-push_slot k key m, e)
        (all-append valid_key_record (slot_of key.key_id m) (key ∷ []) (h key.key_id) (rw v))
  | inr e ↦ rw (slot_of-push_slot k key m, e) (h k)
]

group-cons :
    (key : VerificationKeyRecord) (keys : List VerificationKeyRecord) (m out : Slots)
    (vs : List Text)
    → group (key ∷ keys) m vs ≡ ok out
    → (valid_key_record key ≡ true)
      × (any (text_eq (key_version_index key.key_id key.key_version)) vs ≡ false)
      × (group keys (push_slot key m) (key_version_index key.key_id key.key_version ∷ vs) ≡ ok out)
unfolding group
group-cons key keys m out vs h = (ground arith, ground arith, ground arith)

-- Grouping keeps what the slots hold, and puts each record into the slot of its key.
group-keeps :
    (keys : List VerificationKeyRecord) (m out : Slots) (vs : List Text) (k : Text)
    {r : VerificationKeyRecord}
    → group keys m vs ≡ ok out
    → Memᴰ r (slot_of k m)
    → Memᴰ r (slot_of k out)
unfolding group
group-keeps [] m out vs k {r} h i = subst (λ x. Memᴰ r (slot_of k x)) (ok-injective h) i
group-keeps (key ∷ keys) m out vs k h i =
    group-keeps keys (push_slot key m) out _ k (group-cons key keys m out vs h).2
      (push_slot-keeps k key m i)

pub group-mem :
    (keys : List VerificationKeyRecord) (m out : Slots) (vs : List Text) {r : VerificationKeyRecord}
    → group keys m vs ≡ ok out
    → Memᴰ r keys
    → Memᴰ r (slot_of r.key_id out)
group-mem [] m out vs h i = elim i [ ]
group-mem (key ∷ keys) m out vs {r} h (Memᴰ.head e) =
    group-keeps keys (push_slot key m) out _ r.key_id (group-cons key keys m out vs h).2
      (subst (λ x. Memᴰ x (slot_of x.key_id (push_slot key m))) (sym e) (push_slot-self key m))
group-mem (key ∷ keys) m out vs h (Memᴰ.tail i) =
    group-mem keys (push_slot key m) out _ (group-cons key keys m out vs h).2 i

pub group-valid :
    (keys : List VerificationKeyRecord) (m out : Slots) (vs : List Text)
    → group keys m vs ≡ ok out
    → ((k : Text) → all valid_key_record (slot_of k m) ≡ true)
    → (k : Text) → all valid_key_record (slot_of k out) ≡ true
unfolding group
group-valid [] m out vs h v k =
    subst (λ x. all valid_key_record (slot_of k x) ≡ true) (ok-injective h) (v k)
group-valid (key ∷ keys) m out vs h v k =
    let parts = group-cons key keys m out vs h in
    group-valid keys (push_slot key m) out _ parts.2 (λ j. push_slot-valid j key m parts.0 v) k

slot_of-cons :
    (j k : Text) (slot : List VerificationKeyRecord) (m : Slots)
    → slot_of k ((j, slot) ∷ m) ≡ (if text_eq j k then slot else slot_of k m)
slot_of-cons j k slot m = ground arith

check_slots-slot_of :
    (m : Slots) (k : Text) → check_slots m ≡ ok tt → check_slot (slot_of k m) ≡ ok tt
unfolding check_slots
check_slots-slot_of [] k h = unfold check_slot in refl
check_slots-slot_of ((j, slot) ∷ m) k h = elim (Bool-cases (text_eq j k)) [
  | inl e ↦ rw (slot_of-cons j k slot m, e) (ground arith)
  | inr e ↦ rw (slot_of-cons j k slot m, e) (check_slots-slot_of m k (ground arith))
]

-- A checked slot has one identity, and its records are in order.
check_slot-identity :
    (slot : List VerificationKeyRecord)
    → check_slot slot ≡ ok tt
    → {r s : VerificationKeyRecord} → Memᴰ r slot
    → Memᴰ s slot
    → (r.subject_id ≡ s.subject_id) × (r.purpose ≡ s.purpose) × (r.scope_id ≡ s.scope_id)
unfolding check_slot
check_slot-identity [] h m n = elim m [ ]
check_slot-identity (first ∷ rest) h {r} {s} m n =
    let a = any-mem (λ key. not (same_identity first key)) (first ∷ rest) (ground arith) m in
    let b = any-mem (λ key. not (same_identity first key)) (first ∷ rest) (ground arith) n in
    same first r s a b
  where
    same :
        (f r s : VerificationKeyRecord)
        → not (same_identity f r) ≡ false
        → not (same_identity f s) ≡ false
        → (r.subject_id ≡ s.subject_id) × (r.purpose ≡ s.purpose) × (r.scope_id ≡ s.scope_id)
    same f r s a b =
        unfold same_identity in
        ground (
          arith,
          text_eq_iff r.subject_id f.subject_id,
          text_eq_iff s.subject_id f.subject_id,
          text_eq_iff r.purpose f.purpose,
          text_eq_iff s.purpose f.purpose,
          text_eq_iff r.scope_id f.scope_id,
          text_eq_iff s.scope_id f.scope_id,
        )

check_slot-Ordered :
    (slot : List VerificationKeyRecord)
    → check_slot slot ≡ ok tt
    → all valid_key_record slot ≡ true
    → {r s : VerificationKeyRecord} → Memᴰ r slot
    → Memᴰ s slot
    → Ordered r s
unfolding check_slot
check_slot-Ordered [] h v m n = elim m [ ]
check_slot-Ordered (first ∷ rest) h v m n =
    check_ordered-Ordered (sort_by VerificationKeyRecord.key_version (first ∷ rest)) (ground arith)
      (all-sort_by valid_key_record VerificationKeyRecord.key_version (first ∷ rest) v)
      (mem-sort_by VerificationKeyRecord.key_version (first ∷ rest) m)
      (mem-sort_by VerificationKeyRecord.key_version (first ∷ rest) n)

-- The slot that two records of one key share.
module _ (history : List VerificationKeyRecord)
    (valid : validate_verification_key_history history ≡ ok tt) where
  grouped : (slots : Slots) × (group history [] [] ≡ ok slots) × (check_slots slots ≡ ok tt)
  unfolding validate_verification_key_history
  grouped = group_of (group history [] []) (ground arith)
    where
      group_of :
          (g : Result HistoryRefusal Slots)
          → (g >>= check_slots) ≡ ok tt
          → (slots : Slots) × (g ≡ ok slots) × (check_slots slots ≡ ok tt)
      group_of g h = bind-eq-ok g check_slots h

  pub records_valid : {r : VerificationKeyRecord} → Memᴰ r history → valid_key_record r ≡ true
  records_valid {r} m =
      let (slots, g, c) = grouped in
      all-mem valid_key_record (slot_of r.key_id slots)
        (group-valid history [] slots [] g (λ k. refl) r.key_id) (group-mem history [] slots [] g m)

  module _ {r s : VerificationKeyRecord} (m : Memᴰ r history) (n : Memᴰ s history)
      (same : r.key_id ≡ s.key_id) where
    in_slot : Memᴰ s (slot_of r.key_id grouped.0)
    in_slot =
        subst (λ k. Memᴰ s (slot_of k grouped.0)) (sym same)
          (group-mem history [] grouped.0 [] grouped.1 n)

    pub records_identity :
        (r.subject_id ≡ s.subject_id) × (r.purpose ≡ s.purpose) × (r.scope_id ≡ s.scope_id)
    records_identity =
        check_slot-identity (slot_of r.key_id grouped.0)
          (check_slots-slot_of grouped.0 r.key_id grouped.2)
          (group-mem history [] grouped.0 [] grouped.1 m) in_slot

    pub records_Ordered : Ordered r s
    records_Ordered =
        check_slot-Ordered (slot_of r.key_id grouped.0)
          (check_slots-slot_of grouped.0 r.key_id grouped.2)
          (group-valid history [] grouped.0 [] grouped.1 (λ k. refl) r.key_id)
          (group-mem history [] grouped.0 [] grouped.1 m) in_slot
