-- ===== src/KeyLedger/ImageCheck.antt =====
-- Validity of a ledger image (examples/player-local-runtime/key-lifecycle-ledger.ts).
use converge_audit.Prelude.{
  ℕ, ◌+◌, ◌-◌, Bool, true, false, not, ◌&&◌, Option, none, some, List, [], ◌∷◌, ◌++◌, map, ltb, leb,
  ◌==◌, if◌then◌else◌, length, all, any, filter, sort_by, Result, ok, err,
}
use converge_audit.Prelude.Text.{
  Text, text_eq, identifier, is_hex, safe_positive_integer, safe_non_negative_integer,
}
use converge_audit.Prelude.Dict.{Dict, lookup, insert}
use converge_audit.KeyLifecycle.Records.{VerificationKeyRecord}
use converge_audit.KeyLifecycle.History.{validate_verification_key_history}
use converge_audit.KeyLedger.Events.{
  provision, rotate, revoke, LifecycleEvent, revision_of, version_of, Image,
}

abbrev pub is_ok : {E A : Type 0} → Result E A → Bool
is_ok (ok a) = true
is_ok (err e) = false

abbrev pub is_provision : LifecycleEvent → Bool
is_provision e = elim e.event_kind [ provision ↦ true | rotate ↦ false | revoke ↦ false ]

abbrev pub is_rotate : LifecycleEvent → Bool
is_rotate e = elim e.event_kind [ provision ↦ false | rotate ↦ true | revoke ↦ false ]

abbrev pub is_revoke : LifecycleEvent → Bool
is_revoke e = elim e.event_kind [ provision ↦ false | rotate ↦ false | revoke ↦ true ]

unfoldable pub event_well_formed : LifecycleEvent → Bool
event_well_formed e =
    e.version == 1
    && identifier e.key_id 256
    && safe_positive_integer e.key_version
    && safe_positive_integer e.lifecycle_revision
    && is_hex 64 e.event_digest
    && ltb 0 (length e.canonical_event)
    && leb (length e.canonical_event) 65536
    && safe_non_negative_integer e.committed_at_ms

abbrev pub EventSlots : Type 0
EventSlots = Dict (List LifecycleEvent)

abbrev pub events_of : Text → EventSlots → List LifecycleEvent
events_of key_id slots = elim (lookup key_id slots) [ none ↦ [] | some slot ↦ slot ]

-- The loop over the events; `none` where one of them is malformed.
unfoldable pub group_events : List LifecycleEvent → EventSlots → Option EventSlots
group_events [] slots = some slots
group_events (e ∷ es) slots =
    let rest = group_events es (insert e.key_id (events_of e.key_id slots ++ e ∷ []) slots) in
    if event_well_formed e then rest else none

-- Whether the elements carry the numbers from `n` on, in order.
abbrev pub numbered {ℓ} : {A : Type ℓ} → (A → ℕ) → ℕ → List A → Bool
numbered key n [] = true
numbered key n (x ∷ xs) = key x == n && numbered key (n + 1) xs

abbrev pub starts_with_provision : List LifecycleEvent → Bool
starts_with_provision [] = false
starts_with_provision (e ∷ es) = is_provision e

abbrev pub by_revision : List LifecycleEvent → List LifecycleEvent
by_revision = sort_by revision_of

unfoldable pub event_slot_valid : Text × List LifecycleEvent → Bool
event_slot_valid (key_id, events) =
    starts_with_provision (by_revision events)
    && numbered revision_of 1 (by_revision events)
    && all (λ e. text_eq e.key_id key_id) (by_revision events)

-- No event was committed before the event of the revision before it.
abbrev pub times_ordered : List LifecycleEvent → Bool
times_ordered [] = true
times_ordered (a ∷ []) = true
times_ordered (a ∷ b ∷ es) = leb a.committed_at_ms b.committed_at_ms && times_ordered (b ∷ es)

-- The elements of `new Set(xs)`, in order.
unfoldable pub distinct {ℓ} : {A : Type ℓ} → (A → A → Bool) → List A → List A
distinct eq [] = []
distinct eq (x ∷ xs) = x ∷ filter (λ y. not (eq x y)) (distinct eq xs)

abbrev pub first_version_is_one : List LifecycleEvent → Bool
first_version_is_one [] = false
first_version_is_one (e ∷ es) = e.key_version == 1

abbrev pub is_revoked : VerificationKeyRecord → Bool
is_revoked r = elim r.revoked_at_ms [ none ↦ false | some at ↦ true ]

abbrev pub rotations_match : List VerificationKeyRecord → List LifecycleEvent → Bool
rotations_match records events =
    length (filter is_rotate events) == length records - 1
    && numbered version_of 2 (filter is_rotate events)

unfoldable pub revocations_match : List VerificationKeyRecord → List LifecycleEvent → Bool
revocations_match records events =
    let revocations = map version_of (filter is_revoke events) in
    let revoked = map VerificationKeyRecord.key_version (filter is_revoked records) in
    length (distinct ◌==◌ revocations) == length revocations
    && all (λ v. any (◌==◌ v) revoked) revocations
    && all (λ v. any (λ w. w == v) revocations) revoked

unfoldable pub key_valid : List VerificationKeyRecord → EventSlots → Text → Bool
key_valid all_records slots key_id =
    let records =
      sort_by VerificationKeyRecord.key_version
        (filter (λ (r : VerificationKeyRecord). text_eq r.key_id key_id) all_records) in
    let events = by_revision (events_of key_id slots) in
    starts_with_provision events
    && first_version_is_one events
    && numbered VerificationKeyRecord.key_version 1 records
    && times_ordered events
    && rotations_match records events
    && revocations_match records events

abbrev pub slots_valid : Image → Option EventSlots → Bool
slots_valid image none = false
slots_valid image (some slots) =
    let key_ids = distinct text_eq (map VerificationKeyRecord.key_id image.records) in
    all event_slot_valid slots
    && length key_ids == length slots
    && all (key_valid image.records slots) key_ids

abbrev pub history_valid : List VerificationKeyRecord → Bool
history_valid [] = true
history_valid (r ∷ rs) = is_ok (validate_verification_key_history (r ∷ rs))

unfoldable pub lifecycle_image_valid : Image → Bool
lifecycle_image_valid image =
    history_valid image.records && slots_valid image (group_events image.events [])
