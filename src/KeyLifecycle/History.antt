-- ===== src/KeyLifecycle/History.antt =====
-- Validation of a key history and the compiled lookup
-- (examples/player-local-runtime/key-lifecycle.ts).
pub mod Chain
pub mod Slots
pub mod Windows
pub mod Lookup
use converge_audit.Prelude.{
  ℕ, ◌+◌, Bool, true, false, not, ◌&&◌, ◌||◌, Option, none, some, List, [], ◌∷◌, ◌++◌, ltb, ◌==◌,
  if◌then◌else◌, length, any, sort_by, Result, ok, err, ◌>>=◌, ◌>>◌, refuse_if,
}
use converge_audit.Prelude.Text.{Text, text_eq}
use converge_audit.Prelude.Dict.{Dict, lookup, insert}
use converge_audit.KeyLifecycle.Records.{VerificationKeyRecord, valid_key_record, key_version_index}

pub data HistoryRefusal : Type 0 where
  invalid_key_record duplicate_key_version key_identity_changed : HistoryRefusal
  non_monotonic_key_version overlapping_key_versions : HistoryRefusal

abbrev pub Check : Type 0
Check = Result HistoryRefusal (Unit {0})

-- The records of each key slot, in the order of arrival.
abbrev pub Slots : Type 0
Slots = Dict (List VerificationKeyRecord)

-- `slots.get(keyId) ?? []`
abbrev pub slot_of : Text → Slots → List VerificationKeyRecord
slot_of key_id slots = elim (lookup key_id slots) [ none ↦ [] | some slot ↦ slot ]

unfoldable pub push_slot : VerificationKeyRecord → Slots → Slots
push_slot key slots = insert key.key_id (slot_of key.key_id slots ++ key ∷ []) slots

-- The first loop, over the records.
unfoldable pub group : List VerificationKeyRecord → Slots → List Text → Result HistoryRefusal Slots
group [] slots versions = ok slots
group (key ∷ keys) slots versions = do
  let rest =
      group keys (push_slot key slots) (key_version_index key.key_id key.key_version ∷ versions)
  refuse_if (not (valid_key_record key)) invalid_key_record
  refuse_if (any (text_eq (key_version_index key.key_id key.key_version)) versions)
      duplicate_key_version
  rest

unfoldable pub same_identity : VerificationKeyRecord → VerificationKeyRecord → Bool
same_identity first key =
    text_eq key.subject_id first.subject_id
    && text_eq key.purpose first.purpose
    && text_eq key.scope_id first.scope_id

-- The inner loop over neighbours in the order of versions.
unfoldable pub check_chain : VerificationKeyRecord → List VerificationKeyRecord → Check
check_chain previous [] = ok tt
check_chain previous (current ∷ later) = do
  let rest = check_chain current later
  refuse_if (not (current.key_version == previous.key_version + 1)) non_monotonic_key_version
  refuse_if (ltb current.valid_from_ms previous.valid_until_ms) overlapping_key_versions
  rest

abbrev pub check_ordered : List VerificationKeyRecord → Check
check_ordered [] = ok tt
check_ordered (first ∷ later) = check_chain first later

unfoldable pub check_slot : List VerificationKeyRecord → Check
check_slot [] = ok tt
check_slot (first ∷ rest) = do
  refuse_if (any (λ key. not (same_identity first key)) (first ∷ rest)) key_identity_changed
  check_ordered (sort_by VerificationKeyRecord.key_version (first ∷ rest))

-- The second loop, over the slots.
unfoldable pub check_slots : Slots → Check
check_slots [] = ok tt
check_slots ((key_id, slot) ∷ slots) = do let rest = check_slots slots; check_slot slot; rest

unfoldable pub validate_verification_key_history : List VerificationKeyRecord → Check
validate_verification_key_history history = do
  refuse_if (length history == 0 || ltb 1024 (length history)) invalid_key_record
  slots ← group history [] []
  check_slots slots

-- The records of a validated history with their index.
pub record CompiledHistory : Type 0 where
  pub records : List VerificationKeyRecord
  pub index : Dict VerificationKeyRecord

unfoldable pub index_from :
    List VerificationKeyRecord → Dict VerificationKeyRecord → Dict VerificationKeyRecord
index_from [] index = index
index_from (key ∷ keys) index =
    index_from keys (insert (key_version_index key.key_id key.key_version) key index)

unfoldable pub compile_verification_key_history :
    List VerificationKeyRecord → Result HistoryRefusal CompiledHistory
compile_verification_key_history records = do
  validate_verification_key_history records
  ok (record { records = records; index = index_from records [] })

unfoldable pub lookup_key : CompiledHistory → Text → ℕ → Option VerificationKeyRecord
lookup_key history key_id key_version = lookup (key_version_index key_id key_version) history.index
