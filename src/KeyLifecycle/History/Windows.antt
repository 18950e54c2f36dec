-- ===== src/KeyLifecycle/History/Windows.antt =====
-- The windows of a validated history (examples/player-local-runtime/key-lifecycle.ts).
use converge_audit.Prelude.{◌≤◌, ◌<◌, ◌≡◌, inl, inr, ℕ, none, List, Memᴰ, arith, ok}
use converge_audit.KeyLifecycle.Records.{
  VerificationKeyRecord, issuance_time_refusal, issuance_time_window,
}
use converge_audit.KeyLifecycle.History.{validate_verification_key_history}
use converge_audit.KeyLifecycle.History.Chain.{Before, Ordered}
use converge_audit.KeyLifecycle.History.Slots.{records_identity, records_Ordered}

later-Before :
    {r s : VerificationKeyRecord} → Ordered r s → r.key_version < s.key_version → Before r s
later-Before (inl e) h = absurd (omega (arith, irrefl e))
  where
    irrefl : {r s : VerificationKeyRecord} → r ≡ s → r.key_version ≡ s.key_version
    irrefl e = λ i. (e i).key_version
later-Before (inr (inl b)) h = b
later-Before (inr (inr b)) h = absurd (omega (arith, b.versions))

-- In a history that validates, of two records of one key the one with the lower version stops
-- being valid no later than the other starts, and both have one subject, purpose and scope.
pub validate-windows :
    (history : List VerificationKeyRecord)
    → validate_verification_key_history history ≡ ok tt
    → (r s : VerificationKeyRecord) → Memᴰ r history
    → Memᴰ s history
    → r.key_id ≡ s.key_id
    → r.key_version < s.key_version
    → (r.valid_until_ms ≤ s.valid_from_ms)
      × (r.subject_id ≡ s.subject_id)
      × (r.purpose ≡ s.purpose)
      × (r.scope_id ≡ s.scope_id)
validate-windows history valid r s m n same h =
    let before = later-Before (records_Ordered history valid m n same) h in
    let (subject, purpose, scope) = records_identity history valid m n same in
    (before.windows, subject, purpose, scope)

-- In a history that validates, at most one version of a key may sign at any given time.
pub one_signing_version :
    (history : List VerificationKeyRecord)
    → validate_verification_key_history history ≡ ok tt
    → (r s : VerificationKeyRecord) (at : ℕ) → Memᴰ r history
    → Memᴰ s history
    → r.key_id ≡ s.key_id
    → issuance_time_refusal r at ≡ none
    → issuance_time_refusal s at ≡ none
    → r ≡ s
one_signing_version history valid r s at m n same may_r may_s =
    pick (records_Ordered history valid m n same)
  where
    pick : Ordered r s → r ≡ s
    pick (inl e) = e
    pick (inr (inl b)) =
        absurd (
          omega
            (arith, b.windows, issuance_time_window r at may_r, issuance_time_window s at may_s))
    pick (inr (inr b)) =
        absurd (
          omega
            (arith, b.windows, issuance_time_window r at may_r, issuance_time_window s at may_s))

-- In a history that validates, two records with one key and one version are one record.
pub version_unique :
    (history : List VerificationKeyRecord)
    → validate_verification_key_history history ≡ ok tt
    → {r s : VerificationKeyRecord} → Memᴰ r history
    → Memᴰ s history
    → r.key_id ≡ s.key_id
    → r.key_version ≡ s.key_version
    → r ≡ s
version_unique history valid {r} {s} m n same versions =
    pick (records_Ordered history valid m n same)
  where
    pick : Ordered r s → r ≡ s
    pick (inl e) = e
    pick (inr (inl b)) = absurd (omega (arith, b.versions))
    pick (inr (inr b)) = absurd (omega (arith, b.versions))
