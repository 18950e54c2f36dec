-- ===== src/KeyLifecycle/Records.antt =====
-- Key records, their validity, and the time window in which a key may sign
-- (examples/player-local-runtime/key-lifecycle.ts). A number is a whole number that is not
-- negative.
use converge_audit.Prelude.{
  ℕ, ◌≤◌, ◌<◌, ◌≡◌, Bool, true, false, not, ◌&&◌, ◌||◌, Option, none, some, ◌∷◌, ◌++◌, arith, ltb,
  leb, ◌==◌, if◌then◌else◌,
}
use converge_audit.Prelude.Text.{
  Text, bounded_text, identifier, safe_positive_integer, safe_non_negative_integer,
  max_safe_integer,
}
use converge_audit.Prelude.Decimal.{decimal}

pub record VerificationKeyRecord : Type 0 where
  pub version : ℕ
  pub key_id : Text
  pub key_version : ℕ
  pub subject_id : Text
  pub purpose : Text
  pub scope_id : Text
  pub scheme : Text
  pub public_key : Text
  pub valid_from_ms : ℕ
  pub valid_until_ms : ℕ
  pub revoked_at_ms : Option ℕ

-- The revocation, where there is one, lies between the two ends of the window.
abbrev pub revocation_in_window : Option ℕ → ℕ → ℕ → Bool
revocation_in_window none from until = true
revocation_in_window (some at) from until =
    safe_non_negative_integer at && leb from at && leb at until

-- The texts of a record.
unfoldable pub texts_valid : VerificationKeyRecord → Bool
texts_valid r =
    identifier r.key_id 256
    && identifier r.subject_id 256
    && identifier r.purpose 128
    && bounded_text r.scope_id 256
    && identifier r.scheme 128
    && bounded_text r.public_key 16384

unfoldable pub valid_key_record : VerificationKeyRecord → Bool
valid_key_record r =
    r.version == 1
    && texts_valid r
    && safe_positive_integer r.key_version
    && safe_non_negative_integer r.valid_from_ms
    && safe_non_negative_integer r.valid_until_ms
    && ltb r.valid_from_ms r.valid_until_ms
    && revocation_in_window r.revoked_at_ms r.valid_from_ms r.valid_until_ms

-- What a valid record's numbers satisfy.
pub valid_key_record_window :
    (r : VerificationKeyRecord)
    → valid_key_record r ≡ true
    → (r.valid_from_ms < r.valid_until_ms)
      × (r.valid_until_ms ≤ max_safe_integer)
      × (0 < r.key_version)
      × (texts_valid r ≡ true)
unfolding valid_key_record
valid_key_record_window r h = ground arith

pub data IssuanceRefusal : Type 0 where
  key_not_yet_valid_at_issuance key_expired_at_issuance key_revoked_at_issuance : IssuanceRefusal

abbrev pub revoked_by : Option ℕ → ℕ → Bool
revoked_by none at = false
revoked_by (some revoked) at = leb revoked at

-- Why a key may not sign at a time; `none` where it may.
unfoldable pub issuance_time_refusal : VerificationKeyRecord → ℕ → Option IssuanceRefusal
issuance_time_refusal key issued_at_ms =
    if not (safe_non_negative_integer issued_at_ms) || ltb issued_at_ms key.valid_from_ms
    then some key_not_yet_valid_at_issuance
    else if leb key.valid_until_ms issued_at_ms
    then some key_expired_at_issuance
    else if revoked_by key.revoked_at_ms issued_at_ms
    then some key_revoked_at_issuance
    else none

unfoldable pub key_version_index : Text → ℕ → Text
key_version_index key_id key_version = key_id ++ 0 ∷ decimal key_version

-- What a key that may sign at a time satisfies.
pub issuance_time_window :
    (key : VerificationKeyRecord) (at : ℕ)
    → issuance_time_refusal key at ≡ none
    → (key.valid_from_ms ≤ at)
      × (at < key.valid_until_ms)
      × (revoked_by key.revoked_at_ms at ≡ false)
unfolding issuance_time_refusal
issuance_time_window key at h = ground arith
