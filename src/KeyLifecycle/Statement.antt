-- ===== src/KeyLifecycle/Statement.antt =====
-- Key-bound statements: signing and verification
-- (examples/player-local-runtime/key-lifecycle.ts). The digest, the signer and the verifiers are
-- supplied by the platform: they are arguments.
pub mod Canonical
pub mod Soundness
pub mod RoundTrip
use converge_audit.Prelude.{
  ℕ, ◌+◌, Bool, true, false, not, ◌&&◌, ◌||◌, Option, none, some, List, [], ◌∷◌, ltb, ◌==◌,
  if◌then◌else◌, Result, ok, err, ◌>>=◌, ◌>>◌, refuse_if,
}
use converge_audit.Prelude.Text.{
  Text, codes, text_eq, bounded_text, identifier, safe_positive_integer, safe_non_negative_integer,
}
use converge_audit.Prelude.Json.{Json, num, str, array, stringify}
use converge_audit.KeyLifecycle.Records.{
  VerificationKeyRecord, valid_key_record, IssuanceRefusal, issuance_time_refusal,
}
use converge_audit.KeyLifecycle.History.{CompiledHistory, lookup_key}

-- `Omit<KeyBoundAuthentication, "signature">`
pub record UnsignedStatement : Type 0 where
  pub version : ℕ
  pub purpose : Text
  pub scope_id : Text
  pub unit_id : Text
  pub subject_id : Text
  pub key_id : Text
  pub key_version : ℕ
  pub scheme : Text
  pub public_key : Text
  pub statement_digest : Text
  pub issued_at_ms : ℕ

pub record KeyBoundAuthentication : Type 0 where
  pub unsigned : UnsignedStatement
  pub open unsigned use *
  pub signature : Text

abbrev pub statement_json : UnsignedStatement → Json
statement_json s = array (
    str (codes "converge-audit-key-bound-signature-v1")
    ∷ num s.version
    ∷ str s.purpose
    ∷ str s.scope_id
    ∷ str s.unit_id
    ∷ str s.subject_id
    ∷ str s.key_id
    ∷ num s.key_version
    ∷ str s.scheme
    ∷ str s.public_key
    ∷ str s.statement_digest
    ∷ num s.issued_at_ms
    ∷ [])

unfoldable pub canonical_key_bound_signature_statement : UnsignedStatement → Text
canonical_key_bound_signature_statement s = stringify (statement_json s)

-- The part of `isKeyBoundAuthentication` that reads the bound names.
unfoldable pub names_valid : UnsignedStatement → Bool
names_valid s =
    identifier s.purpose 128
    && bounded_text s.scope_id 256
    && bounded_text s.unit_id 256
    && identifier s.subject_id 256
    && identifier s.key_id 256

unfoldable pub is_key_bound_authentication : KeyBoundAuthentication → Bool
is_key_bound_authentication a =
    a.version == 1
    && names_valid a.unsigned
    && safe_positive_integer a.key_version
    && identifier a.scheme 128
    && bounded_text a.public_key 16384
    && bounded_text a.statement_digest 4096
    && safe_non_negative_integer a.issued_at_ms
    && bounded_text a.signature 16384

-- The errors that signing throws.
pub data SigningRefusal : Type 0 where
  invalid_verification_key_record invalid_key_bound_statement signer_does_not_match : SigningRefusal
  not_issuable : IssuanceRefusal → SigningRefusal
  signing_failed : SigningRefusal

pub record Signer : Type 0 where
  pub scheme : Text
  pub public_key : Text
  pub sign_digest : Text → Text

abbrev pub refuse_issuance : Option IssuanceRefusal → Result SigningRefusal (Unit {0})
refuse_issuance none = ok tt
refuse_issuance (some reason) = err (not_issuable reason)

unfoldable pub prepare_unsigned_key_bound_statement :
    VerificationKeyRecord → Text → Text → ℕ → Signer → Result SigningRefusal UnsignedStatement
prepare_unsigned_key_bound_statement key unit_id statement_digest issued_at_ms signer = do
  refuse_if (not (valid_key_record key)) invalid_verification_key_record
  refuse_if (not (bounded_text unit_id 256) || not (bounded_text statement_digest 4096))
      invalid_key_bound_statement
  refuse_if
      (not (text_eq signer.scheme key.scheme) || not (text_eq signer.public_key key.public_key))
      signer_does_not_match
  refuse_issuance (issuance_time_refusal key issued_at_ms)
  ok (record {
    version = 1;
    purpose = key.purpose;
    scope_id = key.scope_id;
    unit_id = unit_id;
    subject_id = key.subject_id;
    key_id = key.key_id;
    key_version = key.key_version;
    scheme = key.scheme;
    public_key = key.public_key;
    statement_digest = statement_digest;
    issued_at_ms = issued_at_ms;
  })

abbrev pub attach : UnsignedStatement → Text → Result SigningRefusal KeyBoundAuthentication
attach unsigned signature = do
  refuse_if (not (bounded_text signature 16384)) signing_failed
  ok (record { unsigned = unsigned; signature = signature })

unfoldable pub sign_key_bound_statement :
    (Text → Text)
    → VerificationKeyRecord
    → Text
    → Text
    → ℕ
    → Signer
    → Result SigningRefusal KeyBoundAuthentication
sign_key_bound_statement hash_string key unit_id statement_digest issued_at_ms signer = do
  unsigned ← prepare_unsigned_key_bound_statement key unit_id statement_digest issued_at_ms signer
  attach unsigned
      (signer.sign_digest (hash_string (canonical_key_bound_signature_statement unsigned)))

pub data VerificationRefusal : Type 0 where
  invalid_authentication invalid_key_history expected_binding_mismatch : VerificationRefusal
  unknown_key_version key_record_binding_mismatch statement_from_future : VerificationRefusal
  refused_at_issuance : IssuanceRefusal → VerificationRefusal
  unsupported_scheme invalid_signature : VerificationRefusal

-- `history` is `none` for a value that was not compiled.
pub record VerificationContext : Type 0 where
  pub purpose : Text
  pub scope_id : Text
  pub unit_id : Text
  pub subject_id : Text
  pub statement_digest : Text
  pub now_ms : ℕ
  pub max_clock_skew_ms : ℕ
  pub history : Option CompiledHistory

-- The verifier of each scheme: a public key, a digest and a signature.
abbrev pub Verifiers : Type 0
Verifiers = Text → Option (Text → Text → Text → Bool)

unfoldable pub expected_binding : KeyBoundAuthentication → VerificationContext → Bool
expected_binding a options =
    text_eq a.purpose options.purpose
    && text_eq a.scope_id options.scope_id
    && text_eq a.unit_id options.unit_id
    && text_eq a.subject_id options.subject_id
    && text_eq a.statement_digest options.statement_digest

unfoldable pub record_binding : VerificationKeyRecord → KeyBoundAuthentication → Bool
record_binding key a =
    text_eq key.subject_id a.subject_id
    && text_eq key.purpose a.purpose
    && text_eq key.scope_id a.scope_id
    && text_eq key.scheme a.scheme
    && text_eq key.public_key a.public_key

unfoldable pub from_future : VerificationContext → ℕ → Bool
from_future options issued_at_ms =
    not (safe_non_negative_integer options.now_ms)
    || not (safe_non_negative_integer options.max_clock_skew_ms)
    || not (safe_non_negative_integer (options.now_ms + options.max_clock_skew_ms))
    || ltb (options.now_ms + options.max_clock_skew_ms) issued_at_ms

abbrev pub or_refuse : {A : Type 0} → Option A → VerificationRefusal → Result VerificationRefusal A
or_refuse none reason = err reason
or_refuse (some a) reason = ok a

abbrev pub refuse_time : Option IssuanceRefusal → Result VerificationRefusal (Unit {0})
refuse_time none = ok tt
refuse_time (some reason) = err (refused_at_issuance reason)

unfoldable pub preflight_key_bound_statement :
    KeyBoundAuthentication
    → VerificationContext
    → (Text → Bool)
    → Result VerificationRefusal VerificationKeyRecord
preflight_key_bound_statement a options scheme_supported = do
  refuse_if (not (is_key_bound_authentication a)) invalid_authentication
  history ← or_refuse options.history invalid_key_history
  refuse_if (not (expected_binding a options)) expected_binding_mismatch
  key ← or_refuse (lookup_key history a.key_id a.key_version) unknown_key_version
  refuse_if (not (record_binding key a)) key_record_binding_mismatch
  refuse_if (from_future options a.issued_at_ms) statement_from_future
  refuse_time (issuance_time_refusal key a.issued_at_ms)
  refuse_if (not (scheme_supported a.scheme)) unsupported_scheme
  ok key

abbrev pub is_defined : {A : Type 0} → Option A → Bool
is_defined none = false
is_defined (some a) = true

-- The call of a verifier that the registry holds.
abbrev pub run_verifier : Option (Text → Text → Text → Bool) → Text → Text → Text → Bool
run_verifier none public_key digest signature = false
run_verifier (some verify) public_key digest signature = verify public_key digest signature

unfoldable pub verify_key_bound_statement :
    (Text → Text)
    → Verifiers
    → KeyBoundAuthentication
    → VerificationContext
    → Result VerificationRefusal (Text × ℕ)
verify_key_bound_statement hash_string verifiers a options = do
  key ← preflight_key_bound_statement a options (λ scheme. is_defined (verifiers scheme))
  let digest = hash_string (canonical_key_bound_signature_statement a.unsigned)
  refuse_if (not (run_verifier (verifiers a.scheme) key.public_key digest a.signature))
      invalid_signature
  ok (a.key_id, a.key_version)
