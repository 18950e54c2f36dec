-- ===== src/KeyLifecycle/Tests.antt =====
-- A slot with two versions of a key, and the theorems at it.
use converge_audit.Prelude.{
  ◌≡◌, ◌≤◌, ◌↔◌, refl, Bool, none, some, List, [], ◌∷◌, ok, err, Memᴰ, arith, sort_by,
}
use converge_audit.Prelude.Text.{Text, codes, text_eq, text_eq_refl, matches_identifier}
use converge_audit.Prelude.Decimal.{decimal}
use converge_audit.KeyLifecycle.Records.{
  VerificationKeyRecord, valid_key_record, texts_valid, issuance_time_refusal, key_version_index,
}
use converge_audit.KeyLifecycle.History.{
  Check, group, check_slots, push_slot, check_slot, same_identity, check_chain, CompiledHistory,
  compile_verification_key_history, validate_verification_key_history, lookup_key,
  overlapping_key_versions, index_from,
}
use converge_audit.KeyLifecycle.History.Windows.{validate-windows, one_signing_version}
use converge_audit.KeyLifecycle.History.Lookup.{lookup_key-exact}
use converge_audit.KeyLifecycle.Statement.{
  KeyBoundAuthentication, Signer, Verifiers, sign_key_bound_statement,
  prepare_unsigned_key_bound_statement, verify_key_bound_statement,
}
use converge_audit.KeyLifecycle.Statement.Canonical.{canonical_statement_injective}
use converge_audit.KeyLifecycle.Statement.Soundness.{Accepted, verify_accepts_iff}
use converge_audit.KeyLifecycle.Statement.RoundTrip.{verify-sign, statement_of, context_of}

abbrev first_key : VerificationKeyRecord
first_key = record {
  version = 1;
  key_id = codes "slot-a";
  key_version = 1;
  subject_id = codes "witness";
  purpose = codes "checkpoint";
  scope_id = codes "scope";
  scheme = codes "ed25519";
  public_key = codes "pk1";
  valid_from_ms = 100;
  valid_until_ms = 200;
  revoked_at_ms = none;
}

abbrev second_key : VerificationKeyRecord
second_key = record first_key {
  key_version = 2;
  public_key = codes "pk2";
  valid_from_ms = 200;
  valid_until_ms = 300;
  revoked_at_ms = some 250;
}

abbrev keys : List VerificationKeyRecord
keys = second_key ∷ first_key ∷ []

-- Opens what a run of the validation, of a lookup and of a signature computes with.
run_of_validation : List VerificationKeyRecord → Check
unfolding validate_verification_key_history group valid_key_record texts_valid matches_identifier
    text_eq key_version_index decimal check_slots push_slot check_slot same_identity sort_by
    check_chain
run_of_validation history = validate_verification_key_history history

keys_valid : validate_verification_key_history keys ≡ ok tt
unfolding run_of_validation
keys_valid = refl

-- Windows that overlap are refused.
overlap_refused :
    validate_verification_key_history (record second_key { valid_from_ms = 199 } ∷ first_key ∷ [])
    ≡ err overlapping_key_versions
unfolding run_of_validation
overlap_refused = refl

validate-windows_example :
    (200 ≤ 200)
    × (first_key.subject_id ≡ second_key.subject_id)
    × (first_key.purpose ≡ second_key.purpose)
    × (first_key.scope_id ≡ second_key.scope_id)
validate-windows_example =
    validate-windows keys keys_valid first_key second_key (Memᴰ.tail (Memᴰ.head refl))
      (Memᴰ.head refl) refl (omega arith)

one_signing_version_example : second_key ≡ second_key
unfolding issuance_time_refusal
one_signing_version_example =
    one_signing_version keys keys_valid second_key second_key 220 (Memᴰ.head refl) (Memᴰ.head refl)
      refl refl refl

abbrev compiled_keys : CompiledHistory
compiled_keys = record { records = keys; index = index_from keys [] }

keys_compiled : compile_verification_key_history keys ≡ ok compiled_keys
unfolding compile_verification_key_history run_of_validation
keys_compiled = refl

lookup_key-exact_example :
    (lookup_key compiled_keys (codes "slot-a") 2 ≡ some second_key)
    ↔ (Memᴰ second_key keys × (second_key.key_id ≡ codes "slot-a") × (second_key.key_version ≡ 2))
lookup_key-exact_example =
    lookup_key-exact keys compiled_keys keys_compiled (codes "slot-a") 2 second_key (ground arith)

-- A signature that is the digest itself, and the verifier that accepts it.
abbrev signer : Signer
signer = record { scheme = codes "ed25519"; public_key = codes "pk2"; sign_digest = λ d. d }

abbrev equal_verifier : Text → Text → Text → Bool
equal_verifier public_key digest signature = text_eq digest signature

abbrev verifiers : Verifiers
verifiers scheme = some equal_verifier

abbrev hash_string : Text → Text
hash_string t = codes "digest"

abbrev signed : KeyBoundAuthentication
signed = record {
  unsigned = statement_of second_key (codes "unit") (codes "statement") 220;
  signature = codes "digest";
}

run_of_signing :
    sign_key_bound_statement hash_string second_key (codes "unit") (codes "statement") 220 signer
    ≡ ok signed
unfolding sign_key_bound_statement prepare_unsigned_key_bound_statement issuance_time_refusal
    run_of_validation
run_of_signing = refl

verify-sign_example :
    verify_key_bound_statement hash_string verifiers signed
      (context_of second_key (codes "unit") (codes "statement") 215 5 compiled_keys)
    ≡ ok (codes "slot-a", 2)
verify-sign_example =
    verify-sign hash_string verifiers keys compiled_keys second_key (codes "unit")
      (codes "statement") 220 215 5 signer equal_verifier signed keys_compiled (Memᴰ.head refl)
      run_of_signing (omega arith) (omega arith) refl (λ d. text_eq_refl d)

verify_accepts_iff_example :
    (verify_key_bound_statement hash_string verifiers signed
        (context_of second_key (codes "unit") (codes "statement") 215 5 compiled_keys)
      ≡ ok (codes "slot-a", 2))
    ↔ ((history : CompiledHistory) × (key : VerificationKeyRecord) × Accepted hash_string verifiers
          signed
          (context_of second_key (codes "unit") (codes "statement") 215 5 compiled_keys)
          history
          key)
verify_accepts_iff_example =
    verify_accepts_iff hash_string verifiers signed
      (context_of second_key (codes "unit") (codes "statement") 215 5 compiled_keys)

canonical_statement_injective_example : signed.unsigned ≡ signed.unsigned
canonical_statement_injective_example =
    canonical_statement_injective signed.unsigned signed.unsigned refl
