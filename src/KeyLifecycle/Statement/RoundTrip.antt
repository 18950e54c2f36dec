-- ===== src/KeyLifecycle/Statement/RoundTrip.antt =====
-- Signing, then verifying (examples/player-local-runtime/key-lifecycle.ts).
use converge_audit.Prelude.{
  ℕ, ◌+◌, ◌≤◌, ◌≡◌, refl, sym, Bool, true, none, some, arith, ok, List, Memᴰ, subst,
}
use converge_audit.Prelude.Text.{Text, bounded_text, max_safe_integer}
use converge_audit.KeyLifecycle.Records.{
  VerificationKeyRecord, valid_key_record, issuance_time_refusal, texts_valid,
}
use converge_audit.KeyLifecycle.History.{CompiledHistory, compile_verification_key_history}
use converge_audit.KeyLifecycle.History.Lookup.{lookup_key-finds}
use converge_audit.KeyLifecycle.Statement.{
  UnsignedStatement, KeyBoundAuthentication, Signer, VerificationContext, Verifiers,
  is_key_bound_authentication, sign_key_bound_statement, prepare_unsigned_key_bound_statement,
  verify_key_bound_statement, canonical_key_bound_signature_statement, names_valid,
}
use converge_audit.KeyLifecycle.Statement.Soundness.{Accepted, Accepted-accepts}

-- The statement that signing with a key makes.
abbrev pub statement_of : VerificationKeyRecord → Text → Text → ℕ → UnsignedStatement
statement_of key unit_id statement_digest issued_at_ms = record {
  version = 1;
  purpose = key.purpose;
  scope_id = key.scope_id;
  unit_id = unit_id;
  subject_id = key.subject_id;
  key_id = key.key_id;
  key_version = key.key_version;
  scheme = key.scheme;
  public_key = key.public_key;
  statement_digest = statement_digest;
  issued_at_ms = issued_at_ms;
}

-- The options under which the signed statement is the expected one.
abbrev pub context_of :
    VerificationKeyRecord → Text → Text → ℕ → ℕ → CompiledHistory → VerificationContext
context_of key unit_id statement_digest now_ms max_clock_skew_ms history = record {
  purpose = key.purpose;
  scope_id = key.scope_id;
  unit_id = unit_id;
  subject_id = key.subject_id;
  statement_digest = statement_digest;
  now_ms = now_ms;
  max_clock_skew_ms = max_clock_skew_ms;
  history = some history;
}

module _ (hash_string : Text → Text) (key : VerificationKeyRecord) (unit_id statement_digest : Text)
    (issued_at_ms : ℕ) (signer : Signer) (a : KeyBoundAuthentication)
    (signed : sign_key_bound_statement hash_string key unit_id statement_digest issued_at_ms signer
      ≡ ok a) where
  signed_statement : a.unsigned ≡ statement_of key unit_id statement_digest issued_at_ms
  unfolding sign_key_bound_statement prepare_unsigned_key_bound_statement
  signed_statement = ground arith

  signed_signature :
      a.signature
      ≡ signer.sign_digest (hash_string (canonical_key_bound_signature_statement a.unsigned))
  unfolding sign_key_bound_statement prepare_unsigned_key_bound_statement
  signed_signature = ground arith

  signed_guards :
      (valid_key_record key ≡ true)
      × (bounded_text unit_id 256 ≡ true)
      × (bounded_text statement_digest 4096 ≡ true)
      × (issuance_time_refusal key issued_at_ms ≡ none)
      × (bounded_text a.signature 16384 ≡ true)
  unfolding sign_key_bound_statement prepare_unsigned_key_bound_statement
  signed_guards = ground arith

-- The statement that signing makes is well formed.
statement_of-well_formed :
    (key : VerificationKeyRecord) (unit_id statement_digest : Text) (at : ℕ) (signature : Text)
    → valid_key_record key ≡ true
    → bounded_text unit_id 256 ≡ true
    → bounded_text statement_digest 4096 ≡ true
    → issuance_time_refusal key at ≡ none
    → bounded_text signature 16384 ≡ true
    → is_key_bound_authentication
        (record { unsigned = statement_of key unit_id statement_digest at; signature = signature })
      ≡ true
unfolding is_key_bound_authentication names_valid valid_key_record texts_valid issuance_time_refusal
statement_of-well_formed key u d at s valid hu hd may hs = ground arith

-- A statement signed with a key of a compiled history is accepted under its own key and version,
-- where the options expect its purpose, scope, unit, subject and digest, the clock and its skew
-- reach the time of issuance and are safe integers, and the verifier of the key's scheme accepts
-- what the signer signs.
pub verify-sign :
    (hash_string : Text → Text) (verifiers : Verifiers) (records : List VerificationKeyRecord)
    (history : CompiledHistory) (key : VerificationKeyRecord) (unit_id statement_digest : Text)
    (issued_at_ms now_ms max_clock_skew_ms : ℕ) (signer : Signer)
    (verify : Text → Text → Text → Bool) (a : KeyBoundAuthentication)
    → compile_verification_key_history records ≡ ok history
    → Memᴰ key records
    → sign_key_bound_statement hash_string key unit_id statement_digest issued_at_ms signer ≡ ok a
    → now_ms + max_clock_skew_ms ≤ max_safe_integer
    → issued_at_ms ≤ now_ms + max_clock_skew_ms
    → verifiers key.scheme ≡ some verify
    → ((digest : Text) → verify key.public_key digest (signer.sign_digest digest) ≡ true)
    → verify_key_bound_statement hash_string verifiers a
        (context_of key unit_id statement_digest now_ms max_clock_skew_ms history)
      ≡ ok (key.key_id, key.key_version)
verify-sign hash verifiers records history key u d at now skew signer verify a compiled m signed
      safe past reg correct =
    let e = signed_statement hash key u d at signer a signed in
    let (valid, hu, hd, may, hs) = signed_guards hash key u d at signer a signed in
    let whole : a ≡ record { unsigned = statement_of key u d at; signature = a.signature } =
      λ i. record { unsigned = e i; signature = a.signature } in
    let good : Accepted hash verifiers
        (record { unsigned = statement_of key u d at; signature = a.signature })
        (context_of key u d now skew history) history key =
      record {
        well_formed = statement_of-well_formed key u d at a.signature valid hu hd may hs;
        compiled = refl;
        expected = (refl, refl, refl, refl, refl);
        known = lookup_key-finds records history compiled key m;
        bound = (refl, refl, refl, refl, refl);
        on_time = (safe, past);
        may_sign = may;
        verified =
            rw reg (rw (signed_signature hash key u d at signer a signed) (rw e (correct _)));
      } in
    subst
      (λ x.
        verify_key_bound_statement hash verifiers x (context_of key u d now skew history)
        ≡ ok (key.key_id, key.key_version))
      (sym whole) (Accepted-accepts hash verifiers _ _ history key good)
