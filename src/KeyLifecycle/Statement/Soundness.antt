-- ===== src/KeyLifecycle/Statement/Soundness.antt =====
-- What an accepted statement satisfies, and that this is enough
-- (examples/player-local-runtime/key-lifecycle.ts).
use converge_audit.Prelude.{ℕ, ◌+◌, ◌≤◌, ◌≡◌, ◌↔◌, true, false, none, some, arith, ok}
use converge_audit.Prelude.Text.{Text, text_eq_iff, max_safe_integer}
use converge_audit.KeyLifecycle.Records.{VerificationKeyRecord, issuance_time_refusal}
use converge_audit.KeyLifecycle.History.{CompiledHistory, lookup_key}
use converge_audit.KeyLifecycle.Statement.{
  KeyBoundAuthentication, VerificationContext, Verifiers, expected_binding, record_binding,
  from_future, is_key_bound_authentication, preflight_key_bound_statement,
  verify_key_bound_statement, run_verifier, canonical_key_bound_signature_statement,
}

abbrev pub Expected : KeyBoundAuthentication → VerificationContext → Type 0
Expected a o =
    (a.purpose ≡ o.purpose)
    × (a.scope_id ≡ o.scope_id)
    × (a.unit_id ≡ o.unit_id)
    × (a.subject_id ≡ o.subject_id)
    × (a.statement_digest ≡ o.statement_digest)

abbrev pub Bound : VerificationKeyRecord → KeyBoundAuthentication → Type 0
Bound k a =
    (k.subject_id ≡ a.subject_id)
    × (k.purpose ≡ a.purpose)
    × (k.scope_id ≡ a.scope_id)
    × (k.scheme ≡ a.scheme)
    × (k.public_key ≡ a.public_key)

Expected-iff :
    (a : KeyBoundAuthentication) (o : VerificationContext)
    → (expected_binding a o ≡ true) ↔ Expected a o
unfolding expected_binding
Expected-iff a o = ground (
  arith,
  text_eq_iff a.purpose o.purpose,
  text_eq_iff a.scope_id o.scope_id,
  text_eq_iff a.unit_id o.unit_id,
  text_eq_iff a.subject_id o.subject_id,
  text_eq_iff a.statement_digest o.statement_digest,
)

Bound-iff :
    (k : VerificationKeyRecord) (a : KeyBoundAuthentication)
    → (record_binding k a ≡ true) ↔ Bound k a
unfolding record_binding
Bound-iff k a = ground (
  arith,
  text_eq_iff k.subject_id a.subject_id,
  text_eq_iff k.purpose a.purpose,
  text_eq_iff k.scope_id a.scope_id,
  text_eq_iff k.scheme a.scheme,
  text_eq_iff k.public_key a.public_key,
)

abbrev pub OnTime : VerificationContext → ℕ → Type 0
OnTime o at =
    (o.now_ms + o.max_clock_skew_ms ≤ max_safe_integer) × (at ≤ o.now_ms + o.max_clock_skew_ms)

OnTime-iff : (o : VerificationContext) (at : ℕ) → (from_future o at ≡ false) ↔ OnTime o at
unfolding from_future
OnTime-iff o at = ground arith

module _ (hash_string : Text → Text) (verifiers : Verifiers) (a : KeyBoundAuthentication)
    (options : VerificationContext) where
  -- Everything that acceptance under a record of a history rests on.
  pub record Accepted (history : CompiledHistory) (key : VerificationKeyRecord) : Type 0 where
    pub well_formed : is_key_bound_authentication a ≡ true
    pub compiled : options.history ≡ some history
    pub expected : Expected a options
    pub known : lookup_key history a.key_id a.key_version ≡ some key
    pub bound : Bound key a
    pub on_time : OnTime options a.issued_at_ms
    pub may_sign : issuance_time_refusal key a.issued_at_ms ≡ none
    pub verified :
        run_verifier
          (verifiers a.scheme)
          key.public_key
          (hash_string (canonical_key_bound_signature_statement a.unsigned))
          a.signature
        ≡ true

  pub Accepted-accepts :
      (history : CompiledHistory) (key : VerificationKeyRecord)
      → Accepted history key
      → verify_key_bound_statement hash_string verifiers a options ≡ ok (a.key_id, a.key_version)
  unfolding verify_key_bound_statement preflight_key_bound_statement
  Accepted-accepts history key h = ground (
    arith,
    (Expected-iff a options).1 h.expected,
    (Bound-iff key a).1 h.bound,
    (OnTime-iff options a.issued_at_ms).1 h.on_time,
  )

  accepted_history :
      {out : Text × ℕ}
      → verify_key_bound_statement hash_string verifiers a options ≡ ok out
      → (history : CompiledHistory) × (options.history ≡ some history)
  unfolding verify_key_bound_statement preflight_key_bound_statement
  accepted_history h = ground arith

  accepted_key :
      {out : Text × ℕ} (history : CompiledHistory)
      → options.history ≡ some history
      → verify_key_bound_statement hash_string verifiers a options ≡ ok out
      → (key : VerificationKeyRecord) × (lookup_key history a.key_id a.key_version ≡ some key)
  unfolding verify_key_bound_statement preflight_key_bound_statement
  accepted_key history e h = ground arith

  Accepted-of_verified :
      {out : Text × ℕ} (history : CompiledHistory) (key : VerificationKeyRecord)
      → options.history ≡ some history
      → lookup_key history a.key_id a.key_version ≡ some key
      → verify_key_bound_statement hash_string verifiers a options ≡ ok out
      → Accepted history key
  unfolding verify_key_bound_statement preflight_key_bound_statement
  Accepted-of_verified history key e k h =
      ground
        (arith, (Expected-iff a options), (Bound-iff key a), (OnTime-iff options a.issued_at_ms))

-- Verification accepts a statement, with the statement's own key and version, exactly when it is
-- well formed, the options hold a compiled history with a record for its key and version, its
-- purpose, scope, unit, subject and digest are the expected ones, the record has its subject,
-- purpose, scope, scheme and public key, it was issued no later than the clock and its skew allow,
-- the record may sign at that time, and the verifier of its scheme accepts the signature over the
-- hash of its canonical text under the record's public key.
pub verify_accepts_iff :
    (hash_string : Text → Text) (verifiers : Verifiers) (a : KeyBoundAuthentication)
    (options : VerificationContext)
    → (verify_key_bound_statement hash_string verifiers a options ≡ ok (a.key_id, a.key_version))
      ↔ ((history : CompiledHistory) × (key : VerificationKeyRecord) × Accepted hash_string
            verifiers a options history key)
verify_accepts_iff hash_string verifiers a options =
    (parts, λ p. Accepted-accepts hash_string verifiers a options p.0 p.1 p.2)
  where
    parts :
        verify_key_bound_statement hash_string verifiers a options ≡ ok (a.key_id, a.key_version)
        → (history : CompiledHistory) × (key : VerificationKeyRecord) × Accepted hash_string
            verifiers a options history key
    parts h =
        let (history, compiled) = accepted_history hash_string verifiers a options h in
        let (key, known) = accepted_key hash_string verifiers a options history compiled h in
        (
          history,
          key,
          Accepted-of_verified hash_string verifiers a options history key compiled known h,
        )
