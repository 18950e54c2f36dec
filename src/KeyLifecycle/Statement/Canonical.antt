-- ===== src/KeyLifecycle/Statement/Canonical.antt =====
-- The signed text determines the statement (examples/player-local-runtime/key-lifecycle.ts).
use converge_audit.Prelude.{◌≡◌}
use converge_audit.Prelude.Json.Injective.{stringify_injective}
use converge_audit.KeyLifecycle.Statement.{
  UnsignedStatement, statement_json, canonical_key_bound_signature_statement,
}

statement_json_injective : (s t : UnsignedStatement) → statement_json s ≡ statement_json t → s ≡ t
statement_json_injective s t e = cc

-- Two statements with the same canonical text agree in every field.
pub canonical_statement_injective :
    (s t : UnsignedStatement)
    → canonical_key_bound_signature_statement s ≡ canonical_key_bound_signature_statement t
    → s ≡ t
unfolding canonical_key_bound_signature_statement
canonical_statement_injective s t e =
    statement_json_injective s t (stringify_injective (statement_json s) (statement_json t) e)
