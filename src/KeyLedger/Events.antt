-- ===== src/KeyLedger/Events.antt =====
-- Ledger events, commands and their canonical texts
-- (examples/player-local-runtime/key-lifecycle-ledger.ts).
use converge_audit.Prelude.{ℕ, Option, none, some, List, [], ◌∷◌}
use converge_audit.Prelude.Text.{Text, codes}
use converge_audit.Prelude.Json.{Json, null, num, str, array, stringify}
use converge_audit.KeyLifecycle.Records.{VerificationKeyRecord}

pub data EventKind : Type 0 where
  provision rotate revoke : EventKind

-- `Omit<VerificationKeyLifecycleEvent, "eventDigest">`
pub record PlannedEvent : Type 0 where
  pub version : ℕ
  pub key_id : Text
  pub key_version : ℕ
  pub lifecycle_revision : ℕ
  pub event_kind : EventKind
  pub canonical_event : Text
  pub committed_at_ms : ℕ

pub record LifecycleEvent : Type 0 where
  pub planned : PlannedEvent
  pub open planned use *
  pub event_digest : Text

abbrev pub revision_of : LifecycleEvent → ℕ
revision_of e = e.lifecycle_revision

abbrev pub version_of : LifecycleEvent → ℕ
version_of e = e.key_version

pub record Image : Type 0 where
  pub records : List VerificationKeyRecord
  pub events : List LifecycleEvent

pub record ProvisionCommand : Type 0 where
  pub expected_revision : ℕ
  pub committed_at_ms : ℕ
  pub key : VerificationKeyRecord

pub record RotateCommand : Type 0 where
  pub expected_revision : ℕ
  pub committed_at_ms : ℕ
  pub key_id : Text
  pub previous_key_version : ℕ
  pub next_record : VerificationKeyRecord
  pub cutover_ms : ℕ

pub record RevokeCommand : Type 0 where
  pub expected_revision : ℕ
  pub committed_at_ms : ℕ
  pub key_id : Text
  pub key_version : ℕ
  pub revoked_at_ms : ℕ

pub data Command : Type 0 where
  provision : ProvisionCommand → Command
  rotate : RotateCommand → Command
  revoke : RevokeCommand → Command

abbrev pub command_key_id : Command → Text
command_key_id (Command.provision c) = c.key.key_id
command_key_id (Command.rotate c) = c.key_id
command_key_id (Command.revoke c) = c.key_id

abbrev pub expected_revision_of : Command → ℕ
expected_revision_of (Command.provision c) = c.expected_revision
expected_revision_of (Command.rotate c) = c.expected_revision
expected_revision_of (Command.revoke c) = c.expected_revision

abbrev pub committed_at_of : Command → ℕ
committed_at_of (Command.provision c) = c.committed_at_ms
committed_at_of (Command.rotate c) = c.committed_at_ms
committed_at_of (Command.revoke c) = c.committed_at_ms

abbrev pub kind_of : Command → EventKind
kind_of (Command.provision c) = EventKind.provision
kind_of (Command.rotate c) = EventKind.rotate
kind_of (Command.revoke c) = EventKind.revoke

abbrev pub num_or_null : Option ℕ → Json
num_or_null none = null
num_or_null (some n) = num n

abbrev pub record_tuple : VerificationKeyRecord → Json
record_tuple r = array (
    num r.version
    ∷ str r.key_id
    ∷ num r.key_version
    ∷ str r.subject_id
    ∷ str r.purpose
    ∷ str r.scope_id
    ∷ str r.scheme
    ∷ str r.public_key
    ∷ num r.valid_from_ms
    ∷ num r.valid_until_ms
    ∷ num_or_null r.revoked_at_ms
    ∷ [])

abbrev ledger_domain : Json
ledger_domain = str (codes "converge-audit-verification-key-lifecycle-v1")

abbrev pub event_json : Command → ℕ → Json
event_json (Command.provision c) revision = array (
    ledger_domain
    ∷ str (codes "provision")
    ∷ num revision
    ∷ num c.expected_revision
    ∷ record_tuple c.key
    ∷ num c.committed_at_ms
    ∷ [])
event_json (Command.rotate c) revision = array (
    ledger_domain
    ∷ str (codes "rotate")
    ∷ num revision
    ∷ num c.expected_revision
    ∷ str c.key_id
    ∷ num c.previous_key_version
    ∷ num c.cutover_ms
    ∷ record_tuple c.next_record
    ∷ num c.committed_at_ms
    ∷ [])
event_json (Command.revoke c) revision = array (
    ledger_domain
    ∷ str (codes "revoke")
    ∷ num revision
    ∷ num c.expected_revision
    ∷ str c.key_id
    ∷ num c.key_version
    ∷ num c.revoked_at_ms
    ∷ num c.committed_at_ms
    ∷ [])

unfoldable pub canonical_verification_key_lifecycle_event : Command → ℕ → Text
canonical_verification_key_lifecycle_event command revision =
    stringify (event_json command revision)
