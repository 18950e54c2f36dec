-- ===== src/KeyLedger/Plan.antt =====
-- Planning of a mutation on a ledger image
-- (examples/player-local-runtime/key-lifecycle-ledger.ts).
use converge_audit.Prelude.{
  ℕ, ◌+◌, Bool, not, ◌||◌, Option, none, some, List, [], ◌∷◌, ◌++◌, map, ltb, leb, ◌==◌,
  if◌then◌else◌, length, filter, find?, get_last?, sort_by, Result, ok, err, ◌>>=◌, ◌>>◌, refuse_if,
}
use converge_audit.Prelude.Text.{Text, text_eq, safe_non_negative_integer}
use converge_audit.KeyLifecycle.Records.{VerificationKeyRecord}
use converge_audit.KeyLifecycle.History.{validate_verification_key_history}
use converge_audit.KeyLedger.Events.{
  PlannedEvent, LifecycleEvent, Image, ProvisionCommand, RotateCommand, RevokeCommand, Command,
  command_key_id, expected_revision_of, committed_at_of, kind_of,
  canonical_verification_key_lifecycle_event,
}
use converge_audit.KeyLedger.ImageCheck.{is_ok, is_revoked, lifecycle_image_valid}

pub data LedgerRefusal : Type 0 where
  invalid_transition stale_revision key_already_exists unknown_key corrupt_store : LedgerRefusal

-- The next records of the key, and the key version that the event names.
abbrev pub Step : Type 0
Step = Result LedgerRefusal (List VerificationKeyRecord × ℕ)

abbrev pub or_unknown : {A : Type 0} → Option A → Result LedgerRefusal A
or_unknown none = err unknown_key
or_unknown (some a) = ok a

unfoldable pub plan_provision :
    List VerificationKeyRecord → List LifecycleEvent → ProvisionCommand → Step
plan_provision records events command = do
  refuse_if (ltb 0 (length records) || ltb 0 (length events)) key_already_exists
  refuse_if
      (not (command.expected_revision == 0)
        || not (command.key.key_version == 1)
        || is_revoked command.key
        || not (is_ok (validate_verification_key_history (command.key ∷ []))))
      invalid_transition
  ok (command.key ∷ [], command.key.key_version)

unfoldable pub rotation_refused : VerificationKeyRecord → RotateCommand → Bool
rotation_refused previous command =
    not (previous.key_version == command.previous_key_version)
    || not (text_eq command.next_record.key_id command.key_id)
    || not (command.next_record.key_version == previous.key_version + 1)
    || not (text_eq command.next_record.subject_id previous.subject_id)
    || not (text_eq command.next_record.purpose previous.purpose)
    || not (text_eq command.next_record.scope_id previous.scope_id)
    || not (command.next_record.valid_from_ms == command.cutover_ms)
    || is_revoked command.next_record
    || not (safe_non_negative_integer command.cutover_ms)
    || leb command.cutover_ms previous.valid_from_ms
    || ltb previous.valid_until_ms command.cutover_ms

-- The record of a rotated-out version ends at the cutover.
abbrev pub end_at : ℕ → ℕ → VerificationKeyRecord → VerificationKeyRecord
end_at key_version cutover_ms r =
    if r.key_version == key_version then record r { valid_until_ms = cutover_ms } else r

-- `previous` is the record of the highest version; there is none where the key has no record.
unfoldable pub plan_rotate : List VerificationKeyRecord → RotateCommand → Step
plan_rotate records command = do
  previous ← or_unknown (get_last? (sort_by VerificationKeyRecord.key_version records))
  refuse_if (rotation_refused previous command) invalid_transition
  let next =
      map (end_at previous.key_version command.cutover_ms)
        (sort_by VerificationKeyRecord.key_version records)
      ++ command.next_record ∷ []
  refuse_if (not (is_ok (validate_verification_key_history next))) invalid_transition
  ok (next, command.next_record.key_version)

unfoldable pub revocation_refused : VerificationKeyRecord → RevokeCommand → Bool
revocation_refused target command =
    is_revoked target
    || not (safe_non_negative_integer command.revoked_at_ms)
    || ltb command.revoked_at_ms target.valid_from_ms
    || ltb target.valid_until_ms command.revoked_at_ms

abbrev pub revoke_at : ℕ → ℕ → VerificationKeyRecord → VerificationKeyRecord
revoke_at key_version revoked_at_ms r =
    if r.key_version == key_version then record r { revoked_at_ms = some revoked_at_ms } else r

unfoldable pub plan_revoke : List VerificationKeyRecord → RevokeCommand → Step
plan_revoke records command = do
  target ←
      or_unknown
        (find? (λ (r : VerificationKeyRecord). r.key_version == command.key_version) records)
  refuse_if (revocation_refused target command) invalid_transition
  let next = map (revoke_at command.key_version command.revoked_at_ms) records
  refuse_if (not (is_ok (validate_verification_key_history next))) invalid_transition
  ok (next, command.key_version)

abbrev pub plan_step : List VerificationKeyRecord → List LifecycleEvent → Command → Step
plan_step records events (Command.provision c) = plan_provision records events c
plan_step records events (Command.rotate c) = plan_rotate records c
plan_step records events (Command.revoke c) = plan_revoke records c

pub record LifecyclePlan : Type 0 where
  pub records : List VerificationKeyRecord
  pub event : PlannedEvent

abbrev pub records_for : Text → Image → List VerificationKeyRecord
records_for key_id image = filter (λ r. text_eq r.key_id key_id) image.records

abbrev pub events_for : Text → Image → List LifecycleEvent
events_for key_id image = filter (λ e. text_eq e.key_id key_id) image.events

-- `events.at(-1)?.lifecycleRevision ?? 0`
abbrev pub current_revision : List LifecycleEvent → ℕ
current_revision events = elim (get_last? events) [ none ↦ 0 | some e ↦ e.lifecycle_revision ]

unfoldable pub plan_verification_key_lifecycle_mutation :
    Image → Command → Result LedgerRefusal LifecyclePlan
plan_verification_key_lifecycle_mutation image command = do
  refuse_if (not (lifecycle_image_valid image)) corrupt_store
  refuse_if
      (not (safe_non_negative_integer (expected_revision_of command))
        || not (safe_non_negative_integer (committed_at_of command)))
      invalid_transition
  let records = records_for (command_key_id command) image
  let events = events_for (command_key_id command) image
  refuse_if (not (expected_revision_of command == current_revision events)) stale_revision
  step ← plan_step records events command
  let revision = current_revision events + 1
  ok (record {
    records = step.0;
    event = record {
      version = 1;
      key_id = command_key_id command;
      key_version = step.1;
      lifecycle_revision = revision;
      event_kind = kind_of command;
      canonical_event = canonical_verification_key_lifecycle_event command revision;
      committed_at_ms = committed_at_of command;
    };
  })
