-- ===== src/KeyLedger/Tests.antt =====
-- A provisioned key, rotated and revoked, and the theorems at it.
use converge_audit.Prelude.{◌≢◌, ◌≡◌, refl, none, some, [], ◌∷◌, ok, err, Memᴰ, sort_by}
use converge_audit.Prelude.Text.{codes, text_eq, matches_identifier}
use converge_audit.Prelude.Decimal.{decimal}
use converge_audit.KeyLifecycle.Records.{
  VerificationKeyRecord, valid_key_record, texts_valid, key_version_index,
}
use converge_audit.KeyLifecycle.History.{
  validate_verification_key_history, group, check_slots, push_slot, check_slot, same_identity,
  check_chain,
}
use converge_audit.KeyLedger.Events.{
  EventKind, Image, LifecycleEvent, Command, RotateCommand, RevokeCommand,
  canonical_verification_key_lifecycle_event,
}
use converge_audit.KeyLedger.ImageCheck.{
  lifecycle_image_valid, group_events, event_well_formed, event_slot_valid, distinct, key_valid,
  revocations_match,
}
use converge_audit.KeyLedger.Plan.{
  LedgerRefusal, stale_revision, LifecyclePlan, plan_verification_key_lifecycle_mutation,
  plan_rotate, plan_revoke, plan_provision, rotation_refused, revocation_refused,
}
use converge_audit.KeyLedger.Verdicts.{
  rotation_keeps_verdicts, revocation_keeps_verdicts, SameBefore, RefusesFrom,
}
use converge_audit.Prelude.{Result}

abbrev key : VerificationKeyRecord
key = record {
  version = 1;
  key_id = codes "slot-a";
  key_version = 1;
  subject_id = codes "witness";
  purpose = codes "checkpoint";
  scope_id = codes "scope";
  scheme = codes "ed25519";
  public_key = codes "pk1";
  valid_from_ms = 100;
  valid_until_ms = 500;
  revoked_at_ms = none;
}

abbrev provisioned : LifecycleEvent
provisioned = record {
  planned = record {
    version = 1;
    key_id = codes "slot-a";
    key_version = 1;
    lifecycle_revision = 1;
    event_kind = EventKind.provision;
    canonical_event = codes "event";
    committed_at_ms = 90;
  };
  event_digest = codes "0123456789abcdef0123456789abcdef0123456789abcdef0123456789abcdef";
}

abbrev image : Image
image = record { records = key ∷ []; events = provisioned ∷ [] }

abbrev next_key : VerificationKeyRecord
next_key = record key {
  key_version = 2;
  public_key = codes "pk2";
  valid_from_ms = 300;
  valid_until_ms = 900;
}

abbrev rotation : RotateCommand
rotation = record {
  expected_revision = 1;
  committed_at_ms = 280;
  key_id = codes "slot-a";
  previous_key_version = 1;
  next_record = next_key;
  cutover_ms = 300;
}

abbrev revocation : RevokeCommand
revocation = record {
  expected_revision = 1;
  committed_at_ms = 280;
  key_id = codes "slot-a";
  key_version = 1;
  revoked_at_ms = 250;
}

-- Opens what a run of the planner computes with; the canonical text stays shut.
run_of_planner : Image → Command → Result LedgerRefusal LifecyclePlan
unfolding plan_verification_key_lifecycle_mutation plan_rotate plan_revoke plan_provision
    rotation_refused revocation_refused lifecycle_image_valid group_events event_well_formed
    event_slot_valid distinct key_valid revocations_match validate_verification_key_history group
    valid_key_record texts_valid matches_identifier text_eq key_version_index decimal check_slots
    push_slot check_slot same_identity sort_by check_chain
run_of_planner i c = plan_verification_key_lifecycle_mutation i c

abbrev rotation_plan : LifecyclePlan
rotation_plan = record {
  records = record key { valid_until_ms = 300 } ∷ next_key ∷ [];
  event = record {
    version = 1;
    key_id = codes "slot-a";
    key_version = 2;
    lifecycle_revision = 2;
    event_kind = EventKind.rotate;
    canonical_event = canonical_verification_key_lifecycle_event (Command.rotate rotation) 2;
    committed_at_ms = 280;
  };
}

rotation_planned :
    plan_verification_key_lifecycle_mutation image (Command.rotate rotation) ≡ ok rotation_plan
unfolding run_of_planner
rotation_planned = refl

abbrev revocation_plan : LifecyclePlan
revocation_plan = record {
  records = record key { revoked_at_ms = some 250 } ∷ [];
  event = record {
    version = 1;
    key_id = codes "slot-a";
    key_version = 1;
    lifecycle_revision = 2;
    event_kind = EventKind.revoke;
    canonical_event = canonical_verification_key_lifecycle_event (Command.revoke revocation) 2;
    committed_at_ms = 280;
  };
}

revocation_planned :
    plan_verification_key_lifecycle_mutation image (Command.revoke revocation) ≡ ok revocation_plan
unfolding run_of_planner
revocation_planned = refl

stale_refused :
    plan_verification_key_lifecycle_mutation image
      (Command.rotate (record rotation { expected_revision = 2 }))
    ≡ err stale_revision
unfolding run_of_planner
stale_refused = refl

rotation_keeps_verdicts_example :
    (s : VerificationKeyRecord) × Memᴰ s rotation_plan.records
    × (s.key_version ≡ key.key_version)
    × SameBefore 300 key s
    × (key.key_version ≡ 1 → RefusesFrom 300 s)
unfolding text_eq
rotation_keeps_verdicts_example =
    rotation_keeps_verdicts image rotation rotation_plan key rotation_planned (Memᴰ.head refl)

revocation_keeps_verdicts_example :
    (s : VerificationKeyRecord) × Memᴰ s revocation_plan.records
    × (s.key_version ≡ key.key_version)
    × SameBefore 250 key s
    × (key.key_version ≡ 1 → RefusesFrom 250 s)
    × (key.key_version ≢ 1 → s ≡ key)
unfolding text_eq
revocation_keeps_verdicts_example =
    revocation_keeps_verdicts image revocation revocation_plan key revocation_planned
      (Memᴰ.head refl)
