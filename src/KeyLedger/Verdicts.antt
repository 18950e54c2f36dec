-- ===== src/KeyLedger/Verdicts.antt =====
-- What a planned mutation does to the records of a key
-- (examples/player-local-runtime/key-lifecycle-ledger.ts).
use converge_audit.Prelude.{
  ℕ, ◌+◌, ◌≤◌, ◌<◌, ◌≡◌, ◌≢◌, refl, sym, ◌∙◌, ◌⊎◌, inl, inr, true, false, none, some, List, [], ◌∷◌,
  ◌++◌, map, Memᴰ, arith, ◌==◌, ==_iff, Option-cases, Bool-cases, ok, err, subst, sort_by, find?,
  get_last?, mem-sort_by, sort_by-mem, mem-map, mem-append_left, get_last?-mem, find?-mem,
  filter-mem,
}
use converge_audit.Prelude.Text.{Text, text_eq, text_eq_iff}
use converge_audit.KeyLifecycle.Records.{VerificationKeyRecord, issuance_time_refusal}
use converge_audit.KeyLifecycle.History.{Check, validate_verification_key_history}
use converge_audit.KeyLifecycle.History.Windows.{version_unique}
use converge_audit.KeyLedger.Events.{
  Image, Command, RotateCommand, RevokeCommand, command_key_id, expected_revision_of,
}
use converge_audit.KeyLedger.ImageCheck.{is_ok, history_valid, lifecycle_image_valid}
use converge_audit.KeyLedger.Plan.{
  LifecyclePlan, plan_step, plan_rotate, plan_revoke, rotation_refused, revocation_refused, end_at,
  revoke_at, plan_verification_key_lifecycle_mutation, records_for, events_for, current_revision,
}

is_ok-eq : (c : Check) → is_ok c ≡ true → c ≡ ok tt
is_ok-eq (ok tt) h = refl
is_ok-eq (err e) h = cc

history_valid-mem :
    (records : List VerificationKeyRecord) {r : VerificationKeyRecord}
    → history_valid records ≡ true
    → Memᴰ r records
    → validate_verification_key_history records ≡ ok tt
history_valid-mem [] h m = elim m [ ]
history_valid-mem (r ∷ rs) h m = is_ok-eq (validate_verification_key_history (r ∷ rs)) h

image_valid-history :
    (image : Image) → lifecycle_image_valid image ≡ true → history_valid image.records ≡ true
unfolding lifecycle_image_valid
image_valid-history image h = ground arith

-- The parts of a plan that is made.
record PlanParts (image : Image) (command : Command) (plan : LifecyclePlan) : Type 0 where
  valid : lifecycle_image_valid image ≡ true
  current :
      expected_revision_of command ≡ current_revision (events_for (command_key_id command) image)
  step :
      plan_step
        (records_for (command_key_id command) image)
        (events_for (command_key_id command) image)
        command
      ≡ ok (plan.records, plan.event.key_version)
  revision : plan.event.lifecycle_revision ≡ expected_revision_of command + 1
  key : plan.event.key_id ≡ command_key_id command

plan_parts :
    (image : Image) (command : Command) (plan : LifecyclePlan)
    → plan_verification_key_lifecycle_mutation image command ≡ ok plan
    → PlanParts image command plan
unfolding plan_verification_key_lifecycle_mutation
plan_parts image command plan h = ground arith

rotate_step :
    (rs : List VerificationKeyRecord) (c : RotateCommand) {s : List VerificationKeyRecord × ℕ}
    → plan_rotate rs c ≡ ok s
    → (previous : VerificationKeyRecord) × (get_last? (sort_by VerificationKeyRecord.key_version rs)
        ≡ some previous)
      × (rotation_refused previous c ≡ false)
      × (s.0
          ≡ map
              (end_at previous.key_version c.cutover_ms)
              (sort_by VerificationKeyRecord.key_version rs)
            ++ c.next_record ∷ [])
      × (is_ok (validate_verification_key_history s.0) ≡ true)
unfolding plan_rotate
rotate_step rs c h = ground arith

revoke_step :
    (rs : List VerificationKeyRecord) (c : RevokeCommand) {s : List VerificationKeyRecord × ℕ}
    → plan_revoke rs c ≡ ok s
    → (target : VerificationKeyRecord) × (find?
          (λ (r : VerificationKeyRecord). r.key_version == c.key_version)
          rs
        ≡ some target)
      × (revocation_refused target c ≡ false)
      × (s.0 ≡ map (revoke_at c.key_version c.revoked_at_ms) rs)
      × (is_ok (validate_verification_key_history s.0) ≡ true)
unfolding plan_revoke
revoke_step rs c {s} h =
    split (Option-cases (find? (λ (r : VerificationKeyRecord). r.key_version == c.key_version) rs))
  where
    split :
        ((find? (λ (r : VerificationKeyRecord). r.key_version == c.key_version) rs) ≡ none)
          ⊎ ((t : VerificationKeyRecord) × (find?
                  (λ (r : VerificationKeyRecord). r.key_version == c.key_version)
                  rs
                ≡ some t))
        → (target : VerificationKeyRecord) × (find?
              (λ (r : VerificationKeyRecord). r.key_version == c.key_version)
              rs
            ≡ some target)
          × (revocation_refused target c ≡ false)
          × (s.0 ≡ map (revoke_at c.key_version c.revoked_at_ms) rs)
          × (is_ok (validate_verification_key_history s.0) ≡ true)
    split (inl e) = absurd (ground arith)
    split (inr (t, e)) = (t, e, ground arith, ground arith, ground arith)

-- Two records answer alike for every time of issuance before a bound.
abbrev pub SameBefore : ℕ → VerificationKeyRecord → VerificationKeyRecord → Type 0
SameBefore bound r s =
    (at : ℕ) → at < bound → issuance_time_refusal s at ≡ issuance_time_refusal r at

-- A record that refuses every time of issuance from a bound on.
abbrev pub RefusesFrom : ℕ → VerificationKeyRecord → Type 0
RefusesFrom bound s = (at : ℕ) → bound ≤ at → issuance_time_refusal s at ≢ none

end_at-same :
    (v cutover : ℕ) (r : VerificationKeyRecord)
    → (r.key_version ≡ v → cutover ≤ r.valid_until_ms)
    → SameBefore cutover r (end_at v cutover r)
unfolding issuance_time_refusal
end_at-same v cutover r h at before = ground arith

end_at-refuses :
    (v cutover : ℕ) (r : VerificationKeyRecord)
    → r.key_version ≡ v
    → RefusesFrom cutover (end_at v cutover r)
unfolding issuance_time_refusal
end_at-refuses v cutover r e at from = ground arith

end_at-version :
    (v cutover : ℕ) (r : VerificationKeyRecord) → (end_at v cutover r).key_version ≡ r.key_version
end_at-version v cutover r = ground arith

revoke_at-same :
    (v revoked : ℕ) (r : VerificationKeyRecord)
    → (r.key_version ≡ v → r.revoked_at_ms ≡ none)
    → SameBefore revoked r (revoke_at v revoked r)
unfolding issuance_time_refusal
revoke_at-same v revoked r h at before = ground arith

revoke_at-refuses :
    (v revoked : ℕ) (r : VerificationKeyRecord)
    → r.key_version ≡ v
    → RefusesFrom revoked (revoke_at v revoked r)
unfolding issuance_time_refusal
revoke_at-refuses v revoked r e at from = ground arith

revoke_at-other :
    (v revoked : ℕ) (r : VerificationKeyRecord) → r.key_version ≢ v → revoke_at v revoked r ≡ r
revoke_at-other v revoked r ne = elim (Bool-cases (r.key_version == v)) [
  | inl e ↦ absurd (ne ((==_iff r.key_version v).0 e))
  | inr e ↦ rw e refl
]

revoke_at-version :
    (v revoked : ℕ) (r : VerificationKeyRecord)
    → (revoke_at v revoked r).key_version ≡ r.key_version
revoke_at-version v revoked r = ground arith

-- Two records of one key in a valid image, by their versions.
same_record :
    (image : Image) (key_id : Text) (r s : VerificationKeyRecord)
    → lifecycle_image_valid image ≡ true
    → Memᴰ r (records_for key_id image)
    → Memᴰ s (records_for key_id image)
    → r.key_version ≡ s.key_version
    → r ≡ s
same_record image key_id r s valid m n e =
    let (mr, kr) =
      filter-mem (λ (x : VerificationKeyRecord). text_eq x.key_id key_id) image.records m in
    let (ms, ks) =
      filter-mem (λ (x : VerificationKeyRecord). text_eq x.key_id key_id) image.records n in
    version_unique image.records
      (history_valid-mem image.records (image_valid-history image valid) mr) mr ms
      ((text_eq_iff r.key_id key_id).0 kr ∙ sym ((text_eq_iff s.key_id key_id).0 ks)) e

rotation_guard :
    (previous : VerificationKeyRecord) (c : RotateCommand)
    → rotation_refused previous c ≡ false
    → (previous.key_version ≡ c.previous_key_version) × (c.cutover_ms ≤ previous.valid_until_ms)
unfolding rotation_refused
rotation_guard previous c h = ground arith

revocation_guard :
    (target : VerificationKeyRecord) (c : RevokeCommand)
    → revocation_refused target c ≡ false
    → target.revoked_at_ms ≡ none
unfolding revocation_refused
revocation_guard target c h = ground arith

-- After a rotation that is made every record of the key keeps a record of its version that answers
-- alike for each time of issuance before the cutover, and that of the version rotated out refuses
-- each time from the cutover on.
pub rotation_keeps_verdicts :
    (image : Image) (c : RotateCommand) (plan : LifecyclePlan) (r : VerificationKeyRecord)
    → plan_verification_key_lifecycle_mutation image (Command.rotate c) ≡ ok plan
    → Memᴰ r (records_for c.key_id image)
    → (s : VerificationKeyRecord) × Memᴰ s plan.records
      × (s.key_version ≡ r.key_version)
      × SameBefore c.cutover_ms r s
      × (r.key_version ≡ c.previous_key_version → RefusesFrom c.cutover_ms s)
rotation_keeps_verdicts image c plan r h m =
    let parts = plan_parts image (Command.rotate c) plan h in
    let (previous, last, guards, next, _) = rotate_step (records_for c.key_id image) c parts.step in
    let (version, covered) = rotation_guard previous c guards in
    let is_previous = same_record image c.key_id r previous parts.valid m (
      sort_by-mem VerificationKeyRecord.key_version (records_for c.key_id image)
        (get_last?-mem _ last)) in
    (
      end_at previous.key_version c.cutover_ms r,
      subst (Memᴰ (end_at previous.key_version c.cutover_ms r)) (sym next) (
          mem-append_left _ (c.next_record ∷ []) (
            mem-map (end_at previous.key_version c.cutover_ms) _
              (mem-sort_by VerificationKeyRecord.key_version (records_for c.key_id image) m))),
      end_at-version previous.key_version c.cutover_ms r,
      end_at-same previous.key_version c.cutover_ms r (λ e.
          subst (λ (x : VerificationKeyRecord). c.cutover_ms ≤ x.valid_until_ms)
            (sym (is_previous e)) covered),
      λ e. end_at-refuses previous.key_version c.cutover_ms r (e ∙ sym version),
    )

-- After a revocation that is made every record of the key keeps a record of its version that
-- answers alike for each time of issuance before the revocation; that of the revoked version
-- refuses each time from the revocation on, and that of another version is unchanged.
pub revocation_keeps_verdicts :
    (image : Image) (c : RevokeCommand) (plan : LifecyclePlan) (r : VerificationKeyRecord)
    → plan_verification_key_lifecycle_mutation image (Command.revoke c) ≡ ok plan
    → Memᴰ r (records_for c.key_id image)
    → (s : VerificationKeyRecord) × Memᴰ s plan.records
      × (s.key_version ≡ r.key_version)
      × SameBefore c.revoked_at_ms r s
      × (r.key_version ≡ c.key_version → RefusesFrom c.revoked_at_ms s)
      × (r.key_version ≢ c.key_version → s ≡ r)
revocation_keeps_verdicts image c plan r h m =
    let parts = plan_parts image (Command.revoke c) plan h in
    let (target, found, guards, next, _) = revoke_step (records_for c.key_id image) c parts.step in
    let (mt, version) =
      find?-mem (λ (x : VerificationKeyRecord). x.key_version == c.key_version)
        (records_for c.key_id image) found in
    let is_target = same_record image c.key_id r target parts.valid m mt in
    (
      revoke_at c.key_version c.revoked_at_ms r,
      subst (Memᴰ (revoke_at c.key_version c.revoked_at_ms r)) (sym next)
          (mem-map (revoke_at c.key_version c.revoked_at_ms) (records_for c.key_id image) m),
      revoke_at-version c.key_version c.revoked_at_ms r,
      revoke_at-same c.key_version c.revoked_at_ms r (λ e.
          subst (λ (x : VerificationKeyRecord). x.revoked_at_ms ≡ none)
            (sym (is_target (e ∙ sym ((==_iff target.key_version c.key_version).0 version))))
            (revocation_guard target c guards)),
      λ e. revoke_at-refuses c.key_version c.revoked_at_ms r e,
      λ ne. revoke_at-other c.key_version c.revoked_at_ms r ne,
    )
