-- ===== src/PayloadQueue/Budget.antt =====
-- Limits and the admission guard (examples/player-local-runtime/payload-budget.ts,
-- src/audit/payload_budget.mbt).
use converge_audit.Prelude.{
  ℕ, ◌+◌, ◌-◌, ◌≤◌, ◌<◌, ◌≡◌, Bool, true, false, not, ◌&&◌, ◌||◌, ltb, leb, ◌==◌, if◌then◌else◌,
  arith,
}

pub record PayloadQueueLimits : Type 0 where
  pub max_bytes : ℕ
  pub max_items : ℕ
  pub max_item_bytes : ℕ
  pub reserved_bytes : ℕ

abbrev pub max_int : ℕ
max_int = 2147483647

unfoldable pub payload_queue_limits_valid : PayloadQueueLimits → Bool
payload_queue_limits_valid l =
    leb l.max_bytes max_int
    && leb l.max_items max_int
    && leb l.max_item_bytes max_int
    && leb l.reserved_bytes max_int
    && leb l.reserved_bytes l.max_bytes

-- The guard of the policy module; its arguments are not negative.
unfoldable pub payload_admission_allowed : ℕ → ℕ → ℕ → PayloadQueueLimits → Bool
payload_admission_allowed current_bytes current_items incoming_bytes l =
    if incoming_bytes == 0
      || ltb l.max_item_bytes incoming_bytes
      || leb l.max_items current_items
      || ltb l.max_bytes l.reserved_bytes
    then false
    else if ltb (l.max_bytes - l.reserved_bytes) current_bytes
    then false
    else leb incoming_bytes (l.max_bytes - l.reserved_bytes - current_bytes)

unfoldable pub admits : PayloadQueueLimits → ℕ → ℕ → ℕ → Bool
unfolding payload_queue_limits_valid payload_admission_allowed
admits l used_bytes item_count incoming_bytes =
    if not (payload_queue_limits_valid l)
      || not (leb used_bytes max_int && leb item_count max_int && leb incoming_bytes max_int)
    then false
    else payload_admission_allowed used_bytes item_count incoming_bytes l

unfoldable pub payload_prunable : Bool → Bool → Bool → Bool → Bool
payload_prunable delivery_acknowledged gameplay_finalized retention_closed unresolved_reference =
    delivery_acknowledged && gameplay_finalized && retention_closed && not unresolved_reference

-- What an admission guarantees.
pub admits_room :
    (l : PayloadQueueLimits) (used items incoming : ℕ)
    → admits l used items incoming ≡ true
    → (0 < incoming)
      × (incoming ≤ l.max_item_bytes)
      × (items < l.max_items)
      × (used + incoming + l.reserved_bytes ≤ l.max_bytes)
unfolding admits
admits_room l used items incoming h = ground arith
