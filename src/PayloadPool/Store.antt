-- ===== src/PayloadPool/Store.antt =====
-- The transactions of the pool: opening a scope, append_pooled, prune and the three kinds of release
-- (examples/cf-game-audit/web/src/audit/payload-pool.ts). A call runs its transaction whole or, where
-- it throws, changes nothing.
use converge_audit.Prelude.{
  ℕ, ◌+◌, ◌-◌, Bool, true, false, not, ◌&&◌, ◌||◌, Option, none, some, any, ltb, leb, ◌==◌,
  if◌then◌else◌, length, insert_by, Result, ok, err, ◌>>=◌, ◌>>◌, refuse_if,
}
use converge_audit.Prelude.Text.{Text, max_safe_integer, safe_non_negative_integer}
use converge_audit.PayloadQueue.Budget.{PayloadQueueLimits, admits, payload_queue_limits_valid}
use converge_audit.PayloadQueue.Store.{
  Chunk, Grant, AppendOutcome, stored, duplicate, conflict, gap, backpressure, invalid, digest,
  same_payload, chunk_at,
}
use converge_audit.PayloadQueue.Reopen.{same_limits}
use converge_audit.PayloadPool.Scopes.{
  Capacity, Scope, PoolMetadata, Pool, remaining_bytes_of, remaining_items_of, find_scope,
  put_scope, with_chunks, registers_scope, reserves,
}

pub record ScopeClosureGrant : Type 0 where
  pub queue_id : Text
  pub expected_revision : ℕ
  pub next_sequence : ℕ
  pub closure_id : Text
  pub authorization : Text

pub record ScopeOptions : Type 0 where
  pub queue_id : Text
  pub limits : PayloadQueueLimits
  pub verify_prune_grant : Grant → Bool
  pub verify_closure_grant : Option (ScopeClosureGrant → Bool)

pub record Reservation : Type 0 where
  pub bytes : ℕ
  pub items : ℕ

-- What a call throws.
pub data PoolFault : Type 0 where
  scope_configuration_mismatch reservation_configuration_mismatch already_written : PoolFault
  queue_capacity_exhausted reservation_capacity_exhausted invalid_reservation : PoolFault
  queue_released contains_gap chunk_exists invalid_terminal_scope : PoolFault
  invalid_terminal_accounting invalid_pool_accounting invalid_scope_configuration : PoolFault

pub data RemoveOutcome : Type 0 where
  removed released refused concurrent_write : RemoveOutcome

-- The scope of an open queue.
abbrev pub scoped : Text → ℕ → Pool → Result PoolFault Scope
scoped queue_id incarnation pool = elim (find_scope queue_id pool.scopes) [
  | none ↦ err queue_released
  | some s ↦ do refuse_if (not (s.incarnation == incarnation)) queue_released; ok s
]

abbrev pub reserved_capacity : Option Reservation → Option Capacity
reserved_capacity none = none
reserved_capacity (some r) = some (record {
  total_bytes = r.bytes;
  total_items = r.items;
  remaining_bytes = r.bytes;
  remaining_items = r.items;
})

abbrev pub reserve_allowed : Option Reservation → PoolMetadata → Bool
reserve_allowed none meta = true
reserve_allowed (some r) meta =
    reserves meta.limits meta.used_bytes meta.item_count meta.reserved_payload_bytes
      meta.reserved_item_count r.bytes r.items

abbrev pub incarnation_or : Option Scope → ℕ → ℕ
incarnation_or none n = n
incarnation_or (some s) n = s.incarnation

abbrev pub is_absent : Option Scope → Bool
is_absent none = true
is_absent (some s) = false

abbrev pub new_scope : ScopeOptions → Option Reservation → Option Scope → ℕ → Scope
new_scope options reservation existing revision = record {
  queue_id = options.queue_id;
  limits = options.limits;
  incarnation = incarnation_or existing revision;
  used_bytes = 0;
  item_count = 0;
  first_sequence = 0;
  next_sequence = 0;
  revision = revision;
  last_pruned_digest = none;
  capacity = reserved_capacity reservation;
}

-- The writes of `openScope`, for a queue that has no scope or a scope without credit.
abbrev pub register :
    ScopeOptions → Option Reservation → Option Scope → Pool → Result PoolFault (ℕ × Pool)
register options reservation existing pool = do
  refuse_if
      (is_absent existing && not (registers_scope pool.meta.queue_count pool.meta.max_queues)
        || pool.meta.revision == max_safe_integer)
      queue_capacity_exhausted
  refuse_if (not (reserve_allowed reservation pool.meta)) reservation_capacity_exhausted
  let scope = new_scope options reservation existing (pool.meta.revision + 1)
  ok (
    scope.incarnation,
    record {
      meta = record (pool.meta) {
        queue_count = pool.meta.queue_count + (if is_absent existing then 1 else 0);
        revision = pool.meta.revision + 1;
        reserved_payload_bytes =
            pool.meta.reserved_payload_bytes + remaining_bytes_of (reserved_capacity reservation);
        reserved_item_count =
            pool.meta.reserved_item_count + remaining_items_of (reserved_capacity reservation);
      };
      scopes = put_scope scope pool.scopes;
      chunks = pool.chunks;
    },
  )

abbrev pub reopen : ScopeOptions → Option Reservation → Scope → Pool → Result PoolFault (ℕ × Pool)
reopen options none s pool = ok (s.incarnation, pool)
reopen options (some r) s pool = elim (s.capacity) [
  | some c ↦ do
    refuse_if (not (c.total_bytes == r.bytes) || not (c.total_items == r.items))
        reservation_configuration_mismatch
    ok (s.incarnation, pool)
  | none ↦ do
    refuse_if (not (s.next_sequence == 0)) already_written
    register options (some r) (some s) pool
]

-- `openScope`: the incarnation that the queue is bound to.
unfoldable pub open_scope : ScopeOptions → Option Reservation → Pool → Result PoolFault (ℕ × Pool)
open_scope options reservation pool = do
  refuse_if
      (length options.queue_id == 0
        || ltb 128 (length options.queue_id)
        || not (payload_queue_limits_valid options.limits))
      invalid_scope_configuration
  elim (find_scope options.queue_id pool.scopes) [
    | none ↦ register options reservation none pool
    | some s ↦ do
      refuse_if (not (same_limits s.limits options.limits)) scope_configuration_mismatch
      reopen options reservation s pool
  ]

unfoldable pub reserve : ScopeOptions → Reservation → Pool → Result PoolFault (ℕ × Pool)
reserve options r pool = do
  refuse_if
      (ltb r.bytes 1
        || ltb r.items 1
        || ltb (options.limits.max_bytes - options.limits.reserved_bytes) r.bytes
        || ltb options.limits.max_items r.items)
      invalid_reservation
  open_scope options (some r) pool

-- Whether a chunk of so many bytes has its room: from the credit of the scope, or from the pool.
abbrev pub has_room : Option Capacity → PoolMetadata → ℕ → Bool
has_room none m bytes =
    admits m.limits (m.used_bytes + m.reserved_payload_bytes) (m.item_count + m.reserved_item_count)
      bytes
has_room (some c) m bytes = leb 1 c.remaining_items && leb bytes c.remaining_bytes

abbrev pub released_bytes : Option Capacity → ℕ → ℕ
released_bytes none bytes = 0
released_bytes (some c) bytes = if c.remaining_items == 1 then c.remaining_bytes else bytes

abbrev pub released_items : Option Capacity → ℕ
released_items none = 0
released_items (some c) = 1

abbrev pub spent : Option Capacity → ℕ → Option Capacity
spent none bytes = none
spent (some c) bytes = some (record c {
  remaining_items = c.remaining_items - 1;
  remaining_bytes = if c.remaining_items == 1 then 0 else c.remaining_bytes - bytes;
})

-- The writes of `append`.
abbrev pub stored_pool : Scope → Chunk → Pool → Pool
stored_pool s chunk pool =
    let bytes = length chunk.payload in
    record {
      meta = record (pool.meta) {
        used_bytes = pool.meta.used_bytes + bytes;
        item_count = pool.meta.item_count + 1;
        revision = pool.meta.revision + 1;
        reserved_payload_bytes = pool.meta.reserved_payload_bytes - released_bytes s.capacity bytes;
        reserved_item_count = pool.meta.reserved_item_count - released_items s.capacity;
      };
      scopes =
          put_scope
            (record s {
              capacity = spent s.capacity bytes;
              used_bytes = s.used_bytes + bytes;
              item_count = s.item_count + 1;
              next_sequence = s.next_sequence + 1;
              revision = pool.meta.revision + 1;
            })
            pool.scopes;
      chunks =
          with_chunks s.queue_id (insert_by Chunk.sequence chunk (pool.chunks s.queue_id))
            pool.chunks;
    }

-- `add` refuses a key that is there.
abbrev pub store_scoped : Scope → Chunk → Pool → Result PoolFault (AppendOutcome × Pool)
store_scoped s chunk pool = do
  refuse_if (any (λ (c : Chunk). c.sequence == chunk.sequence) (pool.chunks s.queue_id))
      chunk_exists
  ok (stored, stored_pool s chunk pool)

abbrev pub compare_scoped : Option Chunk → Chunk → Pool → Result PoolFault (AppendOutcome × Pool)
compare_scoped none chunk pool = err contains_gap
compare_scoped (some old) chunk pool =
    ok (if same_payload old chunk then duplicate else conflict, pool)

-- The transaction of `append`, on the scope of the queue.
unfoldable pub append_scoped : Scope → Chunk → Pool → Result PoolFault (AppendOutcome × Pool)
append_scoped s chunk pool =
    if ltb chunk.sequence s.first_sequence
    then ok (AppendOutcome.pruned, pool)
    else if ltb chunk.sequence s.next_sequence
    then compare_scoped (chunk_at chunk.sequence (pool.chunks s.queue_id)) chunk pool
    else if not (chunk.sequence == s.next_sequence)
    then ok (gap, pool)
    else if pool.meta.revision == max_safe_integer
        || s.next_sequence == max_safe_integer
        || not (admits s.limits s.used_bytes s.item_count (length chunk.payload))
    then ok (backpressure, pool)
    else if not (has_room s.capacity pool.meta (length chunk.payload))
    then ok (backpressure, pool)
    else store_scoped s chunk pool

abbrev pub too_large : PayloadQueueLimits → ℕ → Bool
too_large l bytes = ltb l.max_item_bytes bytes || ltb (l.max_bytes - l.reserved_bytes) bytes

-- `append`: `pending` counts the appends under way in the pool.
unfoldable pub append_pooled :
    ScopeOptions → ℕ → ℕ → Chunk → Pool → Result PoolFault (AppendOutcome × Pool)
append_pooled options incarnation pending chunk pool =
    if not (safe_non_negative_integer chunk.sequence)
      || not (digest chunk.checkpoint_digest)
      || length chunk.payload == 0
    then ok (invalid, pool)
    else if leb 4 pending
        || too_large options.limits (length chunk.payload)
        || too_large pool.meta.limits (length chunk.payload)
    then ok (backpressure, pool)
    else do s ← scoped options.queue_id incarnation pool; append_scoped s chunk pool
