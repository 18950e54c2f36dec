-- ===== src/PayloadQueue/Reopen.antt =====
-- The validation of the stored queue when it is opened
-- (examples/cf-game-audit/web/src/audit/bounded-payload-queue.ts).
use converge_audit.Prelude.{
  ℕ, ◌+◌, ◌-◌, Bool, ◌&&◌, Option, none, some, List, [], ◌∷◌, ltb, leb, ◌==◌, if◌then◌else◌, length,
}
use converge_audit.Prelude.Text.{text_eq, safe_non_negative_integer}
use converge_audit.PayloadQueue.Budget.{PayloadQueueLimits, payload_queue_limits_valid}
use converge_audit.PayloadQueue.Store.{Chunk, Metadata, Queue, QueueOptions, digest}

abbrev pub same_limits : PayloadQueueLimits → PayloadQueueLimits → Bool
same_limits a b =
    a.max_bytes == b.max_bytes
    && a.max_items == b.max_items
    && a.max_item_bytes == b.max_item_bytes
    && a.reserved_bytes == b.reserved_bytes

unfoldable pub metadata_valid : QueueOptions → Metadata → Bool
metadata_valid options m =
    text_eq m.queue_id options.queue_id
    && payload_queue_limits_valid m.limits
    && same_limits m.limits options.limits
    && safe_non_negative_integer m.used_bytes
    && safe_non_negative_integer m.item_count
    && safe_non_negative_integer m.first_sequence
    && safe_non_negative_integer m.next_sequence
    && safe_non_negative_integer m.revision
    && m.item_count + m.first_sequence == m.next_sequence
    && leb m.item_count m.limits.max_items
    && leb m.used_bytes (m.limits.max_bytes - m.limits.reserved_bytes)

-- The cursor over the chunks; false where it rejects.
unfoldable pub scan : Metadata → ℕ → ℕ → List Chunk → Bool
scan expected next bytes [] = next == expected.next_sequence && bytes == expected.used_bytes
scan expected next bytes (c ∷ cs) =
    c.sequence == next
    && digest c.checkpoint_digest
    && ltb 0 (length c.payload)
    && leb (length c.payload) expected.limits.max_item_bytes
    && ltb next expected.next_sequence
    && leb (bytes + length c.payload) expected.used_bytes
    && scan expected (next + 1) (bytes + length c.payload) cs

abbrev pub fresh : QueueOptions → Metadata
fresh options = record {
  queue_id = options.queue_id;
  limits = options.limits;
  used_bytes = 0;
  item_count = 0;
  first_sequence = 0;
  next_sequence = 0;
  revision = 0;
}

abbrev pub validate_stored : QueueOptions → Queue → Option Queue
validate_stored options q =
    if metadata_valid options q.meta && scan q.meta q.meta.first_sequence 0 q.chunks
    then some q
    else none

-- `none` where opening throws. Without metadata there may be no chunk.
unfoldable pub configure_and_validate : QueueOptions → Option Metadata → List Chunk → Option Queue
configure_and_validate options (some meta) chunks =
    validate_stored options (record { meta = meta; chunks = chunks })
configure_and_validate options none (c ∷ cs) = none
configure_and_validate options none [] =
    validate_stored options (record { meta = fresh options; chunks = [] })
