-- ===== src/PayloadQueue/Store.antt =====
-- The queue over its two object stores: append, read and prune
-- (examples/cf-game-audit/web/src/audit/bounded-payload-queue.ts). A payload is the list of its
-- bytes; the chunks are listed by key, as a cursor meets them. A call runs its transaction whole
-- or, where it throws, changes nothing.
use converge_audit.Prelude.{
  ℕ, ◌+◌, ◌-◌, Bool, true, false, not, ◌&&◌, ◌||◌, Option, none, some, List, [], ◌∷◌, ltb, leb,
  ◌==◌, if◌then◌else◌, length, any, take, drop, find?, get_last?, insert_by, Result, ok, err,
}
use converge_audit.Prelude.Text.{Text, text_eq, is_hex, max_safe_integer, safe_non_negative_integer}
use converge_audit.PayloadQueue.Budget.{PayloadQueueLimits, admits, payload_prunable}

pub record Chunk : Type 0 where
  pub sequence : ℕ
  pub checkpoint_digest : Text
  pub payload : List ℕ

pub record Metadata : Type 0 where
  pub queue_id : Text
  pub limits : PayloadQueueLimits
  pub used_bytes : ℕ
  pub item_count : ℕ
  pub first_sequence : ℕ
  pub next_sequence : ℕ
  pub revision : ℕ

pub record Queue : Type 0 where
  pub meta : Metadata
  pub chunks : List Chunk

pub record Grant : Type 0 where
  pub queue_id : Text
  pub expected_revision : ℕ
  pub through_sequence : ℕ
  pub through_checkpoint_digest : Text
  pub delivery_acknowledged : Bool
  pub gameplay_finalized : Bool
  pub retention_closed : Bool
  pub unresolved_reference : Bool
  pub authorization : Text

-- What the queue was opened with.
pub record QueueOptions : Type 0 where
  pub queue_id : Text
  pub limits : PayloadQueueLimits
  pub verify_prune_grant : Grant → Bool

pub data AppendOutcome : Type 0 where
  stored duplicate conflict gap pruned backpressure invalid : AppendOutcome

-- A transaction that throws: the stored data breaks its own format.
pub data Fault : Type 0 where
  payload_queue_contains_gap constraint_error : Fault

abbrev pub max_batch : ℕ
max_batch = 64

abbrev pub max_pending_appends : ℕ
max_pending_appends = 4

abbrev pub digest : Text → Bool
digest = is_hex 64

unfoldable pub same_payload : Chunk → Chunk → Bool
same_payload left right =
    text_eq left.checkpoint_digest right.checkpoint_digest
    && length left.payload == length right.payload
    && text_eq left.payload right.payload

abbrev pub chunk_at : ℕ → List Chunk → Option Chunk
chunk_at sequence chunks = find? (λ (c : Chunk). c.sequence == sequence) chunks

-- The branch for a sequence that was stored before.
abbrev pub compare_stored : Option Chunk → Chunk → Queue → Result Fault (AppendOutcome × Queue)
compare_stored none chunk q = err payload_queue_contains_gap
compare_stored (some previous) chunk q =
    ok (if same_payload previous chunk then duplicate else conflict, q)

-- The writes: `add` refuses a key that is there.
abbrev pub store_chunk : Chunk → Queue → Result Fault (AppendOutcome × Queue)
store_chunk chunk q =
    if any (λ (c : Chunk). c.sequence == chunk.sequence) q.chunks
    then err constraint_error
    else ok (
      stored,
      record {
        meta = record (q.meta) {
          used_bytes = q.meta.used_bytes + length chunk.payload;
          item_count = q.meta.item_count + 1;
          next_sequence = q.meta.next_sequence + 1;
          revision = q.meta.revision + 1;
        };
        chunks = insert_by Chunk.sequence chunk q.chunks;
      },
    )

-- The transaction of `append`.
unfoldable pub append_transaction : Chunk → Queue → Result Fault (AppendOutcome × Queue)
append_transaction chunk q =
    if ltb chunk.sequence q.meta.first_sequence
    then ok (pruned, q)
    else if ltb chunk.sequence q.meta.next_sequence
    then compare_stored (chunk_at chunk.sequence q.chunks) chunk q
    else if not (chunk.sequence == q.meta.next_sequence)
    then ok (gap, q)
    else if q.meta.next_sequence == max_safe_integer
        || q.meta.revision == max_safe_integer
        || not (admits q.meta.limits q.meta.used_bytes q.meta.item_count (length chunk.payload))
    then ok (backpressure, q)
    else store_chunk chunk q

-- `pending` counts the appends that have begun and not ended.
unfoldable pub append : QueueOptions → ℕ → Chunk → Queue → Result Fault (AppendOutcome × Queue)
append options pending input q =
    if not (safe_non_negative_integer input.sequence)
      || not (digest input.checkpoint_digest)
      || length input.payload == 0
    then ok (invalid, q)
    else if ltb options.limits.max_item_bytes (length input.payload)
        || ltb (options.limits.max_bytes - options.limits.reserved_bytes) (length input.payload)
    then ok (backpressure, q)
    else if leb max_pending_appends pending
    then ok (backpressure, q)
    else append_transaction input q

-- `none` where the limit is refused.
unfoldable pub read_batch : ℕ → Queue → Option (List Chunk)
read_batch limit q = if ltb limit 1 || ltb max_batch limit then none else some (take limit q.chunks)

pub data PruneOutcome : Type 0 where
  pruned refused concurrent_write : PruneOutcome

abbrev pub total_bytes : List Chunk → ℕ
total_bytes [] = 0
total_bytes (c ∷ cs) = length c.payload + total_bytes cs

-- Whether the chunks carry the sequences from `n` on.
abbrev pub sequences_from : ℕ → List Chunk → Bool
sequences_from n [] = true
sequences_from n (c ∷ cs) = c.sequence == n && sequences_from (n + 1) cs

abbrev pub last_digest_is : Text → List Chunk → Bool
last_digest_is d chunks = elim (get_last? chunks) [
  | none ↦ false
  | some c ↦ text_eq c.checkpoint_digest d
]

-- The number of chunks from the first through `through`, where that is not below the first.
abbrev pub prune_count : Grant → Metadata → ℕ
prune_count grant meta = grant.through_sequence + 1 - meta.first_sequence

unfoldable pub removable : Grant → Metadata → List Chunk → Bool
removable grant meta chunks =
    length chunks == prune_count grant meta
    && sequences_from meta.first_sequence chunks
    && last_digest_is grant.through_checkpoint_digest chunks

-- The transaction of `prune`.
unfoldable pub prune_transaction : Grant → Queue → PruneOutcome × Queue
prune_transaction grant q =
    if not (q.meta.revision == grant.expected_revision)
    then (concurrent_write, q)
    else if ltb grant.through_sequence q.meta.first_sequence
        || ltb max_batch (prune_count grant q.meta)
        || leb q.meta.next_sequence grant.through_sequence
        || q.meta.revision == max_safe_integer
    then (refused, q)
    else if not (removable grant q.meta (take (prune_count grant q.meta) q.chunks))
    then (refused, q)
    else (
      PruneOutcome.pruned,
      record {
        meta = record (q.meta) {
          used_bytes = q.meta.used_bytes - total_bytes (take (prune_count grant q.meta) q.chunks);
          item_count = q.meta.item_count - prune_count grant q.meta;
          first_sequence = grant.through_sequence + 1;
          revision = q.meta.revision + 1;
        };
        chunks = drop (prune_count grant q.meta) q.chunks;
      },
    )

-- The checks before the transaction; the verifier is the caller's.
unfoldable pub grant_accepted : QueueOptions → Grant → Bool
grant_accepted options grant =
    leb (length grant.authorization) 16384
    && text_eq grant.queue_id options.queue_id
    && safe_non_negative_integer grant.expected_revision
    && safe_non_negative_integer grant.through_sequence
    && digest grant.through_checkpoint_digest
    && payload_prunable grant.delivery_acknowledged grant.gameplay_finalized grant.retention_closed
        grant.unresolved_reference
    && options.verify_prune_grant grant

unfoldable pub prune : QueueOptions → Grant → Queue → PruneOutcome × Queue
prune options grant q =
    if grant_accepted options grant then prune_transaction grant q else (refused, q)
