-- ===== src/PayloadPool/Removal.antt =====
-- What leaves the pool: prune, release, releaseEmpty and releaseClosed
-- (examples/cf-game-audit/web/src/audit/payload-pool.ts).
use converge_audit.Prelude.{
  ℕ, ◌+◌, ◌-◌, Bool, false, not, ◌&&◌, ◌||◌, Option, none, some, List, ltb, leb, ◌==◌,
  if◌then◌else◌, length, take, drop, Result, ok, err, ◌>>=◌,
}
use converge_audit.Prelude.Text.{Text, text_eq, max_safe_integer, safe_non_negative_integer}
use converge_audit.PayloadQueue.Budget.{payload_prunable}
use converge_audit.PayloadQueue.Store.{
  Chunk, Grant, max_batch, digest, total_bytes, sequences_from, last_digest_is,
}
use converge_audit.PayloadPool.Scopes.{
  Scope, Pool, remaining_bytes_of, remaining_items_of, put_scope, delete_scope, with_chunks,
}
use converge_audit.PayloadPool.Store.{
  ScopeClosureGrant, ScopeOptions, PoolFault, invalid_terminal_scope, invalid_terminal_accounting,
  invalid_pool_accounting, RemoveOutcome, removed, released, refused, concurrent_write, scoped,
}

abbrev pub digest_is : Text → Option Text → Bool
digest_is d none = false
digest_is d (some e) = text_eq d e

-- The metadata without a scope that used nothing.
abbrev pub without_scope : Scope → Pool → Pool
without_scope s pool = record {
  meta = record (pool.meta) {
    queue_count = pool.meta.queue_count - 1;
    revision = pool.meta.revision + 1;
    reserved_payload_bytes = pool.meta.reserved_payload_bytes - remaining_bytes_of s.capacity;
    reserved_item_count = pool.meta.reserved_item_count - remaining_items_of s.capacity;
  };
  scopes = delete_scope s.queue_id pool.scopes;
  chunks = pool.chunks;
}

-- The branch of `remove` for a release.
unfoldable pub release_scoped : Grant → Scope → Pool → RemoveOutcome × Pool
release_scoped grant s pool =
    if not (s.item_count == 0)
      || not (s.used_bytes == 0)
      || s.next_sequence == 0
      || not (s.first_sequence == s.next_sequence)
      || not (grant.through_sequence == s.next_sequence - 1)
      || not (digest_is grant.through_checkpoint_digest s.last_pruned_digest)
    then (refused, pool)
    else (released, without_scope s pool)

-- The number of chunks from the first through `through`, where that is not below the first.
abbrev pub removed_count : Grant → Scope → ℕ
removed_count grant s = grant.through_sequence + 1 - s.first_sequence

abbrev pub pruned_chunks : Grant → Scope → Pool → List Chunk
pruned_chunks grant s pool = take (removed_count grant s) (pool.chunks s.queue_id)

abbrev pub pruned_pool : Grant → Scope → Pool → Pool
pruned_pool grant s pool = record {
  meta = record (pool.meta) {
    used_bytes = pool.meta.used_bytes - total_bytes (pruned_chunks grant s pool);
    item_count = pool.meta.item_count - removed_count grant s;
    revision = pool.meta.revision + 1;
  };
  scopes =
      put_scope
        (record s {
          used_bytes = s.used_bytes - total_bytes (pruned_chunks grant s pool);
          item_count = s.item_count - removed_count grant s;
          first_sequence = grant.through_sequence + 1;
          last_pruned_digest = some grant.through_checkpoint_digest;
          revision = pool.meta.revision + 1;
        })
        pool.scopes;
  chunks =
      with_chunks s.queue_id (drop (removed_count grant s) (pool.chunks s.queue_id)) pool.chunks;
}

-- The branch of `remove` for a prune.
unfoldable pub prune_scoped : Grant → Scope → Pool → Result PoolFault (RemoveOutcome × Pool)
prune_scoped grant s pool =
    if ltb grant.through_sequence s.first_sequence
      || ltb max_batch (removed_count grant s)
      || leb s.next_sequence grant.through_sequence
    then ok (refused, pool)
    else if not (length (pruned_chunks grant s pool) == removed_count grant s)
        || not (sequences_from s.first_sequence (pruned_chunks grant s pool))
        || not (last_digest_is grant.through_checkpoint_digest (pruned_chunks grant s pool))
    then ok (refused, pool)
    else if ltb s.used_bytes (total_bytes (pruned_chunks grant s pool))
        || ltb pool.meta.used_bytes (total_bytes (pruned_chunks grant s pool))
        || ltb pool.meta.item_count (removed_count grant s)
    then err invalid_pool_accounting
    else ok (removed, pruned_pool grant s pool)

-- The checks of `remove` before its transaction.
abbrev pub remove_accepted : ScopeOptions → Grant → Bool
remove_accepted options grant =
    leb (length grant.authorization) 16384
    && text_eq grant.queue_id options.queue_id
    && safe_non_negative_integer grant.expected_revision
    && safe_non_negative_integer grant.through_sequence
    && digest grant.through_checkpoint_digest
    && payload_prunable grant.delivery_acknowledged grant.gameplay_finalized grant.retention_closed
        grant.unresolved_reference
    && options.verify_prune_grant grant

-- The transaction of `remove`, on the scope of the queue.
unfoldable pub remove_scoped : Bool → Grant → Scope → Pool → Result PoolFault (RemoveOutcome × Pool)
remove_scoped release grant s pool =
    if not (s.revision == grant.expected_revision)
    then ok (concurrent_write, pool)
    else if pool.meta.revision == max_safe_integer
    then ok (refused, pool)
    else if release
    then ok (release_scoped grant s pool)
    else prune_scoped grant s pool

unfoldable pub remove :
    ScopeOptions → ℕ → Bool → Grant → Pool → Result PoolFault (RemoveOutcome × Pool)
remove options incarnation release grant pool =
    if not (remove_accepted options grant)
    then ok (refused, pool)
    else do s ← scoped options.queue_id incarnation pool; remove_scoped release grant s pool

unfoldable pub release_empty_scoped : Scope → Pool → RemoveOutcome × Pool
release_empty_scoped s pool =
    if not (s.next_sequence == 0)
      || not (s.item_count == 0)
      || not (s.used_bytes == 0)
      || pool.meta.revision == max_safe_integer
    then (refused, pool)
    else (released, without_scope s pool)

unfoldable pub release_empty : ScopeOptions → ℕ → Pool → Result PoolFault (RemoveOutcome × Pool)
release_empty options incarnation pool = do
  s ← scoped options.queue_id incarnation pool
  ok (release_empty_scoped s pool)

abbrev pub closed_pool : Scope → ℕ → Pool → Pool
closed_pool s bytes pool = record {
  meta = record (pool.meta) {
    used_bytes = pool.meta.used_bytes - bytes;
    item_count = pool.meta.item_count - s.item_count;
    queue_count = pool.meta.queue_count - 1;
    revision = pool.meta.revision + 1;
    reserved_payload_bytes = pool.meta.reserved_payload_bytes - remaining_bytes_of s.capacity;
    reserved_item_count = pool.meta.reserved_item_count - remaining_items_of s.capacity;
  };
  scopes = delete_scope s.queue_id pool.scopes;
  chunks = with_chunks s.queue_id (drop (max_batch + 1) (pool.chunks s.queue_id)) pool.chunks;
}

-- The transaction of `removeClosed`, on the scope of the queue.
unfoldable pub remove_closed_scoped :
    ScopeClosureGrant → Scope → Pool → Result PoolFault (RemoveOutcome × Pool)
remove_closed_scoped grant s pool =
    let chunks = take (max_batch + 1) (pool.chunks s.queue_id) in
    let bytes = total_bytes chunks in
    if not (s.revision == grant.expected_revision)
    then ok (concurrent_write, pool)
    else if not (s.next_sequence == grant.next_sequence)
        || ltb max_batch s.item_count
        || pool.meta.revision == max_safe_integer
    then ok (refused, pool)
    else if not (length chunks == s.item_count) || not (sequences_from s.first_sequence chunks)
    then err invalid_terminal_scope
    else if not (bytes == s.used_bytes)
        || ltb pool.meta.used_bytes bytes
        || ltb pool.meta.item_count s.item_count
        || ltb pool.meta.reserved_payload_bytes (remaining_bytes_of s.capacity)
        || ltb pool.meta.reserved_item_count (remaining_items_of s.capacity)
        || ltb pool.meta.queue_count 1
    then err invalid_terminal_accounting
    else ok (released, closed_pool s bytes pool)

abbrev pub closure_verified : ScopeOptions → ScopeClosureGrant → Bool
closure_verified options grant = elim (options.verify_closure_grant) [
  | none ↦ false
  | some verify ↦ verify grant
]

unfoldable pub remove_closed :
    ScopeOptions → ℕ → ScopeClosureGrant → Pool → Result PoolFault (RemoveOutcome × Pool)
remove_closed options incarnation grant pool =
    if not (text_eq grant.queue_id options.queue_id)
      || not (safe_non_negative_integer grant.expected_revision)
      || not (safe_non_negative_integer grant.next_sequence)
      || not (digest grant.closure_id)
      || ltb 16384 (length grant.authorization)
      || not (closure_verified options grant)
    then ok (refused, pool)
    else do s ← scoped options.queue_id incarnation pool; remove_closed_scoped grant s pool
