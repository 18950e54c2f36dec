-- ===== src/PayloadPool/Reserved.antt =====
-- A credit is room that no other queue can take
-- (examples/cf-game-audit/web/src/audit/payload-pool.ts).
use converge_audit.Prelude.{
  ℕ, ◌≤◌, ◌<◌, ◌≡◌, sym, subst, true, false, some, any, length, ◌==◌, arith, ok,
}
use converge_audit.Prelude.Text.{max_safe_integer}
use converge_audit.PayloadQueue.Budget.{
  payload_admission_allowed, PayloadQueueLimits, payload_queue_limits_valid, admits,
}
use converge_audit.PayloadQueue.Store.{stored, digest, Chunk}
use converge_audit.PayloadPool.Scopes.{Capacity, Scope, Pool, remaining_bytes_of, find_scope, sum}
use converge_audit.PayloadPool.Store.{
  stored_pool, too_large, ScopeOptions, has_room, append_scoped, append_pooled,
}
use converge_audit.PayloadPool.Accounts.{
  ScopeSound, CapacitySound, reserved_bytes_in, found-ScopeSound,
}
use converge_audit.PayloadPool.Kept.{found_weight}
use converge_audit.PayloadPool.Reached.{Reached, reached-Accounts}

-- A chunk that the credit of its scope covers is admitted to the scope.
credit_admits :
    (s : Scope) (c : Capacity) (bytes : ℕ)
    → ScopeSound s
    → s.capacity ≡ some c
    → 0 < bytes
    → bytes ≤ s.limits.max_item_bytes
    → bytes ≤ c.remaining_bytes
    → 1 ≤ c.remaining_items
    → (admits s.limits s.used_bytes s.item_count bytes ≡ true)
      × (s.next_sequence < max_safe_integer)
unfolding admits payload_queue_limits_valid payload_admission_allowed
credit_admits s c bytes (valid, count, unused, kept) credit pos small fits items =
    let (b, i, used, rest, bound, whole) = subst (CapacitySound s) credit kept in
    (
      ground (arith, valid, count, b, i, used, rest, pos, small, fits, items),
      ground (arith, valid, i, rest, items),
    )

-- In every pool that the transactions reach, whatever the other queues have stored and reserved, the
-- next chunk of a queue with credit is stored, if the credit covers its bytes and an item, it is no
-- larger than an item may be in the queue and in the pool, fewer than four appends are under way,
-- the revision is not at its end, and no chunk has its key.
pub reserved_append_stored :
    (limits : PayloadQueueLimits) (max_queues : ℕ) (pool : Pool) (options : ScopeOptions)
    (s : Scope) (c : Capacity) (pending : ℕ) (chunk : Chunk)
    → payload_queue_limits_valid limits ≡ true
    → Reached limits max_queues pool
    → find_scope options.queue_id pool.scopes ≡ some s
    → options.limits ≡ s.limits
    → s.capacity ≡ some c
    → chunk.sequence ≡ s.next_sequence
    → digest chunk.checkpoint_digest ≡ true
    → 0 < length chunk.payload
    → length chunk.payload ≤ s.limits.max_item_bytes
    → length chunk.payload ≤ pool.meta.limits.max_item_bytes
    → length chunk.payload ≤ c.remaining_bytes
    → 1 ≤ c.remaining_items
    → pending < 4
    → pool.meta.revision < max_safe_integer
    → any (λ (k : Chunk). k.sequence == chunk.sequence) (pool.chunks s.queue_id) ≡ false
    → (next : Pool) × (append_pooled options s.incarnation pending chunk pool ≡ ok (stored, next))
unfolding append_pooled append_scoped
reserved_append_stored limits max_queues pool options s c pending chunk valid reached f same credit
      seq dig pos small small_pool fits items free rev fresh =
    let g = reached-Accounts limits max_queues pool valid reached in
    let sound = found-ScopeSound options.queue_id pool.scopes s g.scopes_sound f in
    let (room, below) =
      credit_admits s c (length chunk.payload) sound credit pos small fits items in
    let (lawful, count, unused, kept) = sound in
    let (b, i, used, rest, bound, whole) = subst (CapacitySound s) credit kept in
    let rb : c.remaining_bytes ≤ sum reserved_bytes_in pool.scopes =
      subst (λ k. remaining_bytes_of k ≤ sum reserved_bytes_in pool.scopes) credit
        (found_weight reserved_bytes_in options.queue_id s pool.scopes f) in
    let paid : has_room s.capacity pool.meta (length chunk.payload) ≡ true =
      subst (λ k. has_room k pool.meta (length chunk.payload) ≡ true) (sym credit)
        (ground (arith, fits, items)) in
    let size : too_large options.limits (length chunk.payload) ≡ false =
      subst (λ l. too_large l (length chunk.payload) ≡ false) (sym same)
        (ground (arith, small, fits, b, used)) in
    let size_pool : too_large pool.meta.limits (length chunk.payload) ≡ false =
      ground (arith, small_pool, fits, rb, g.reserved_bytes, g.byte_limit) in
    (
      stored_pool s chunk pool,
      ground (arith, f, size, size_pool, room, below, paid, seq, dig, pos, free, rev, fresh, count),
    )
