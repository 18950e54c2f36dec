-- ===== src/PayloadPool/Kept.antt =====
-- Every transaction of the pool keeps its accounts
-- (examples/cf-game-audit/web/src/audit/payload-pool.ts).
use converge_audit.Prelude.{ℕ, ◌+◌, ◌≤◌, ◌≡◌, refl, ap, none, some, List, arith}
use converge_audit.Prelude.Text.{Text}
use converge_audit.PayloadQueue.Budget.{PayloadQueueLimits}
use converge_audit.PayloadQueue.Store.{Chunk}
use converge_audit.PayloadPool.Scopes.{
  Scope, PoolMetadata, Pool, find_scope, put_scope, delete_scope, sum, sum-put_scope,
  sum-put_scope_fresh, sum-delete_scope,
}
use converge_audit.PayloadPool.Removal.{without_scope, closed_pool}
use converge_audit.PayloadPool.Accounts.{
  ScopeSound, one, reserved_bytes_in, reserved_items_in, Accounts, put-AllSound, delete-AllSound,
}

-- A scope weighs no more than all of them.
pub found_weight :
    (w : Scope → ℕ) (q : Text) (s : Scope) (ss : List Scope)
    → find_scope q ss ≡ some s
    → w s ≤ sum w ss
found_weight w q s ss h = omega (arith, sum-delete_scope w q s ss h)

-- A scope is replaced: what the counters gain is what it gains.
pub put-Accounts :
    (pool : Pool) (s new : Scope) (meta : PoolMetadata) (chunks : Text → List Chunk)
    → Accounts pool
    → find_scope new.queue_id pool.scopes ≡ some s
    → ScopeSound new
    → meta.used_bytes + s.used_bytes ≡ pool.meta.used_bytes + new.used_bytes
    → meta.item_count + s.item_count ≡ pool.meta.item_count + new.item_count
    → meta.queue_count ≡ pool.meta.queue_count
    → meta.reserved_payload_bytes + reserved_bytes_in s
      ≡ pool.meta.reserved_payload_bytes + reserved_bytes_in new
    → meta.reserved_item_count + reserved_items_in s
      ≡ pool.meta.reserved_item_count + reserved_items_in new
    → meta.max_queues ≡ pool.meta.max_queues
    → meta.used_bytes + meta.reserved_payload_bytes + meta.limits.reserved_bytes
      ≤ meta.limits.max_bytes
    → meta.item_count + meta.reserved_item_count ≤ meta.limits.max_items
    → Accounts (record { meta = meta; scopes = put_scope new pool.scopes; chunks = chunks })
put-Accounts pool s new meta chunks g f sound b i q rb ri m bound_b bound_i = record {
  bytes = omega (arith, g.bytes, b, sum-put_scope Scope.used_bytes new s pool.scopes f);
  items = omega (arith, g.items, i, sum-put_scope Scope.item_count new s pool.scopes f);
  queues = omega (arith, g.queues, q, sum-put_scope one new s pool.scopes f);
  reserved_bytes =
      omega (arith, g.reserved_bytes, rb, sum-put_scope reserved_bytes_in new s pool.scopes f);
  reserved_items =
      omega (arith, g.reserved_items, ri, sum-put_scope reserved_items_in new s pool.scopes f);
  byte_limit = bound_b;
  item_limit = bound_i;
  queue_limit = omega (arith, g.queue_limit, q, m);
  scopes_sound = put-AllSound new pool.scopes sound g.scopes_sound;
}

-- A scope is deleted: what the counters lose is what it had.
pub delete-Accounts :
    (pool : Pool) (s : Scope) (meta : PoolMetadata) (chunks : Text → List Chunk)
    → Accounts pool
    → find_scope s.queue_id pool.scopes ≡ some s
    → meta.used_bytes + s.used_bytes ≡ pool.meta.used_bytes
    → meta.item_count + s.item_count ≡ pool.meta.item_count
    → meta.queue_count + 1 ≡ pool.meta.queue_count
    → meta.reserved_payload_bytes + reserved_bytes_in s ≡ pool.meta.reserved_payload_bytes
    → meta.reserved_item_count + reserved_items_in s ≡ pool.meta.reserved_item_count
    → meta.max_queues ≡ pool.meta.max_queues
    → meta.limits ≡ pool.meta.limits
    → Accounts
        (record { meta = meta; scopes = delete_scope s.queue_id pool.scopes; chunks = chunks })
delete-Accounts pool s meta chunks g f b i q rb ri m l =
    let same_max : meta.limits.max_bytes ≡ pool.meta.limits.max_bytes =
      ap PayloadQueueLimits.max_bytes l in
    let same_res : meta.limits.reserved_bytes ≡ pool.meta.limits.reserved_bytes =
      ap PayloadQueueLimits.reserved_bytes l in
    let same_items : meta.limits.max_items ≡ pool.meta.limits.max_items =
      ap PayloadQueueLimits.max_items l in
    record {
      bytes =
          omega (arith, g.bytes, b, sum-delete_scope Scope.used_bytes s.queue_id s pool.scopes f);
      items =
          omega (arith, g.items, i, sum-delete_scope Scope.item_count s.queue_id s pool.scopes f);
      queues = omega (arith, g.queues, q, sum-delete_scope one s.queue_id s pool.scopes f);
      reserved_bytes = omega (
        arith,
        g.reserved_bytes,
        rb,
        sum-delete_scope reserved_bytes_in s.queue_id s pool.scopes f,
      );
      reserved_items = omega (
        arith,
        g.reserved_items,
        ri,
        sum-delete_scope reserved_items_in s.queue_id s pool.scopes f,
      );
      byte_limit = omega (arith, g.byte_limit, b, rb, same_max, same_res);
      item_limit = omega (arith, g.item_limit, i, ri, same_items);
      queue_limit = omega (arith, g.queue_limit, q, m);
      scopes_sound = delete-AllSound s.queue_id pool.scopes g.scopes_sound;
    }

pub without-Accounts :
    (pool : Pool) (s : Scope)
    → Accounts pool
    → find_scope s.queue_id pool.scopes ≡ some s
    → s.used_bytes ≡ 0
    → s.item_count ≡ 0
    → Accounts (without_scope s pool)
without-Accounts pool s g f b i =
    let queue = found_weight one s.queue_id s pool.scopes f in
    let rb = found_weight reserved_bytes_in s.queue_id s pool.scopes f in
    let ri = found_weight reserved_items_in s.queue_id s pool.scopes f in
    delete-Accounts pool s _ pool.chunks g f (omega (arith, b)) (omega (arith, i))
      (omega (arith, queue, g.queues)) (omega (arith, rb, g.reserved_bytes))
      (omega (arith, ri, g.reserved_items)) refl refl

pub closed-Accounts :
    (pool : Pool) (s : Scope)
    → Accounts pool
    → find_scope s.queue_id pool.scopes ≡ some s
    → Accounts (closed_pool s s.used_bytes pool)
closed-Accounts pool s g f =
    let queue = found_weight one s.queue_id s pool.scopes f in
    let b = found_weight Scope.used_bytes s.queue_id s pool.scopes f in
    let i = found_weight Scope.item_count s.queue_id s pool.scopes f in
    let rb = found_weight reserved_bytes_in s.queue_id s pool.scopes f in
    let ri = found_weight reserved_items_in s.queue_id s pool.scopes f in
    delete-Accounts pool s _ _ g f (omega (arith, b, g.bytes)) (omega (arith, i, g.items))
      (omega (arith, queue, g.queues)) (omega (arith, rb, g.reserved_bytes))
      (omega (arith, ri, g.reserved_items)) refl refl

-- A scope is added for a queue that has none.
pub fresh-Accounts :
    (pool : Pool) (new : Scope) (meta : PoolMetadata) (chunks : Text → List Chunk)
    → Accounts pool
    → find_scope new.queue_id pool.scopes ≡ none
    → ScopeSound new
    → meta.used_bytes ≡ pool.meta.used_bytes + new.used_bytes
    → meta.item_count ≡ pool.meta.item_count + new.item_count
    → meta.queue_count ≡ pool.meta.queue_count + 1
    → meta.reserved_payload_bytes ≡ pool.meta.reserved_payload_bytes + reserved_bytes_in new
    → meta.reserved_item_count ≡ pool.meta.reserved_item_count + reserved_items_in new
    → meta.queue_count ≤ meta.max_queues
    → meta.used_bytes + meta.reserved_payload_bytes + meta.limits.reserved_bytes
      ≤ meta.limits.max_bytes
    → meta.item_count + meta.reserved_item_count ≤ meta.limits.max_items
    → Accounts (record { meta = meta; scopes = put_scope new pool.scopes; chunks = chunks })
fresh-Accounts pool new meta chunks g f sound b i q rb ri m bound_b bound_i = record {
  bytes = omega (arith, g.bytes, b, sum-put_scope_fresh Scope.used_bytes new pool.scopes f);
  items = omega (arith, g.items, i, sum-put_scope_fresh Scope.item_count new pool.scopes f);
  queues = omega (arith, g.queues, q, sum-put_scope_fresh one new pool.scopes f);
  reserved_bytes =
      omega (arith, g.reserved_bytes, rb, sum-put_scope_fresh reserved_bytes_in new pool.scopes f);
  reserved_items =
      omega (arith, g.reserved_items, ri, sum-put_scope_fresh reserved_items_in new pool.scopes f);
  byte_limit = bound_b;
  item_limit = bound_i;
  queue_limit = m;
  scopes_sound = put-AllSound new pool.scopes sound g.scopes_sound;
}
