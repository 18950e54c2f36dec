-- ===== src/PayloadPool/Reached.antt =====
-- Every pool that its transactions reach has its accounts in order
-- (examples/cf-game-audit/web/src/audit/payload-pool.ts).
use converge_audit.Prelude.{ℕ, ◌≡◌, refl, Bool, true, none, [], arith, ok}
use converge_audit.PayloadQueue.Budget.{PayloadQueueLimits, payload_queue_limits_valid}
use converge_audit.PayloadQueue.Store.{Chunk, Grant, AppendOutcome}
use converge_audit.PayloadPool.Scopes.{Pool, sum}
use converge_audit.PayloadPool.Store.{
  ScopeOptions, Reservation, ScopeClosureGrant, RemoveOutcome, open_scope, reserve, append_pooled,
}
use converge_audit.PayloadPool.Removal.{remove, release_empty, remove_closed}
use converge_audit.PayloadPool.Accounts.{no_scopes, Accounts}
use converge_audit.PayloadPool.Operations.{
  append_pooled-Accounts, remove-Accounts, release_empty-Accounts, remove_closed-Accounts,
  open_unreserved-Accounts, reserve-Accounts,
}

-- The pool that `validate` makes of an empty database.
abbrev pub empty_pool : PayloadQueueLimits → ℕ → Pool
empty_pool limits max_queues = record {
  meta = record {
    limits = limits;
    max_queues = max_queues;
    used_bytes = 0;
    item_count = 0;
    queue_count = 0;
    revision = 0;
    reserved_payload_bytes = 0;
    reserved_item_count = 0;
  };
  scopes = [];
  chunks = λ q. [];
}

-- A transaction that ends, and the pool that it leaves.
pub data Transaction (pool : Pool) : Pool → Type 0 where
  opens :
      {next : Pool} {n : ℕ} (options : ScopeOptions)
      → open_scope options none pool ≡ ok (n, next)
      → Transaction pool next
  reservation :
      {next : Pool} {n : ℕ} (options : ScopeOptions) (r : Reservation)
      → reserve options r pool ≡ ok (n, next)
      → Transaction pool next
  appends :
      {next : Pool} {o : AppendOutcome} (options : ScopeOptions) (incarnation pending : ℕ)
      (chunk : Chunk)
      → append_pooled options incarnation pending chunk pool ≡ ok (o, next)
      → Transaction pool next
  removes :
      {next : Pool} {o : RemoveOutcome} (options : ScopeOptions) (incarnation : ℕ) (release : Bool)
      (grant : Grant)
      → remove options incarnation release grant pool ≡ ok (o, next)
      → Transaction pool next
  releases_empty :
      {next : Pool} {o : RemoveOutcome} (options : ScopeOptions) (incarnation : ℕ)
      → release_empty options incarnation pool ≡ ok (o, next)
      → Transaction pool next
  releases_closed :
      {next : Pool} {o : RemoveOutcome} (options : ScopeOptions) (incarnation : ℕ)
      (grant : ScopeClosureGrant)
      → remove_closed options incarnation grant pool ≡ ok (o, next)
      → Transaction pool next

pub data Reached (limits : PayloadQueueLimits) (max_queues : ℕ) : Pool → Type 0 where
  created : Reached limits max_queues (empty_pool limits max_queues)
  after :
      {pool next : Pool}
      → Reached limits max_queues pool
      → Transaction pool next
      → Reached limits max_queues next

Transaction-Accounts : (pool next : Pool) → Accounts pool → Transaction pool next → Accounts next
Transaction-Accounts pool next g (opens {n = n} options h) =
    open_unreserved-Accounts pool next options n g h
Transaction-Accounts pool next g (reservation {n = n} options r h) =
    reserve-Accounts pool next options r n g h
Transaction-Accounts pool next g (appends {o = o} options incarnation pending chunk h) =
    append_pooled-Accounts pool next options incarnation pending chunk o g h
Transaction-Accounts pool next g (removes {o = o} options incarnation release grant h) =
    remove-Accounts pool next options incarnation release grant o g h
Transaction-Accounts pool next g (releases_empty {o = o} options incarnation h) =
    release_empty-Accounts pool next options incarnation o g h
Transaction-Accounts pool next g (releases_closed {o = o} options incarnation grant h) =
    remove_closed-Accounts pool next options incarnation grant o g h

-- Whatever transactions follow one another from an empty database with valid limits, the bytes, the
-- items, the queues and the two reservations that the pool counts are the sums over its scopes, the
-- bytes used and reserved stay in the limit beside the headroom, the items and the queues stay in
-- theirs. In each scope with a reservation, which fits its queue, the items that were stored and
-- those of the credit are the items reserved, and the bytes in use and those of the credit are no
-- more than the bytes reserved, and exactly those while nothing has been pruned and the credit has
-- an item left.
pub reached-Accounts :
    (limits : PayloadQueueLimits) (max_queues : ℕ) (pool : Pool)
    → payload_queue_limits_valid limits ≡ true
    → Reached limits max_queues pool
    → Accounts pool
unfolding sum payload_queue_limits_valid
reached-Accounts limits max_queues pool valid created = record {
  bytes = refl;
  items = refl;
  queues = refl;
  reserved_bytes = refl;
  reserved_items = refl;
  byte_limit = ground (arith, valid);
  item_limit = omega arith;
  queue_limit = omega arith;
  scopes_sound = no_scopes;
}
reached-Accounts limits max_queues next valid (after {pool = pool} r t) =
    Transaction-Accounts pool next (reached-Accounts limits max_queues pool valid r) t
