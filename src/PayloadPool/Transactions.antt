-- ===== src/PayloadPool/Transactions.antt =====
-- The writes of the pool keep its accounts
-- (examples/cf-game-audit/web/src/audit/payload-pool.ts).
use converge_audit.Prelude.{
  ℕ, ◌+◌, ◌-◌, ◌≤◌, ◌<◌, ◌≡◌, refl, ap, subst, true, Option, none, some, length, ◌==◌, arith,
  Bool-cases, inl, inr, ok,
}
use converge_audit.Prelude.Text.{Text}
use converge_audit.PayloadQueue.Budget.{payload_queue_limits_valid, admits_room}
use converge_audit.PayloadQueue.Store.{Chunk, Grant, AppendOutcome, total_bytes}
use converge_audit.PayloadPool.Scopes.{
  Capacity, Scope, PoolMetadata, Pool, remaining_bytes_of, remaining_items_of, find_scope,
  registers_scope, reserves,
}
use converge_audit.PayloadPool.Store.{
  stored_pool, ScopeOptions, Reservation, register, reserved_capacity, new_scope, reserve_allowed,
  has_room, spent, released_bytes, released_items, store_scoped,
}
use converge_audit.PayloadPool.Removal.{pruned_pool, pruned_chunks, removed_count}
use converge_audit.PayloadPool.Accounts.{
  ScopeSound, CapacitySound, reserved_bytes_in, reserved_items_in, Accounts, found-ScopeSound,
}
use converge_audit.PayloadPool.Kept.{found_weight, put-Accounts, fresh-Accounts}

spent-CapacitySound :
    (s : Scope) (c : Option Capacity) (m : PoolMetadata) (bytes revision : ℕ)
    → 0 < bytes
    → has_room c m bytes ≡ true
    → CapacitySound s c
    → CapacitySound
        (record s {
          capacity = spent c bytes;
          used_bytes = s.used_bytes + bytes;
          item_count = s.item_count + 1;
          next_sequence = s.next_sequence + 1;
          revision = revision;
        })
        (spent c bytes)
spent-CapacitySound s none m bytes revision pos room h = tt
spent-CapacitySound s (some c) m bytes revision pos room h =
    elim (Bool-cases (c.remaining_items == 1)) [
      | inl t ↦ ground (arith, t, room, h)
      | inr f ↦ ground (arith, f, room, h)
    ]

-- What a credit gives up is what the pool has reserved less.
spent_bytes :
    (c : Option Capacity) (m : PoolMetadata) (bytes : ℕ)
    → has_room c m bytes ≡ true
    → (released_bytes c bytes + remaining_bytes_of (spent c bytes) ≡ remaining_bytes_of c)
      × (released_items c + remaining_items_of (spent c bytes) ≡ remaining_items_of c)
spent_bytes none m bytes room = (refl, refl)
spent_bytes (some c) m bytes room = elim (Bool-cases (c.remaining_items == 1)) [
  | inl t ↦ ground (arith, t, room)
  | inr f ↦ ground (arith, f, room)
]

-- The chunk is paid for by the credit, or the pool has room beside all credits.
room_bytes :
    (c : Option Capacity) (m : PoolMetadata) (bytes : ℕ)
    → has_room c m bytes ≡ true
    → m.used_bytes + m.reserved_payload_bytes + m.limits.reserved_bytes ≤ m.limits.max_bytes
    → m.item_count + m.reserved_item_count ≤ m.limits.max_items
    → released_bytes c bytes ≤ m.reserved_payload_bytes
    → released_items c ≤ m.reserved_item_count
    → (m.used_bytes
          + bytes
          + (m.reserved_payload_bytes - released_bytes c bytes)
          + m.limits.reserved_bytes
        ≤ m.limits.max_bytes)
      × (m.item_count + 1 + (m.reserved_item_count - released_items c) ≤ m.limits.max_items)
room_bytes none m bytes room b i rb ri =
    let (pos, item, count, all_bytes) =
      admits_room m.limits (m.used_bytes + m.reserved_payload_bytes)
        (m.item_count + m.reserved_item_count) bytes room in
    (omega (arith, all_bytes), omega (arith, count))
room_bytes (some c) m bytes room b i rb ri = elim (Bool-cases (c.remaining_items == 1)) [
  | inl t ↦ ground (arith, t, room, b, i, rb, ri)
  | inr f ↦ ground (arith, f, room, b, i, rb, ri)
]

pub store-Accounts :
    (pool next : Pool) (s : Scope) (chunk : Chunk) (o : AppendOutcome)
    → Accounts pool
    → find_scope s.queue_id pool.scopes ≡ some s
    → 0 < length chunk.payload
    → has_room s.capacity pool.meta (length chunk.payload) ≡ true
    → store_scoped s chunk pool ≡ ok (o, next)
    → Accounts next
store-Accounts pool next s chunk o g f pos room h =
    let bytes = length chunk.payload in
    let (valid, count, unused, credit) =
      found-ScopeSound s.queue_id pool.scopes s g.scopes_sound f in
    let (sb, si) = spent_bytes s.capacity pool.meta bytes room in
    let rb = found_weight reserved_bytes_in s.queue_id s pool.scopes f in
    let ri = found_weight reserved_items_in s.queue_id s pool.scopes f in
    let (bound_b, bound_i) =
      room_bytes s.capacity pool.meta bytes room g.byte_limit g.item_limit
        (omega (arith, sb, rb, g.reserved_bytes)) (omega (arith, si, ri, g.reserved_items)) in
    let kept =
      spent-CapacitySound s s.capacity pool.meta bytes (pool.meta.revision + 1) pos room credit in
    let made : stored_pool s chunk pool ≡ next = ground (arith, h) in
    subst Accounts made (
      put-Accounts pool s _ _ _ g f
        (valid, omega (arith, count), λ z. absurd (omega (arith, z)), kept) (omega arith)
        (omega arith) refl (omega (arith, sb, rb, g.reserved_bytes))
        (omega (arith, si, ri, g.reserved_items)) refl bound_b bound_i)

pruned-CapacitySound :
    (s : Scope) (c : Option Capacity) (used items first revision : ℕ) (d : Option Text)
    → used ≤ s.used_bytes
    → 0 < first
    → CapacitySound s c
    → CapacitySound
        (record s {
          used_bytes = used;
          item_count = items;
          first_sequence = first;
          last_pruned_digest = d;
          revision = revision;
        })
        c
pruned-CapacitySound s none used items first revision d le pos h = tt
pruned-CapacitySound s (some c) used items first revision d le pos h = ground (arith, le, pos, h)

pub pruned-Accounts :
    (pool : Pool) (s : Scope) (grant : Grant)
    → Accounts pool
    → find_scope s.queue_id pool.scopes ≡ some s
    → s.first_sequence ≤ grant.through_sequence
    → grant.through_sequence < s.next_sequence
    → total_bytes (pruned_chunks grant s pool) ≤ s.used_bytes
    → Accounts (pruned_pool grant s pool)
pruned-Accounts pool s grant g f lo hi le =
    let (valid, count, unused, credit) =
      found-ScopeSound s.queue_id pool.scopes s g.scopes_sound f in
    let b = found_weight Scope.used_bytes s.queue_id s pool.scopes f in
    let i = found_weight Scope.item_count s.queue_id s pool.scopes f in
    let kept =
      pruned-CapacitySound s s.capacity (s.used_bytes - total_bytes (pruned_chunks grant s pool))
        (s.item_count - removed_count grant s) (grant.through_sequence + 1) (pool.meta.revision + 1)
        (some grant.through_checkpoint_digest) (omega arith) (omega arith) credit in
    put-Accounts pool s _ _ _ g f
      (valid, omega (arith, count, lo, hi), λ z. absurd (omega (arith, z, hi)), kept)
      (omega (arith, b, g.bytes, le)) (omega (arith, i, g.items, count, lo, hi)) refl refl refl refl
      (omega (arith, g.byte_limit)) (omega (arith, g.item_limit))

-- What a reservation has to fit.
abbrev pub Fits : ScopeOptions → Option Reservation → Type 0
Fits options none = Unit
Fits options (some r) =
    (r.bytes + options.limits.reserved_bytes ≤ options.limits.max_bytes)
    × (r.items ≤ options.limits.max_items)

new-ScopeSound :
    (options : ScopeOptions) (reservation : Option Reservation) (existing : Option Scope)
    (m : PoolMetadata) (revision : ℕ)
    → payload_queue_limits_valid options.limits ≡ true
    → Fits options reservation
    → ScopeSound (new_scope options reservation existing revision)
new-ScopeSound options none existing m revision valid fits = (valid, refl, λ z. refl, tt)
new-ScopeSound options (some r) existing m revision valid fits =
    unfold payload_queue_limits_valid in (valid, refl, λ z. refl, ground (arith, valid, fits))

reserved_room :
    (reservation : Option Reservation) (m : PoolMetadata)
    → reserve_allowed reservation m ≡ true
    → m.used_bytes + m.reserved_payload_bytes + m.limits.reserved_bytes ≤ m.limits.max_bytes
    → m.item_count + m.reserved_item_count ≤ m.limits.max_items
    → (m.used_bytes
          + (m.reserved_payload_bytes + remaining_bytes_of (reserved_capacity reservation))
          + m.limits.reserved_bytes
        ≤ m.limits.max_bytes)
      × (m.item_count + (m.reserved_item_count + remaining_items_of (reserved_capacity reservation))
          ≤ m.limits.max_items)
unfolding reserves
reserved_room none m allowed b i = (omega (arith, b), omega (arith, i))
reserved_room (some r) m allowed b i = ground (arith, allowed, b, i)

pub register_fresh-Accounts :
    (options : ScopeOptions) (reservation : Option Reservation) (pool next : Pool) (n : ℕ)
    → Accounts pool
    → payload_queue_limits_valid options.limits ≡ true
    → Fits options reservation
    → find_scope options.queue_id pool.scopes ≡ none
    → register options reservation none pool ≡ ok (n, next)
    → Accounts next
unfolding registers_scope
register_fresh-Accounts options reservation pool next n g valid fits f h =
    let scope = new_scope options reservation none (pool.meta.revision + 1) in
    let (bound_b, bound_i) =
      reserved_room reservation pool.meta (ground (arith, h)) g.byte_limit g.item_limit in
    let room : pool.meta.queue_count < pool.meta.max_queues = ground (arith, h) in
    subst Accounts (ground (arith, h)) (
      fresh-Accounts pool scope
        (record (pool.meta) {
          queue_count = pool.meta.queue_count + 1;
          revision = pool.meta.revision + 1;
          reserved_payload_bytes =
              pool.meta.reserved_payload_bytes + remaining_bytes_of (reserved_capacity reservation);
          reserved_item_count =
              pool.meta.reserved_item_count + remaining_items_of (reserved_capacity reservation);
        })
        pool.chunks g f
        (new-ScopeSound options reservation none pool.meta (pool.meta.revision + 1) valid fits)
        (omega arith) (omega arith) refl refl refl (omega (arith, room)) bound_b bound_i)

pub register_again-Accounts :
    (options : ScopeOptions) (r : Reservation) (s : Scope) (pool next : Pool) (n : ℕ)
    → Accounts pool
    → payload_queue_limits_valid options.limits ≡ true
    → Fits options (some r)
    → find_scope options.queue_id pool.scopes ≡ some s
    → s.capacity ≡ none
    → s.next_sequence ≡ 0
    → register options (some r) (some s) pool ≡ ok (n, next)
    → Accounts next
register_again-Accounts options r s pool next n g valid fits f credit unwritten h =
    let (fine, count, unused, kept) =
      found-ScopeSound options.queue_id pool.scopes s g.scopes_sound f in
    let (bound_b, bound_i) =
      reserved_room (some r) pool.meta (ground (arith, h)) g.byte_limit g.item_limit in
    let no_bytes : reserved_bytes_in s ≡ 0 = ap remaining_bytes_of credit in
    let no_items : reserved_items_in s ≡ 0 = ap remaining_items_of credit in
    subst Accounts (ground (arith, h)) (
      put-Accounts pool s (new_scope options (some r) (some s) (pool.meta.revision + 1))
        (record (pool.meta) {
          queue_count = pool.meta.queue_count + 0;
          revision = pool.meta.revision + 1;
          reserved_payload_bytes = pool.meta.reserved_payload_bytes + r.bytes;
          reserved_item_count = pool.meta.reserved_item_count + r.items;
        })
        pool.chunks g f
        (new-ScopeSound options (some r) (some s) pool.meta (pool.meta.revision + 1) valid fits)
        (omega (arith, unused unwritten)) (omega (arith, count, unwritten)) (omega arith)
        (omega (arith, no_bytes)) (omega (arith, no_items)) refl bound_b bound_i)
