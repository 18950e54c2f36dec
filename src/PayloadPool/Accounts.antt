-- ===== src/PayloadPool/Accounts.antt =====
-- The accounts of the pool: its counters are the sums over the scopes, and they stay in its limits
-- (examples/cf-game-audit/web/src/audit/payload-pool.ts).
use converge_audit.Prelude.{
  ℕ, ◌+◌, ◌≤◌, ◌≡◌, ◌≢◌, subst, true, Option, none, some, List, [], ◌∷◌, arith, Bool-cases, inl,
  inr,
}
use converge_audit.Prelude.Text.{Text, text_eq}
use converge_audit.PayloadQueue.Budget.{payload_queue_limits_valid}
use converge_audit.PayloadPool.Scopes.{
  Capacity, Scope, Pool, remaining_bytes_of, remaining_items_of, find_scope, put_scope,
  delete_scope, sum,
}

-- A reservation fits the queue; each of its items has been stored or can still be; the bytes in use
-- and the credit together are no more than it, and exactly it while nothing has been pruned and an
-- item can still be stored.
abbrev pub CapacitySound : Scope → Option Capacity → Type 0
CapacitySound s none = Unit
CapacitySound s (some c) =
    (c.total_bytes + s.limits.reserved_bytes ≤ s.limits.max_bytes)
    × (c.total_items ≤ s.limits.max_items)
    × (s.used_bytes + c.remaining_bytes ≤ c.total_bytes)
    × (c.remaining_items + s.next_sequence ≡ c.total_items)
    × (c.total_bytes ≤ 2147483647)
    × (s.first_sequence ≡ 0
        → c.remaining_items ≢ 0
        → s.used_bytes + c.remaining_bytes ≡ c.total_bytes)

abbrev pub ScopeSound : Scope → Type 0
ScopeSound s =
    (payload_queue_limits_valid s.limits ≡ true)
    × (s.item_count + s.first_sequence ≡ s.next_sequence)
    × (s.next_sequence ≡ 0 → s.used_bytes ≡ 0)
    × CapacitySound s s.capacity

pub data AllSound : List Scope → Type 0 where
  no_scopes : AllSound []
  and_sound : {s : Scope} {ss : List Scope} → ScopeSound s → AllSound ss → AllSound (s ∷ ss)

abbrev pub one : Scope → ℕ
one s = 1

abbrev pub reserved_bytes_in : Scope → ℕ
reserved_bytes_in s = remaining_bytes_of s.capacity

abbrev pub reserved_items_in : Scope → ℕ
reserved_items_in s = remaining_items_of s.capacity

pub record Accounts (pool : Pool) : Type 0 where
  pub bytes : pool.meta.used_bytes ≡ sum Scope.used_bytes pool.scopes
  pub items : pool.meta.item_count ≡ sum Scope.item_count pool.scopes
  pub queues : pool.meta.queue_count ≡ sum one pool.scopes
  pub reserved_bytes : pool.meta.reserved_payload_bytes ≡ sum reserved_bytes_in pool.scopes
  pub reserved_items : pool.meta.reserved_item_count ≡ sum reserved_items_in pool.scopes
  pub byte_limit :
      pool.meta.used_bytes + pool.meta.reserved_payload_bytes + pool.meta.limits.reserved_bytes
      ≤ pool.meta.limits.max_bytes
  pub item_limit : pool.meta.item_count + pool.meta.reserved_item_count ≤ pool.meta.limits.max_items
  pub queue_limit : pool.meta.queue_count ≤ pool.meta.max_queues
  pub scopes_sound : AllSound pool.scopes

pub found-ScopeSound :
    (q : Text) (ss : List Scope) (s : Scope) → AllSound ss → find_scope q ss ≡ some s → ScopeSound s
unfolding find_scope
found-ScopeSound q [] s no_scopes h = absurd (ground (arith, h))
found-ScopeSound q (x ∷ xs) s (and_sound p ps) h = elim (Bool-cases (text_eq x.queue_id q)) [
  | inl t ↦ let same : x ≡ s = ground (arith, h, t) in subst ScopeSound same p
  | inr f ↦ found-ScopeSound q xs s ps (ground (arith, h, f))
]

pub put-AllSound :
    (new : Scope) (ss : List Scope) → ScopeSound new → AllSound ss → AllSound (put_scope new ss)
unfolding put_scope
put-AllSound new [] p no_scopes = and_sound p no_scopes
put-AllSound new (x ∷ xs) p (and_sound q qs) = elim (Bool-cases (text_eq x.queue_id new.queue_id)) [
  | inl t ↦ rw t (and_sound p qs)
  | inr f ↦ rw f (and_sound q (put-AllSound new xs p qs))
]

pub delete-AllSound : (q : Text) (ss : List Scope) → AllSound ss → AllSound (delete_scope q ss)
unfolding delete_scope
delete-AllSound q [] no_scopes = no_scopes
delete-AllSound q (x ∷ xs) (and_sound p ps) = elim (Bool-cases (text_eq x.queue_id q)) [
  | inl t ↦ rw t ps
  | inr f ↦ rw f (and_sound p (delete-AllSound q xs ps))
]
