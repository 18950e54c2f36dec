-- ===== src/PayloadPool/Scopes.antt =====
-- The state of the pool: the metadata and the stores of scopes and chunks
-- (examples/cf-game-audit/web/src/audit/payload-pool.ts). Scopes are listed once for each queue; the
-- chunks are those of each queue, by their sequence.
use converge_audit.Prelude.{
  ℕ, ◌+◌, ◌-◌, ◌≡◌, sym, ap, ◌∙◌, Bool, ◌&&◌, Option, none, some, List, [], ◌∷◌, ltb, leb,
  if◌then◌else◌, arith, Bool-cases, inl, inr,
}
use converge_audit.Prelude.Text.{Text, text_eq, text_eq_iff}
use converge_audit.PayloadQueue.Budget.{PayloadQueueLimits, max_int, payload_queue_limits_valid}
use converge_audit.PayloadQueue.Store.{Chunk}

pub record Capacity : Type 0 where
  pub total_bytes : ℕ
  pub total_items : ℕ
  pub remaining_bytes : ℕ
  pub remaining_items : ℕ

pub record Scope : Type 0 where
  pub queue_id : Text
  pub limits : PayloadQueueLimits
  pub incarnation : ℕ
  pub used_bytes : ℕ
  pub item_count : ℕ
  pub first_sequence : ℕ
  pub next_sequence : ℕ
  pub revision : ℕ
  pub last_pruned_digest : Option Text
  pub capacity : Option Capacity

pub record PoolMetadata : Type 0 where
  pub limits : PayloadQueueLimits
  pub max_queues : ℕ
  pub used_bytes : ℕ
  pub item_count : ℕ
  pub queue_count : ℕ
  pub revision : ℕ
  pub reserved_payload_bytes : ℕ
  pub reserved_item_count : ℕ

pub record Pool : Type 0 where
  pub meta : PoolMetadata
  pub scopes : List Scope
  pub chunks : Text → List Chunk

abbrev pub remaining_bytes_of : Option Capacity → ℕ
remaining_bytes_of none = 0
remaining_bytes_of (some c) = c.remaining_bytes

abbrev pub remaining_items_of : Option Capacity → ℕ
remaining_items_of none = 0
remaining_items_of (some c) = c.remaining_items

unfoldable pub find_scope : Text → List Scope → Option Scope
find_scope q [] = none
find_scope q (s ∷ ss) = let rest = find_scope q ss in if text_eq s.queue_id q then some s else rest

-- `put`: the scope of the same queue is replaced.
unfoldable pub put_scope : Scope → List Scope → List Scope
put_scope new [] = new ∷ []
put_scope new (s ∷ ss) =
    let rest = put_scope new ss in if text_eq s.queue_id new.queue_id then new ∷ ss else s ∷ rest

unfoldable pub delete_scope : Text → List Scope → List Scope
delete_scope q [] = []
delete_scope q (s ∷ ss) =
    let rest = delete_scope q ss in if text_eq s.queue_id q then ss else s ∷ rest

-- The store of chunks with those of one queue replaced.
abbrev pub with_chunks : Text → List Chunk → (Text → List Chunk) → Text → List Chunk
with_chunks q chunks store r = if text_eq r q then chunks else store r

-- `registersScope` and `reserves`, with the engine's guards
-- (examples/player-local-runtime/payload-budget.ts, src/audit/payload_scope_budget.mbt and
-- payload_reservation.mbt beside it).
unfoldable pub registers_scope : ℕ → ℕ → Bool
registers_scope current maximum =
    leb current max_int && leb maximum max_int && ltb 0 maximum && ltb current maximum

unfoldable pub reserves : PayloadQueueLimits → ℕ → ℕ → ℕ → ℕ → ℕ → ℕ → Bool
unfolding payload_queue_limits_valid
reserves l used_bytes item_count reserved_bytes reserved_items bytes items =
    payload_queue_limits_valid l
    && leb used_bytes max_int
    && leb item_count max_int
    && leb reserved_bytes max_int
    && leb reserved_items max_int
    && leb bytes max_int
    && leb items max_int
    && ltb 0 bytes
    && ltb 0 items
    && leb l.reserved_bytes l.max_bytes
    && leb used_bytes (l.max_bytes - l.reserved_bytes)
    && leb item_count l.max_items
    && leb reserved_bytes (l.max_bytes - l.reserved_bytes - used_bytes)
    && leb reserved_items (l.max_items - item_count)
    && leb bytes (l.max_bytes - l.reserved_bytes - used_bytes - reserved_bytes)
    && leb items (l.max_items - item_count - reserved_items)

-- Sums over the scopes.
unfoldable pub sum : (Scope → ℕ) → List Scope → ℕ
sum w [] = 0
sum w (s ∷ ss) = w s + sum w ss

pub find_scope_id :
    (q : Text) (ss : List Scope) (s : Scope) → find_scope q ss ≡ some s → s.queue_id ≡ q
unfolding find_scope
find_scope_id q [] s h = absurd (ground (arith, h))
find_scope_id q (x ∷ xs) s h = elim (Bool-cases (text_eq x.queue_id q)) [
  | inl t ↦
      let same : x ≡ s = ground (arith, h, t) in
      ap (λ (y : Scope). y.queue_id) (sym same) ∙ (text_eq_iff x.queue_id q).0 t
  | inr f ↦ find_scope_id q xs s (ground (arith, h, f))
]

-- A scope that is put in the place of another weighs what it weighs in the place of the other.
pub sum-put_scope :
    (w : Scope → ℕ) (new s : Scope) (ss : List Scope)
    → find_scope new.queue_id ss ≡ some s
    → sum w (put_scope new ss) + w s ≡ sum w ss + w new
unfolding find_scope put_scope sum
sum-put_scope w new s [] h = absurd (ground (arith, h))
sum-put_scope w new s (x ∷ xs) h = elim (Bool-cases (text_eq x.queue_id new.queue_id)) [
  | inl t ↦
      let same : x ≡ s = ground (arith, h, t) in
      let weight : w x ≡ w s = ap w same in ground (arith, t, weight)
  | inr f ↦ let rest = sum-put_scope w new s xs (ground (arith, h, f)) in ground (arith, f, rest)
]

pub sum-put_scope_fresh :
    (w : Scope → ℕ) (new : Scope) (ss : List Scope)
    → find_scope new.queue_id ss ≡ none
    → sum w (put_scope new ss) ≡ sum w ss + w new
unfolding find_scope put_scope sum
sum-put_scope_fresh w new [] h = ground arith
sum-put_scope_fresh w new (x ∷ xs) h = elim (Bool-cases (text_eq x.queue_id new.queue_id)) [
  | inl t ↦ absurd (ground (arith, h, t))
  | inr f ↦
      let rest = sum-put_scope_fresh w new xs (ground (arith, h, f)) in ground (arith, f, rest)
]

pub sum-delete_scope :
    (w : Scope → ℕ) (q : Text) (s : Scope) (ss : List Scope)
    → find_scope q ss ≡ some s
    → sum w (delete_scope q ss) + w s ≡ sum w ss
unfolding find_scope delete_scope sum
sum-delete_scope w q s [] h = absurd (ground (arith, h))
sum-delete_scope w q s (x ∷ xs) h = elim (Bool-cases (text_eq x.queue_id q)) [
  | inl t ↦
      let same : x ≡ s = ground (arith, h, t) in
      let weight : w x ≡ w s = ap w same in ground (arith, t, weight)
  | inr f ↦ let rest = sum-delete_scope w q s xs (ground (arith, h, f)) in ground (arith, f, rest)
]
